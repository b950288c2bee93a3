-- ===== src/Controlplane/Lifecycle/Reporting.antt =====
-- controlplane/memory.go: Renew, Start, AcknowledgeCancellation, CancelRun, Complete and Fail are
-- steps of the run's life, on every branch.
use realy.Common.{
  ◌≡◌, ◌≢◌, inl, inr, refl, sym, ap, ◌∙◌, String, true, not, ◌&&◌, some, is_some, ℤ, arith,
  Bool-cases, Option-cases,
}
use realy.Common.Maps.{lookup}
use realy.Types.{Time, Run, RunStatus, AttemptStatus, is_status, in_state, add_duration}
use realy.Controlplane.Types.{CancelRequest, Assignment, Payload, World, Result, ok, err}
use realy.Controlplane.State.{MemoryStorage, now, tick, append_event}
use realy.Controlplane.Runs.{past, missing_or_past, requeue_expired, finalize_cancellation}
use realy.Controlplane.Lifecycle.{
  is_active, Transition, holds, Moves, Steps, quiet, move, stay, more,
}
use realy.Controlplane.Lifecycle.Invariant.{Inv, IsCoherent, Steps-append}
use realy.Controlplane.Lifecycle.Moving.{append_event-Quiet, save-Moves}
use realy.Controlplane.Lifecycle.Changes.{
  IsStored, requeue_expired-Follows, finalize-Follows, cancel_run_locked-Follows, Quiet-step,
  tick-Quiet, step_of-Moves,
}
use realy.Controlplane.Lifecycle.Authorizing.{AuthorizeCases, authorize-cases}
use realy.Controlplane.Reports.{
  with_run, authorize_assignment, renew_run, renew, cancel_run, acknowledge_run,
  acknowledge_cancellation, begin_run, start_checked, start_run, start, started_run,
}

-- What is known of the run that an authorized method goes on with.
pub record Known (run : Run) (s : MemoryStorage) : Type 0 where
  pub at : IsStored run s
  pub coherent : IsCoherent run
  pub token : run.attempt.lease_token ≢ ""

pub with_run-Steps :
    {A : Type 0} (run_id attempt_id lease : String) (s : MemoryStorage)
    (out : Result Run × MemoryStorage) (method : Run → MemoryStorage → Result A × MemoryStorage)
    → Inv s
    → AuthorizeCases run_id attempt_id lease s out
    → ((run : Run) (s' : MemoryStorage) → Known run s' → Steps s' (method run s').1)
    → Steps s (with_run out method).1
with_run-Steps run_id attempt_id lease s (ok run, s') method inv (auth, q) go =
    let key = inv.keyed run_id run auth.at in
    Steps-append (Quiet-step q) (
      go run s' (record {
        at = ap (lookup run.id) auth.same ∙ ap (λ (k : String). lookup k s.runs) key ∙ auth.at;
        coherent = inv.coherent run_id run auth.at;
        token = λ e. auth.nonempty (sym auth.token ∙ e);
      }))
with_run-Steps run_id attempt_id lease s (err e, s') method inv steps go = steps

-- A move, seen from a state before something quiet, with the events that follow.
module _ (w : World) (run run' : Run) (s : MemoryStorage) where
  pub logged_twice :
      (first second : String) (a b : Payload) (s' : MemoryStorage)
      → IsStored run s
      → Transition run run'
      → Moves run run' s s'
      → Steps s (append_event w run' second b (append_event w run' first a s'))
  logged_twice first second a b s' at t moves =
      let s1 = append_event w run' first a s' in
      more
        (more (more stay (move run run' at t moves)) (quiet (append_event-Quiet w run' first a s')))
        (quiet (append_event-Quiet w run' second b s1))

pub tick-Known : (w : World) (run : Run) (s : MemoryStorage) → Known run s → Known run (tick w s)
tick-Known w run s k = record { at = k.at; coherent = k.coherent; token = k.token }

-- A cancelling run that a lease still names is on its node.
Known-active :
    (run : Run) (s : MemoryStorage)
    → Known run s
    → run.status ≡ RunStatus.cancelling
    → is_active run.attempt.status ≡ true
Known-active run s k c = elim (Bool-cases (in_state run.attempt.status AttemptStatus.queued)) [
  | inl q ↦ absurd (k.token (k.coherent.idle (ground arith)).1)
  | inr q ↦ ground (arith, k.coherent)
]

pub tick-Steps : (w : World) {s s' : MemoryStorage} → Steps (tick w s) s' → Steps s s'
tick-Steps w {s} steps = Steps-append (Quiet-step (tick-Quiet w s)) steps

module _ (w : World) (run : Run) where
  pub cancel-Steps :
      (s : MemoryStorage)
      → Known run s
      → run.status ≡ RunStatus.cancelling
      → Steps s (finalize_cancellation w run (now w s) (tick w s)).1
  cancel-Steps s k c =
      tick-Steps w (finalize-Follows w run (now w s) (tick w s) k.at c (Known-active run s k c)).0

  requeue-Steps :
      (s : MemoryStorage)
      → Known run s
      → Steps s (requeue_expired w run (now w (tick w s)) (tick w (tick w s))).1
  requeue-Steps s k =
      tick-Steps w
        (tick-Steps w (requeue_expired-Follows w run (now w (tick w s)) (tick w (tick w s)) k.at).0)

  acknowledge_run-Steps : (s : MemoryStorage) → Known run s → Steps s (acknowledge_run w run s).1
  unfolding acknowledge_run
  acknowledge_run-Steps s k = elim (Bool-cases (is_status run.status RunStatus.cancelled)) [
    | inl e ↦ rw e stay
    | inr e ↦ elim (Bool-cases (not (is_status run.status RunStatus.cancelling))) [
      | inl c ↦ rw (e, c) stay
      | inr c ↦ rw (e, c) (cancel-Steps s k (ground arith))
    ]
  ]

  begin_run-Steps :
      (t : Time) (s : MemoryStorage)
      → Known run s
      → run.attempt.status ≡ AttemptStatus.leased
      → run.status ≢ RunStatus.cancelling
      → Steps s (begin_run w run t s).1
  unfolding begin_run holds
  begin_run-Steps t s k h c =
      logged_twice w run (started_run run t) s _ _ _ _ _ k.at (Transition.begin t h c)
        (save-Moves run (started_run run t) s refl (λ m _. ground arith))

  start_checked-Steps :
      (s : MemoryStorage)
      → Known run s
      → run.attempt.status ≡ AttemptStatus.leased
      → run.status ≢ RunStatus.cancelling
      → Steps s (start_checked w run s).1
  unfolding start_checked
  start_checked-Steps s k h c =
      elim (Bool-cases
        (is_some run.attempt.lease_expires_at && past run.attempt.lease_expires_at (now w s))) [
          | inl e ↦ rw e (requeue-Steps s k)
          | inr e ↦ elim (Bool-cases (is_some run.attempt.lease_expires_at)) [
            | inl x ↦ rw e (
                rw x (
                  tick-Steps w (
                    tick-Steps w (
                      begin_run-Steps (now w (tick w s)) (tick w (tick w s))
                        (tick-Known w run (tick w s) (tick-Known w run s k)) h c))))
            | inr x ↦ rw e (
                rw x
                  (tick-Steps w (begin_run-Steps (now w s) (tick w s) (tick-Known w run s k) h c)))
          ]
        ]

  start_run-Steps : (s : MemoryStorage) → Known run s → Steps s (start_run w run s).1
  unfolding start_run
  start_run-Steps s k = elim (Bool-cases (not (in_state run.attempt.status AttemptStatus.leased))) [
    | inl e ↦ rw e stay
    | inr e ↦ elim (Bool-cases (is_status run.status RunStatus.cancelling)) [
      | inl c ↦ rw (e, c) (cancel-Steps s k (ground arith))
      | inr c ↦ rw (e, c) (start_checked-Steps s k (ground arith) (ground arith))
    ]
  ]

  renew_run-Steps : (ttl : ℤ) (s : MemoryStorage) → Known run s → Steps s (renew_run w ttl run s).1
  unfolding renew_run holds
  renew_run-Steps ttl s k =
      let expires = add_duration (now w s) ttl in
      let run' : Run = record run {
        attempt = record (run.attempt) { lease_expires_at = some expires };
      } in
      elim (Bool-cases (
        not (in_state run.attempt.status AttemptStatus.leased)
        && not (in_state run.attempt.status AttemptStatus.running))) [
          | inl e ↦ rw e stay
          | inr e ↦ elim (Bool-cases (missing_or_past run.attempt.lease_expires_at (now w s))) [
            | inl p ↦ rw (e, p) (Quiet-step (tick-Quiet w s))
            | inr p ↦
                rw (e, p)
                  (tick-Steps w
                    (step_of-Moves run run' (tick w s) _ k.at
                      (Transition.renew expires (ground arith))
                      (save-Moves run run' (tick w s) refl (λ m h. refl))).0)
          ]
        ]

module _ (w : World) (a : Assignment) (s : MemoryStorage) (inv : Inv s) where
  pub of_authorized :
      {A : Type 0} (method : Run → MemoryStorage → Result A × MemoryStorage)
      → ((run : Run) (s' : MemoryStorage) → Known run s' → Steps s' (method run s').1)
      → Steps s (with_run (authorize_assignment w a s) method).1
  of_authorized method go =
      with_run-Steps a.run_id a.attempt_id a.lease_token s (authorize_assignment w a s) method inv
        (authorize-cases w a.run_id a.attempt_id a.lease_token s inv) go

  pub renew-Steps : (ttl : ℤ) → Steps s (renew w a ttl s).1
  unfolding renew
  renew-Steps ttl = of_authorized (renew_run w ttl) (λ run s' k. renew_run-Steps w run ttl s' k)

  pub start-Steps : Steps s (start w a s).1
  unfolding start
  start-Steps = of_authorized (start_run w) (start_run-Steps w)

  pub acknowledge_cancellation-Steps : Steps s (acknowledge_cancellation w a s).1
  unfolding acknowledge_cancellation
  acknowledge_cancellation-Steps = of_authorized (acknowledge_run w) (acknowledge_run-Steps w)

pub cancel_run-Steps :
    (w : World) (run_id : String) (request : CancelRequest) (s : MemoryStorage)
    → Inv s
    → Steps s (cancel_run w run_id request s).1
unfolding cancel_run
cancel_run-Steps w run_id request s inv = elim (Option-cases (lookup run_id s.runs)) [
  | inl e ↦ rw (e, cancel_run) stay
  | inr (run, e) ↦
      rw (e, cancel_run)
        (tick-Steps w
          (cancel_run_locked-Follows w run request (now w s) (tick w s)
            (ap (λ (k : String). lookup k s.runs) (inv.keyed run_id run e) ∙ e)
            (inv.coherent run_id run e)).0)
]
