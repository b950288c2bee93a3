-- ===== src/Controlplane/Lifecycle/Recovery.antt =====
-- controlplane/memory.go: Reconcile is a step of the runs' lives, on every branch.
use realy.Common.{
  ℕ, ◌≡◌, inl, inr, refl, ap, ◌∙◌, String, not, ◌||◌, ◌&&◌, Option, none, some, List, [], ◌∷◌, ◌++◌,
  is_some, ℤ, le_nat, arith, Bool-cases,
}
use realy.Common.Maps.{lookup, lookup_or, insert}
use realy.Types.{Time, Run, RunStatus, AttemptStatus, is_status, Request, add_duration}
use realy.Controlplane.Types.{Payload, World}
use realy.Controlplane.State.{
  MemoryStorage, save_run, new_id, draw, retry_backoff, append_event, release_node,
}
use realy.Controlplane.Runs.{past, terminal_run}
use realy.Controlplane.Lifecycle.{Transition, holds, Moves, Steps, quiet, stay, more}
use realy.Controlplane.Lifecycle.Invariant.{Inv, IsCoherent, Steps-append, Steps-Inv}
use realy.Controlplane.Lifecycle.Moving.{
  Quiet-same, append_event-Quiet, save-Moves, free-Moves, Moves-Quiet, Quiet-Moves, Moves-trans,
}
use realy.Controlplane.Lifecycle.Changes.{
  IsStored, finalize-Follows, cancel_run_locked-Follows, step_of-Moves,
}
use realy.Controlplane.Reconciling.{
  set_last, lost_run, exhausted_run, retried_run, is_abandoned, retry_run, exhaust_run,
  lose_attempt, expire_run, expire_all, recover_run, recover_all, reconcile,
}
use realy.Controlplane.Claiming.{timeout_request}

module _ (w : World) (run : Run) (t : Time) (s : MemoryStorage) where
  -- The attempt is given up: the node is free again, and the run is written.
  lost-Moves :
      (kind : String) (value : Payload)
      → run.attempt.status ≡ AttemptStatus.running
      → Moves run (lost_run run t) s (
          append_event w
            (lost_run run t)
            kind
            value
            (save_run (lost_run run t) (release_node run.attempt.node_id s)))
  lost-Moves kind value h =
      let s1 = save_run (lost_run run t) (release_node run.attempt.node_id s) in
      Moves-Quiet run (lost_run run t) s s1 _
        (free-Moves run (lost_run run t) s refl refl (inl (ground arith)))
        (append_event-Quiet w (lost_run run t) kind value s1)

  exhaust-Steps :
      (s1 : MemoryStorage)
      → IsStored run s
      → run.status ≡ RunStatus.running
      → run.attempt.status ≡ AttemptStatus.running
      → Moves run (lost_run run t) s s1
      → Steps s (exhaust_run w (lost_run run t) t s1)
  unfolding exhaust_run holds
  exhaust-Steps s1 at p q moves =
      let last = exhausted_run (lost_run run t) t in
      more
        (step_of-Moves run last s (save_run last s1) at (Transition.exhaust t p q) (
          Moves-trans run (lost_run run t) last s s1 _ refl (λ m h. inr refl) moves
            (save-Moves (lost_run run t) last s1 refl (λ m h. refl)))).0
        (quiet (append_event-Quiet w last "run.failed" _ (save_run last s1)))

  retry-Steps :
      (request : Request) (s1 : MemoryStorage)
      → IsStored run s
      → run.status ≡ RunStatus.running
      → run.attempt.status ≡ AttemptStatus.running
      → Moves run (lost_run run t) s s1
      → Steps s (retry_run w (lost_run run t) request t s1)
  unfolding retry_run holds
  retry-Steps request s1 at p q moves =
      let next_time = add_duration t (retry_backoff w request.retry) in
      let last = retried_run (lost_run run t) (new_id w "attempt" s1) next_time in
      let history = set_last (lost_run run t).attempt (lookup_or [] run.id s1.attempt_history) in
      let s2 = record (draw w s1) {
        attempt_history = insert run.id (history ++ last.attempt ∷ []) s1.attempt_history;
      } in
      more
        (step_of-Moves run last s (save_run last s2) at
          (Transition.retry (new_id w "attempt" s1) next_time p q)
          (Moves-trans run (lost_run run t) last s s1 _ refl (λ m h. inr refl) moves
            (Quiet-Moves (lost_run run t) last s1 s2 _ (Quiet-same s1 s2 refl refl refl)
              (save-Moves (lost_run run t) last s2 refl (λ m h. refl))))).0
        (quiet (append_event-Quiet w last "attempt.queued" _ (save_run last s2)))

  lose_attempt-Steps :
      (request : Request)
      → IsStored run s
      → run.status ≡ RunStatus.running
      → run.attempt.status ≡ AttemptStatus.running
      → Steps s (lose_attempt w run request t s)
  unfolding lose_attempt
  lose_attempt-Steps request at p q =
      elim (Bool-cases (le_nat request.retry.max_attempts run.attempt.number)) [
        | inl e ↦ rw e (exhaust-Steps _ at p q (lost-Moves "attempt.lost" _ q))
        | inr e ↦ rw e (retry-Steps request _ at p q (lost-Moves "attempt.lost" _ q))
      ]

IsStored-at :
    {s : MemoryStorage} (id : String) (run : Run)
    → Inv s
    → lookup id s.runs ≡ some run
    → IsStored run s
IsStored-at {s} id run inv e = ap (λ (k : String). lookup k s.runs) (inv.keyed id run e) ∙ e

module _ (w : World) (t : Time) (limit : ℤ) where
  expire_run-Steps :
      (run : Run) (n : ℕ) (s : MemoryStorage)
      → IsStored run s
      → IsCoherent run
      → Steps s (expire_run w run t limit (n, s)).1
  unfolding expire_run
  expire_run-Steps run n s at c =
      elim (Bool-cases (
        past run.deadline_at t
        && (not (terminal_run run.status) && not (is_some run.cancel_requested_at)))) [
          | inl e ↦ rw e (cancel_run_locked-Follows w run timeout_request t s at c).0
          | inr e ↦ rw e stay
        ]

  expire_at-Steps :
      (id : String) (n : ℕ) (s : MemoryStorage)
      → Inv s
      → (o : Option Run) → lookup id s.runs ≡ o
      → Steps s
          (elim o as (λ _. ℕ × MemoryStorage) [
            | none ↦ (n, s)
            | some run ↦ expire_run w run t limit (n, s)
          ]).1
  expire_at-Steps id n s inv none e = stay
  expire_at-Steps id n s inv (some run) e =
      expire_run-Steps run n s (IsStored-at id run inv e) (inv.coherent id run e)

  expire_all-Steps :
      (ids : List String) (n : ℕ) (s : MemoryStorage)
      → Inv s
      → Steps s (expire_all w ids t limit (n, s)).1
  unfolding expire_all
  expire_all-Steps [] n s inv = stay
  expire_all-Steps (id ∷ ids) n s inv = elim (Bool-cases (le_nat limit n)) [
    | inl e ↦ rw e stay
    | inr e ↦ rw e (
        let first = expire_at-Steps id n s inv (lookup id s.runs) refl in
        Steps-append first (expire_all-Steps ids _ _ (Steps-Inv first inv)))
  ]

  recover_run-Steps :
      (run : Run) (blank : Request) (n : ℕ) (s : MemoryStorage)
      → IsStored run s
      → IsCoherent run
      → Steps s (recover_run w run blank t limit (n, s)).1
  unfolding recover_run is_abandoned
  recover_run-Steps run blank n s at c =
      elim (Bool-cases (le_nat limit n || not (is_abandoned run t))) [
        | inl e ↦ rw e stay
        | inr e ↦ elim (Bool-cases (is_status run.status RunStatus.cancelling)) [
          | inl p ↦ rw (e, p) (finalize-Follows w run t s at (ground arith) (ground arith)).0
          | inr p ↦
              rw (e, p)
                (lose_attempt-Steps w run t s (lookup_or blank run.id s.requests) at (ground arith)
                  (ground arith))
        ]
      ]

  recover_at-Steps :
      (id : String) (blank : Request) (n : ℕ) (s : MemoryStorage)
      → Inv s
      → (o : Option Run) → lookup id s.runs ≡ o
      → Steps s
          (elim o as (λ _. ℕ × MemoryStorage) [
            | none ↦ (n, s)
            | some run ↦ recover_run w run blank t limit (n, s)
          ]).1
  recover_at-Steps id blank n s inv none e = stay
  recover_at-Steps id blank n s inv (some run) e =
      recover_run-Steps run blank n s (IsStored-at id run inv e) (inv.coherent id run e)

  recover_all-Steps :
      (ids : List String) (blank : Request) (n : ℕ) (s : MemoryStorage)
      → Inv s
      → Steps s (recover_all w ids blank t limit (n, s)).1
  unfolding recover_all
  recover_all-Steps [] blank n s inv = stay
  recover_all-Steps (id ∷ ids) blank n s inv =
      let first = recover_at-Steps id blank n s inv (lookup id s.runs) refl in
      Steps-append first (recover_all-Steps ids blank _ _ (Steps-Inv first inv))

pub reconcile-Steps :
    (w : World) (order₁ order₂ : List String) (blank : Request) (t : Time) (limit : ℤ)
    (s : MemoryStorage)
    → Inv s
    → Steps s (reconcile w order₁ order₂ blank t limit s).1
unfolding reconcile
reconcile-Steps w order₁ order₂ blank t limit s inv =
    let first = expire_all-Steps w t limit order₁ 0 s inv in
    Steps-append first (
      recover_all-Steps w t limit order₂ blank (expire_all w order₁ t limit (0, s)).0
        (expire_all w order₁ t limit (0, s)).1 (Steps-Inv first inv))
