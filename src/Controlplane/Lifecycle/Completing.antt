-- ===== src/Controlplane/Lifecycle/Completing.antt =====
-- controlplane/memory.go: Complete and Fail are steps of the run's life, on every branch.
use realy.Common.{
  ◌≡◌, ◌≢◌, inl, inr, refl, sym, ap, ◌∙◌, subst, String, true, not, ◌&&◌, some, if◌then◌else◌, ◌==◌,
  eq_iff, is_some, arith, Bool-cases, Option-cases,
}
use realy.Common.Maps.{lookup}
use realy.Types.{Time, Run, RunStatus, AttemptStatus, is_status, in_state, RunResult}
use realy.Controlplane.Types.{Assignment, World}
use realy.Controlplane.State.{MemoryStorage, save_run, now, tick, release_node}
use realy.Controlplane.Runs.{missing_or_past}
use realy.Controlplane.Lifecycle.{is_active, Transition, Steps, stay}
use realy.Controlplane.Lifecycle.Invariant.{Inv}
use realy.Controlplane.Lifecycle.Moving.{save_free-Moves}
use realy.Controlplane.Lifecycle.Reporting.{
  logged_twice, tick-Steps, Known, tick-Known, cancel-Steps,
}
use realy.Controlplane.Reports.{holds_lease, succeeded_run, failed_run}
use realy.Controlplane.Completion.{
  repeat_completion, commit_completion, complete_run, complete, commit_failure, fail_run, fail,
}

repeat_completion_same :
    (w : World) (run : Run) (result : RunResult) (s : MemoryStorage)
    → (repeat_completion w run result s).1 ≡ s
unfolding repeat_completion
repeat_completion_same w run result s = ground arith

module _ (w : World) (run : Run) (s : MemoryStorage) (k : Known run s) where
  -- The state after the test of the lease, which reads the clock only where there is one.
  read-Known : Known run (if is_some run.attempt.lease_expires_at then tick w s else s)
  read-Known = elim (Bool-cases (is_some run.attempt.lease_expires_at)) [
    | inl e ↦ rw e (tick-Known w run s k)
    | inr e ↦ rw e k
  ]

  read-Steps :
      {s' : MemoryStorage}
      → Steps (if is_some run.attempt.lease_expires_at then tick w s else s) s'
      → Steps s s'
  read-Steps steps = elim (Bool-cases (is_some run.attempt.lease_expires_at)) [
    | inl e ↦ tick-Steps w (rw e at steps)
    | inr e ↦ rw e at steps
  ]

module _ (w : World) (run : Run) (s : MemoryStorage) (k : Known run s) where
  commit_completion-Steps :
      (result : RunResult) (t : Time)
      → run.attempt.status ≡ AttemptStatus.running
      → run.status ≢ RunStatus.cancelling
      → Steps s (commit_completion w run result t s).1
  unfolding commit_completion
  commit_completion-Steps result t h c =
      let run' = succeeded_run run result t in
      logged_twice w run run' s _ _ _ _ (release_node run.attempt.node_id (save_run run' s)) k.at
        (Transition.succeed result t h c)
        (save_free-Moves run run' s refl refl (inl (ground arith)))

  commit_failure-Steps :
      (cause : String) (t : Time)
      → is_active run.attempt.status ≡ true
      → run.status ≢ RunStatus.cancelling
      → Steps s (commit_failure w run cause t s).1
  unfolding commit_failure
  commit_failure-Steps cause t h c =
      let run' = failed_run run cause t in
      logged_twice w run run' s _ _ _ _ (release_node run.attempt.node_id (save_run run' s)) k.at
        (Transition.fail cause t h c) (save_free-Moves run run' s refl refl (inl h))

-- The state in which a final report commits: after the test of the lease.
abbrev read_clock : World → Run → MemoryStorage → MemoryStorage
read_clock w run s = if is_some run.attempt.lease_expires_at then tick w s else s

module _ (w : World) (a : Assignment) (run : Run) (s : MemoryStorage) (k : Known run s) where
  commit_Known : Known run (tick w (read_clock w run s))
  commit_Known = tick-Known w run (read_clock w run s) (read-Known w run s k)

  complete_checked-Steps :
      (result : RunResult) → holds_lease run a ≡ true → Steps s (complete_run w a result run s).1
  unfolding complete_run
  complete_checked-Steps result held =
      elim (Bool-cases (
        is_status run.status RunStatus.succeeded
        && in_state run.attempt.status AttemptStatus.succeeded)) [
          | inl e ↦
              rw (held, e) (subst (Steps s) (sym (repeat_completion_same w run result s)) stay)
          | inr e ↦ elim (Bool-cases (missing_or_past run.attempt.lease_expires_at (now w s))) [
            | inl p ↦ rw (held, e, p) (read-Steps w run s k stay)
            | inr p ↦ elim (Bool-cases (not (in_state run.attempt.status AttemptStatus.running))) [
              | inl q ↦ rw (held, e, p, q) (read-Steps w run s k stay)
              | inr q ↦ elim (Bool-cases (is_status run.status RunStatus.cancelling)) [
                | inl c ↦ rw (held, e, p, q, c) (read-Steps w run s k stay)
                | inr c ↦
                    rw (held, e, p, q, c)
                      (read-Steps w run s k (
                        tick-Steps w (
                          commit_completion-Steps w run (tick w (read_clock w run s)) commit_Known
                            result (now w (read_clock w run s)) (ground arith) (ground arith))))
              ]
            ]
          ]
        ]

  fail_checked-Steps :
      (cause : String) → holds_lease run a ≡ true → Steps s (fail_run w a cause run s).1
  unfolding fail_run
  fail_checked-Steps cause held =
      elim (Bool-cases (
        is_status run.status RunStatus.failed
        && in_state run.attempt.status AttemptStatus.failed)) [
          | inl e ↦ elim (Bool-cases (run.error == cause)) [
            | inl x ↦ rw (held, e, x) stay
            | inr x ↦ rw (held, e, x) stay
          ]
          | inr e ↦ elim (Bool-cases (missing_or_past run.attempt.lease_expires_at (now w s))) [
            | inl p ↦ rw (held, e, p) (read-Steps w run s k stay)
            | inr p ↦
                elim (Bool-cases (
                  not (in_state run.attempt.status AttemptStatus.running)
                  && not (in_state run.attempt.status AttemptStatus.leased))) [
                    | inl q ↦ rw (held, e, p, q) (read-Steps w run s k stay)
                    | inr q ↦ elim (Bool-cases (is_status run.status RunStatus.cancelling)) [
                      | inl c ↦
                          rw (held, e, p, q, c)
                            (read-Steps w run s k (
                              cancel-Steps w run (read_clock w run s) (read-Known w run s k)
                                (ground arith)))
                      | inr c ↦
                          rw (held, e, p, q, c)
                            (read-Steps w run s k (
                              tick-Steps w (
                                commit_failure-Steps w run (tick w (read_clock w run s))
                                  commit_Known cause (now w (read_clock w run s)) (ground arith)
                                  (ground arith))))
                    ]
                  ]
          ]
        ]

module _ (w : World) (a : Assignment) (s : MemoryStorage) (inv : Inv s) where
  held_Known :
      (run : Run) → lookup a.run_id s.runs ≡ some run → holds_lease run a ≡ true → Known run s
  held_Known run e held = record {
    at = ap (λ (k : String). lookup k s.runs) (inv.keyed a.run_id run e) ∙ e;
    coherent = inv.coherent a.run_id run e;
    token = ground (arith, eq_iff a.lease_token "", eq_iff run.attempt.lease_token a.lease_token);
  }

  complete_run-Steps :
      (result : RunResult) (run : Run)
      → lookup a.run_id s.runs ≡ some run
      → Steps s (complete_run w a result run s).1
  unfolding complete_run
  complete_run-Steps result run e = elim (Bool-cases (holds_lease run a)) [
    | inl h ↦ complete_checked-Steps w a run s (held_Known run e h) result h
    | inr h ↦ rw h stay
  ]

  fail_run-Steps :
      (cause : String) (run : Run)
      → lookup a.run_id s.runs ≡ some run
      → Steps s (fail_run w a cause run s).1
  unfolding fail_run
  fail_run-Steps cause run e = elim (Bool-cases (holds_lease run a)) [
    | inl h ↦ fail_checked-Steps w a run s (held_Known run e h) cause h
    | inr h ↦ rw h stay
  ]

  pub complete-Steps : (result : RunResult) → Steps s (complete w a result s).1
  unfolding complete
  complete-Steps result = elim (Option-cases (lookup a.run_id s.runs)) [
    | inl e ↦ rw (e, complete) stay
    | inr (run, e) ↦ rw (e, complete) (complete_run-Steps result run e)
  ]

  pub fail-Steps : (cause : String) → Steps s (fail w a cause s).1
  unfolding fail
  fail-Steps cause = elim (Option-cases (lookup a.run_id s.runs)) [
    | inl e ↦ rw (e, fail) stay
    | inr (run, e) ↦ rw (e, fail) (fail_run-Steps cause run e)
  ]
