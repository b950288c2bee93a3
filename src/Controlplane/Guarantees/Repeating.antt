-- ===== src/Controlplane/Guarantees/Repeating.antt =====
-- controlplane/memory.go: what Complete and Submit do when a call is repeated.
use realy.Common.{
  ◌≡◌, ◌⊎◌, inl, inr, refl, sym, ap, ◌∙◌, subst, String, true, false, not, ◌&&◌, Option, some, ◌==◌,
  eq_iff, arith, Bool-cases, concat,
}
use realy.Common.Maps.{lookup, lookup_or, lookup-insert_self}
use realy.Types.{Time, Run, RunStatus, AttemptStatus, is_status, in_state, RunResult, Request}
use realy.Controlplane.Types.{Assignment, World, text, Result, ok}
use realy.Controlplane.State.{MemoryStorage, save_run, now, tick, new_id, append_event}
use realy.Controlplane.Runs.{missing_or_past}
use realy.Controlplane.Lifecycle.Moving.{release_node_runs}
use realy.Controlplane.Identity.{same_result}
use realy.Controlplane.Reports.{holds_lease, succeeded_run, Reply}
use realy.Controlplane.Completion.{repeat_completion, commit_completion, complete_run, complete}
use realy.Controlplane.Submission.{submit, create_run, idempotency_scope}
use package.text.Mathlib.TextLemmas.{cons-append, cons-ne-nil}

-- The call succeeded and this is the state after it.
abbrev Succeeds : Reply → MemoryStorage → Type 0
Succeeds reply s' = (reply.0 ≡ ok tt) × (reply.1 ≡ s')

module _ (w : World) (a : Assignment) (result : RunResult) (run : Run) where
  -- What is stored once a completion is committed.
  committed_run :
      (t : Time) (s : MemoryStorage)
      → lookup run.id (commit_completion w run result t s).1.runs
        ≡ some (succeeded_run run result t)
  unfolding commit_completion append_event
  committed_run t s =
      ap (lookup run.id)
        (release_node_runs run.attempt.node_id (save_run (succeeded_run run result t) s))
      ∙ lookup-insert_self run.id (succeeded_run run result t) s.runs

  repeated_run :
      (t : Time) (s : MemoryStorage)
      → holds_lease run a ≡ true
      → same_result w result result ≡ true
      → complete_run w a result (succeeded_run run result t) s ≡ (ok tt, s)
  unfolding complete_run repeat_completion
  repeated_run t s held same = rw (held, same)

-- A completion succeeds by changing nothing or by committing.
abbrev Completed : World → RunResult → Run → MemoryStorage → Reply → Type 0
Completed w result run s reply =
    (reply ≡ (ok tt, s))
    ⊎ ((t : Time) × (s' : MemoryStorage) × (reply ≡ commit_completion w run result t s'))

module _ (w : World) (a : Assignment) (result : RunResult) (run : Run) (s : MemoryStorage) where
  repeat_completion-Completed :
      (repeat_completion w run result s).0 ≡ ok tt → repeat_completion w run result s ≡ (ok tt, s)
  unfolding repeat_completion
  repeat_completion-Completed h = ground arith

  checked-Completed :
      holds_lease run a ≡ true
      → (complete_run w a result run s).0 ≡ ok tt
      → Completed w result run s (complete_run w a result run s)
  unfolding complete_run
  checked-Completed held h =
      elim (Bool-cases (
        is_status run.status RunStatus.succeeded
        && in_state run.attempt.status AttemptStatus.succeeded)) [
          | inl e ↦ rw (held, e) (inl (repeat_completion-Completed (rw (held, e) at h)))
          | inr e ↦ elim (Bool-cases (missing_or_past run.attempt.lease_expires_at (now w s))) [
            | inl p ↦ cc (rw (held, e, p) at h)
            | inr p ↦ elim (Bool-cases (not (in_state run.attempt.status AttemptStatus.running))) [
              | inl q ↦ cc (rw (held, e, p, q) at h)
              | inr q ↦ elim (Bool-cases (is_status run.status RunStatus.cancelling)) [
                | inl c ↦ cc (rw (held, e, p, q, c) at h)
                | inr c ↦ rw (held, e, p, q, c) (inr (_, _, refl))
              ]
            ]
          ]
        ]

  complete_run-holds : (complete_run w a result run s).0 ≡ ok tt → holds_lease run a ≡ true
  unfolding complete_run
  complete_run-holds h = elim (Bool-cases (holds_lease run a)) [
    | inl e ↦ e
    | inr e ↦ cc (rw e at h)
  ]

  complete_at :
      lookup a.run_id s.runs ≡ some run → complete w a result s ≡ complete_run w a result run s
  unfolding complete
  complete_at at = rw (at, complete)

-- A completion that succeeds can be repeated: if Complete returned no error, the same report to the
-- state after it returns no error again and changes nothing, provided that stored runs stand under
-- their own IDs and the result's JSON form is equal to itself (it can be encoded and decoded).
pub complete_repeat :
    (w : World) (a : Assignment) (result : RunResult) (run : Run) (s : MemoryStorage)
    → lookup a.run_id s.runs ≡ some run
    → run.id ≡ a.run_id
    → same_result w result result ≡ true
    → (complete w a result s).0 ≡ ok tt
    → let s' = (complete w a result s).1 in complete w a result s' ≡ (ok tt, s')
complete_repeat w a result run s at key same h =
    subst (λ (r : Reply). complete w a result r.1 ≡ (ok tt, r.1))
      (sym (complete_at w a result run s at))
      (elim (checked-Completed w a result run s held h') [
        | inl e ↦
            subst (λ (r : Reply). complete w a result r.1 ≡ (ok tt, r.1)) (sym e)
              (complete_at w a result run s at ∙ e)
        | inr (t, s0, e) ↦
            subst (λ (r : Reply). complete w a result r.1 ≡ (ok tt, r.1)) (sym e)
              (complete_at w a result (succeeded_run run result t)
                  (commit_completion w run result t s0).1
                  (ap (λ (k : String). lookup k (commit_completion w run result t s0).1.runs)
                      (sym key)
                    ∙ committed_run w a result run t s0)
                ∙ repeated_run w a result run t (commit_completion w run result t s0).1 held same)
      ])
  where
    h' : (complete_run w a result run s).0 ≡ ok tt
    h' = ap (λ (r : Reply). r.0) (sym (complete_at w a result run s at)) ∙ h

    held : holds_lease run a ≡ true
    held = complete_run-holds w a result run s h'

run_id_nonempty : (w : World) (s : MemoryStorage) → (new_id w "run" s == "") ≡ false
run_id_nonempty w s = elim (Bool-cases (new_id w "run" s == "")) [
  | inr e ↦ e
  | inl e ↦ absurd (
      cons-ne-nil "r" _ (
        sym (cons-append "r" "un" (concat "_" (w.random s.draws)))
        ∙ (eq_iff (new_id w "run" s) "").0 e))
]

-- The run ID that the index holds for a request's scope.
abbrev indexed : Request → MemoryStorage → String
indexed request s = lookup_or "" (idempotency_scope request) s.by_idempotency

module _ (w : World) (request : Request) (s : MemoryStorage) where
  submit_hit :
      (indexed request s == "") ≡ false
      → submit w request s ≡ (ok (lookup (indexed request s) s.runs), s)
  unfolding submit
  submit_hit e = rw e

  submit_miss :
      (indexed request s == "") ≡ true
      → submit w request s ≡ (ok (some (create_run w request s).0), (create_run w request s).1)
  unfolding submit
  submit_miss e = rw e

  -- The new run is stored, and the index holds it.
  created_index : indexed request (create_run w request s).1 ≡ (create_run w request s).0.id
  unfolding create_run append_event lookup_or
  created_index = rw (lookup-insert_self, lookup_or)

  created_run :
      lookup (create_run w request s).0.id (create_run w request s).1.runs
      ≡ some (create_run w request s).0
  unfolding create_run append_event
  created_run = lookup-insert_self _ _ s.runs

  created_id : ((create_run w request s).0.id == "") ≡ false
  unfolding create_run
  created_id = run_id_nonempty w (tick w s)

-- With a run in the index under the scope of `again`, a submission gives that run.
submit-indexed :
    (w : World) (again : Request) (s : MemoryStorage) (id : String)
    → indexed again s ≡ id
    → (id == "") ≡ false
    → submit w again s ≡ (ok (lookup id s.runs), s)
submit-indexed w again s id e nonempty =
    submit_hit w again s (rw e nonempty)
    ∙ ap
        (λ (k : String).
          let r : Result (Option Run) × MemoryStorage = (ok (lookup k s.runs), s) in r)
        e

-- Submitting again under the same tenant, project and idempotency key, whatever else the second
-- request holds, gives the run that the first submission gave and changes nothing.
pub submit_again :
    (w : World) (request again : Request) (s : MemoryStorage)
    → again.tenant_id ≡ request.tenant_id
    → again.project_id ≡ request.project_id
    → again.idempotency_key ≡ request.idempotency_key
    → let first = submit w request s in submit w again first.1 ≡ first
submit_again w request again s tenant project key = elim (Bool-cases (indexed request s == "")) [
  | inr e ↦
      subst (λ (r : Result (Option Run) × MemoryStorage). submit w again r.1 ≡ r)
        (sym (submit_hit w request s e)) (submit-indexed w again s (indexed request s) (scope s) e)
  | inl e ↦
      let c = create_run w request s in
      subst (λ (r : Result (Option Run) × MemoryStorage). submit w again r.1 ≡ r)
        (sym (submit_miss w request s e))
        (submit-indexed w again c.1 c.0.id (scope c.1 ∙ created_index w request s)
            (created_id w request s)
          ∙ ap (λ (o : Option Run). let r : Result (Option Run) × MemoryStorage = (ok o, c.1) in r)
              (created_run w request s))
]
  where
    scope : (s' : MemoryStorage) → indexed again s' ≡ indexed request s'
    scope s' = rw (tenant, project, key) refl
