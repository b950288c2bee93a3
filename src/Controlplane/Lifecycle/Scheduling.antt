-- ===== src/Controlplane/Lifecycle/Scheduling.antt =====
-- controlplane/memory.go: RegisterNode, Heartbeat, Submit and Claim are steps of the runs' lives.
use realy.Common.{
  ◌≡◌, inl, inr, refl, ap, ◌∙◌, String, not, ◌||◌, ◌&&◌, Option, none, some, List, [], ◌∷◌, ◌==◌,
  eq_iff, is_some, arith, Bool-cases, Option-cases,
}
use realy.Common.Maps.{lookup, lookup_or, insert, lookup-insert}
use realy.Types.{Time, Run, RunStatus, AttemptStatus, is_status, in_state, Request}
use realy.Controlplane.Types.{NodeRegistration, Node, World}
use realy.Controlplane.State.{MemoryStorage, tick, new_id}
use realy.Controlplane.Runs.{past}
use realy.Controlplane.Lifecycle.{active_of, Quiet, Steps, quiet, add, stay, more}
use realy.Controlplane.Lifecycle.Invariant.{Inv, IsCoherent, Steps-append, Steps-Inv}
use realy.Controlplane.Lifecycle.Moving.{append_event-Quiet, Logged-refl}
use realy.Controlplane.Lifecycle.Changes.{
  IsStored, Follows, requeue_expired-Follows, finalize-Follows, cancel_run_locked-Follows,
  Quiet-step,
}
use realy.Controlplane.Submission.{
  register_node, heartbeat, submit, create_run, store_request, idempotency_scope,
}
use realy.Controlplane.Claiming.{timeout_request, sweep_timeout, sweep_lease, sweep_run, sweep}

-- A write of a node with the count that was there.
node-Quiet :
    (s s' : MemoryStorage) (id : String) (node : Node)
    → s'.runs ≡ s.runs
    → s'.nodes ≡ insert id node s.nodes
    → s'.events ≡ s.events
    → node.active ≡ active_of id s.nodes
    → Quiet s s'
unfolding active_of
node-Quiet s s' id node r n e same = record {
  runs = r;
  nodes = λ m h. ground (arith, n, same, lookup-insert id m node s.nodes, eq_iff id m);
  log = Logged-refl s s' e;
}

pub register_node-Steps :
    (w : World) (registration : NodeRegistration) (s : MemoryStorage)
    → Steps s (register_node w registration s).1
unfolding register_node active_of
register_node-Steps w registration s = elim (Option-cases (lookup registration.id s.nodes)) [
  | inl e ↦
      rw (e, register_node)
        (Quiet-step (node-Quiet s _ registration.id _ refl refl refl (rw (e, active_of) refl)))
  | inr (node, e) ↦
      rw (e, register_node)
        (Quiet-step (node-Quiet s _ registration.id _ refl refl refl (rw (e, active_of) refl)))
]

pub heartbeat-Steps : (w : World) (id : String) (s : MemoryStorage) → Steps s (heartbeat w id s).1
unfolding heartbeat active_of
heartbeat-Steps w id s = elim (Option-cases (lookup id s.nodes)) [
  | inl e ↦ rw (e, heartbeat) stay
  | inr (node, e) ↦
      rw (e, heartbeat) (Quiet-step (node-Quiet s _ id _ refl refl refl (rw (e, active_of) refl)))
]

-- The run ID that the next submission draws names no stored run.
abbrev pub IsUnused : World → MemoryStorage → Type 0
IsUnused w s = lookup (new_id w "run" (tick w s)) s.runs ≡ none

create_run-Steps :
    (w : World) (request : Request) (s : MemoryStorage)
    → IsUnused w s
    → Steps s (create_run w request s).1
unfolding create_run
create_run-Steps w request s unused =
    let (run, s') = store_request w request s in
    more
      (more
        (more stay (
          add run unused (refl, refl, refl, refl, refl) refl (λ m h. refl) (Logged-refl s s' refl)))
        (quiet (append_event-Quiet w run "run.created" _ _)))
      (quiet (append_event-Quiet w run "attempt.queued" _ _))

pub submit-Steps :
    (w : World) (request : Request) (s : MemoryStorage)
    → IsUnused w s
    → Steps s (submit w request s).1
unfolding submit
submit-Steps w request s unused =
    elim (Bool-cases (not (lookup_or "" (idempotency_scope request) s.by_idempotency == ""))) [
      | inl e ↦ rw e stay
      | inr e ↦ rw e (create_run-Steps w request s unused)
    ]

module _ (w : World) (t : Time) where
  sweep_timeout-Follows :
      (run : Run) (s : MemoryStorage)
      → IsStored run s
      → IsCoherent run
      → Follows s (sweep_timeout w run t s)
  unfolding sweep_timeout
  sweep_timeout-Follows run s at c =
      elim (Bool-cases (past run.deadline_at t && not (is_some run.cancel_requested_at))) [
        | inl e ↦ rw e (cancel_run_locked-Follows w run timeout_request t s at c)
        | inr e ↦ rw e (stay, at)
      ]

  sweep_lease-Follows :
      (run : Run) (s : MemoryStorage) → IsStored run s → Follows s (sweep_lease w run t s)
  unfolding sweep_lease
  sweep_lease-Follows run s at =
      elim (Bool-cases (
        is_status run.status RunStatus.cancelling
        && ((in_state run.attempt.status AttemptStatus.leased
              || in_state run.attempt.status AttemptStatus.running)
            && past run.attempt.lease_expires_at t))) [
              | inl e ↦ rw e (finalize-Follows w run t s at (ground arith) (ground arith))
              | inr e ↦ rw e (requeue_expired-Follows w run t s at)
            ]

  sweep_run-Steps :
      (run : Run) (s : MemoryStorage)
      → IsStored run s
      → IsCoherent run
      → Steps s (sweep_run w run t s)
  unfolding sweep_run
  sweep_run-Steps run s at c =
      let first = sweep_timeout-Follows run s at c in
      Steps-append first.0
        (sweep_lease-Follows (sweep_timeout w run t s).0 (sweep_timeout w run t s).1 first.1).0

  sweep_at-Steps :
      (id : String) (s : MemoryStorage)
      → Inv s
      → Steps s (elim (lookup id s.runs) as (λ _. MemoryStorage) [
        | none ↦ s
        | some run ↦ sweep_run w run t s
      ])
  sweep_at-Steps id s inv = go (lookup id s.runs) refl
    where
      go :
          (o : Option Run)
          → lookup id s.runs ≡ o
          → Steps s (elim o as (λ _. MemoryStorage) [ none ↦ s | some run ↦ sweep_run w run t s ])
      go none e = stay
      go (some run) e =
          sweep_run-Steps run s (ap (λ (k : String). lookup k s.runs) (inv.keyed id run e) ∙ e)
            (inv.coherent id run e)

  pub sweep-Steps : (ids : List String) (s : MemoryStorage) → Inv s → Steps s (sweep w ids t s)
  unfolding sweep
  sweep-Steps [] s inv = stay
  sweep-Steps (id ∷ ids) s inv =
      let first = sweep_at-Steps id s inv in
      Steps-append first (sweep-Steps ids _ (Steps-Inv first inv))
