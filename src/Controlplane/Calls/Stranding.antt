-- ===== src/Controlplane/Calls/Stranding.antt =====
-- A cancellation that is never finished: a node's report that comes after its lease ran out sends
-- the leased attempt of a cancelling run back to the queue (controlplane/memory.go, authorize and
-- requeueExpired), and nothing takes the run from there.
use realy.Common.{
  inr, inl, Option-cases, ap, ◌≡◌, ◌≢◌, refl, ◌∙◌, true, some, List, ◌∷◌, eq_iff, ℤ, arith,
}
use realy.Common.Maps.{lookup, insert, lookup-insert_self}
use realy.Types.{Time, Run, RunStatus, AttemptStatus}
use realy.Controlplane.Types.{Assignment, invalid_lease, World, err}
use realy.Controlplane.State.{MemoryStorage, now, tick, append_event}
use realy.Controlplane.Runs.{
  refuse_expired, test_lease, past, requeued, requeue_expired, authorize, authorize_run,
}
use realy.Controlplane.Lifecycle.Invariant.{Inv, Steps-Inv}
use realy.Controlplane.Lifecycle.Moving.{release_node_runs}
use realy.Controlplane.Lifecycle.Authorizing.{authorize_found}
use realy.Controlplane.Lifecycle.Reporting.{renew-Steps}
use realy.Controlplane.Reports.{renew}
use realy.Controlplane.Calls.{Call, perform, perform_all}
use realy.Controlplane.Calls.History.{AllDrawFresh, history_stranded}

-- A cancelling run whose leased attempt `a` names, and whose lease is past at both readings of the
-- clock that `authorize` makes.
pub record IsOverdue (w : World) (a : Assignment) (run : Run) (s : MemoryStorage) : Type 0 where
  pub at : lookup a.run_id s.runs ≡ some run
  pub cancelling : run.status ≡ RunStatus.cancelling
  pub leased : run.attempt.status ≡ AttemptStatus.leased
  pub attempt : run.attempt.id ≡ a.attempt_id
  pub token : run.attempt.lease_token ≡ a.lease_token
  pub nonempty : a.lease_token ≢ ""
  pub late : past run.attempt.lease_expires_at (now w s) ≡ true
  pub later : past run.attempt.lease_expires_at (now w (tick w s)) ≡ true

requeue_expired_runs :
    (w : World) (run : Run) (t : Time) (s : MemoryStorage)
    → run.attempt.status ≡ AttemptStatus.leased
    → past run.attempt.lease_expires_at t ≡ true
    → (requeue_expired w run t s).1.runs ≡ insert run.id (requeued run) s.runs
unfolding requeue_expired append_event
requeue_expired_runs w run t s h p = ground (arith, release_node_runs run.attempt.node_id s)

module _ (w : World) (a : Assignment) (run : Run) (s : MemoryStorage)
    (o : IsOverdue w a run s) where
  overdue_test : test_lease w run.attempt.lease_expires_at s ≡ tick w s
  overdue_test = elim (Option-cases run.attempt.lease_expires_at) [
    | inl e ↦ ground (arith, rw e at o.later)
    | inr (expires, e) ↦ rw e refl
  ]

  overdue_authorize :
      authorize w a.run_id a.attempt_id a.lease_token s
      ≡ (err invalid_lease, (requeue_expired w run (now w (tick w s)) (tick w (tick w s))).1)
  unfolding authorize_run
  overdue_authorize =
      authorize_found w a.run_id a.attempt_id a.lease_token s run o.at
      ∙ (refused ∙ ap (refuse_expired w run) overdue_test)
    where
      refused :
          authorize_run w run a.attempt_id a.lease_token s
          ≡ refuse_expired w run (test_lease w run.attempt.lease_expires_at s)
      refused = ground (
        arith,
        eq_iff run.attempt.id a.attempt_id,
        eq_iff a.lease_token "",
        eq_iff run.attempt.lease_token a.lease_token,
      )

  overdue_renew :
      (ttl : ℤ) → run.id ≡ a.run_id → lookup a.run_id (renew w a ttl s).1.runs ≡ some (requeued run)
  unfolding renew
  overdue_renew ttl key = rw overdue_authorize (
      rw (requeue_expired_runs w run (now w (tick w s)) (tick w (tick w s)) o.leased o.later)
        (rw (← key) (lookup-insert_self run.id (requeued run) s.runs)))

-- From a state with the invariant: once a node renews a lease that has run out, on a cancelling run
-- whose attempt is still leased, that run stays cancelling, with its attempt queued, whatever calls
-- follow (if their drawn run IDs name no stored run). No Claim, Reconcile or cancellation ends it.
pub overdue_renew_strands :
    (w : World) (a : Assignment) (ttl : ℤ) (run : Run) (calls : List Call) (s : MemoryStorage)
    → Inv s
    → IsOverdue w a run s
    → AllDrawFresh w calls (perform w (Call.renew a ttl) s)
    → lookup a.run_id (perform_all w (Call.renew a ttl ∷ calls) s).runs ≡ some (requeued run)
unfolding perform perform_all
overdue_renew_strands w a ttl run calls s inv o f =
    history_stranded w calls (renew w a ttl s).1 a.run_id (requeued run)
      (Steps-Inv (renew-Steps w a s inv ttl) inv) f
      (overdue_renew w a run s o ttl (inv.keyed a.run_id run o.at)) o.cancelling refl
