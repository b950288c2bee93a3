-- ===== src/Controlplane/Lifecycle/Authorizing.antt =====
-- controlplane/memory.go `authorize`: what a node's report may rely on, and what a refusal changes.
use realy.Common.{
  Option, ◌≡◌, ◌≢◌, inl, inr, refl, sym, ap, ◌∙◌, subst, String, not, ◌||◌, none, some, ◌==◌,
  eq_iff, arith, Bool-cases, Option-cases,
}
use realy.Common.Maps.{lookup}
use realy.Types.{Run}
use realy.Controlplane.Types.{not_found, World, Result, ok, err}
use realy.Controlplane.State.{MemoryStorage, now, tick}
use realy.Controlplane.Runs.{test_lease, refuse_expired, missing_or_past, authorize, authorize_run}
use realy.Controlplane.Lifecycle.{Time, Quiet, Steps, stay}
use realy.Controlplane.Lifecycle.Invariant.{Inv, Steps-append}
use realy.Controlplane.Lifecycle.Moving.{Quiet-trans}
use realy.Controlplane.Lifecycle.Changes.{requeue_expired-Follows, Quiet-step, tick-Quiet}

-- What `authorize` gives: the run of that ID, with the attempt and the lease named and not run out.
pub record Authorized (run_id attempt_id lease : String) (run : Run) (s s' : MemoryStorage)
    : Type 0 where
  pub at : lookup run_id s.runs ≡ some run
  pub attempt : run.attempt.id ≡ attempt_id
  pub token : run.attempt.lease_token ≡ lease
  pub nonempty : lease ≢ ""
  pub same : s'.runs ≡ s.runs

-- A refused authorization is a step, if any: a lease that ran out is queued again.
abbrev pub AuthorizeCases :
    String → String → String → MemoryStorage → Result Run × MemoryStorage → Type 0
AuthorizeCases run_id attempt_id lease s (ok run, s') =
    Authorized run_id attempt_id lease run s s' × Quiet s s'
AuthorizeCases run_id attempt_id lease s (err e, s') = Steps s s'

module _ (w : World) (s : MemoryStorage) where
  -- The clock is read at most twice, and the attempt may be queued again.
  refuse_expired-Steps :
      (run : Run) (expires : Option Time)
      → lookup run.id s.runs ≡ some run
      → Steps s (refuse_expired w run (test_lease w expires s)).1
  refuse_expired-Steps run none at =
      Steps-append (Quiet-step (tick-Quiet w s))
        (requeue_expired-Follows w run (now w s) (tick w s) at).0
  refuse_expired-Steps run (some expires) at =
      Steps-append
        (Quiet-step
          (Quiet-trans s (tick w s) (tick w (tick w s)) (tick-Quiet w s) (tick-Quiet w (tick w s))))
        (requeue_expired-Follows w run (now w (tick w s)) (tick w (tick w s)) at).0

module _ (w : World) (run_id attempt_id lease : String) (s : MemoryStorage) where
  authorize_run-cases :
      (run : Run)
      → lookup run_id s.runs ≡ some run
      → run.id ≡ run_id
      → AuthorizeCases run_id attempt_id lease s (authorize_run w run attempt_id lease s)
  unfolding authorize_run
  authorize_run-cases run at key =
      elim (Bool-cases (
        not (run.attempt.id == attempt_id)
        || lease == ""
        || not (run.attempt.lease_token == lease))) [
          | inl e ↦ rw (e, AuthorizeCases) stay
          | inr e ↦ elim (Bool-cases (missing_or_past run.attempt.lease_expires_at (now w s))) [
            | inl p ↦
                rw (e, p)
                  (refuse_expired-Steps w s run run.attempt.lease_expires_at
                    (ap (λ (k : String). lookup k s.runs) key ∙ at))
            | inr p ↦
                rw (e, p)
                  (
                    record {
                      at = at;
                      attempt = ground (arith, eq_iff run.attempt.id attempt_id);
                      token = ground (arith, eq_iff run.attempt.lease_token lease);
                      nonempty = ground (arith, eq_iff lease "");
                      same = refl;
                    },
                    tick-Quiet w s,
                  )
          ]
        ]

  authorize_missing :
      lookup run_id s.runs ≡ none → authorize w run_id attempt_id lease s ≡ (err not_found, s)
  unfolding authorize
  authorize_missing e = rw (e, authorize)

  pub authorize_found :
      (run : Run)
      → lookup run_id s.runs ≡ some run
      → authorize w run_id attempt_id lease s ≡ authorize_run w run attempt_id lease s
  unfolding authorize
  authorize_found run e = rw (e, authorize)

  pub authorize-cases :
      Inv s → AuthorizeCases run_id attempt_id lease s (authorize w run_id attempt_id lease s)
  authorize-cases inv = elim (Option-cases (lookup run_id s.runs)) [
    | inl e ↦ subst (AuthorizeCases run_id attempt_id lease s) (sym (authorize_missing e)) stay
    | inr (run, e) ↦
        subst (AuthorizeCases run_id attempt_id lease s) (sym (authorize_found run e))
          (authorize_run-cases run e (inv.keyed run_id run e))
  ]
