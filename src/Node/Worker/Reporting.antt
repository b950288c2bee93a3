-- ===== src/Node/Worker/Reporting.antt =====
-- node/worker.go: how an execution ends once it has started, against any control plane.
use realy.Common.{
  ℕ, String, true, ◌||◌, Option, none, some, List, [], ◌∷◌, ◌++◌, ◌≡◌, refl, sym, subst, ap, ◌∙◌,
  arith, Bool-cases, Option-cases, ◌⊎◌, inl, inr, leb,
}
use realy.Types.{Time, RunResult, Artifact}
use realy.Controlplane.Types.{Assignment, Error, World}
use realy.Node.Plane.{ControlPlane}
use realy.Node.Delivery.{error_of, retry_final_report}
use realy.Node.Retrying.{retry_ends, accepted_report}
use realy.Node.Outbox.{Disk}
use realy.Node.Outbox.Recovery.{is_run_cancelled}
use realy.Node.Lease.{LeaseEnd, Tick, keep_round, keep_on, keep_lease}
use realy.Node.Worker.{
  Work, Ran, failed, cancelled, succeeded, Worker, Execution, is_cancelled_end, lease_errors,
  is_acknowledged,
}
use realy.Node.Worker.Once.{
  is_nonempty, close_keeper, acknowledge, after_fail, fail_run, report_fail, report_complete,
  after_complete, complete_run, after_artifacts, after_execution, execute_work, upload_all,
}

nonempty_append :
    (first second : List Error) → is_nonempty first ≡ true → is_nonempty (first ++ second) ≡ true
nonempty_append [] second h = ground (arith, h)
nonempty_append (_ ∷ _) second h = refl

nonempty_last : (first : List Error) (e : Error) → is_nonempty (first ++ e ∷ []) ≡ true
nonempty_last [] e = refl
nonempty_last (_ ∷ _) e = refl

module _ {S : Type 0} (plane : ControlPlane S) (a : Assignment) where
  -- Any number of renewals, from a state to another.
  pub data Renewals : S → S → Type 0 where
    stop : {s : S} → Renewals s s
    renew : {s s' : S} → Renewals (plane.renew a s).1 s' → Renewals s s'

  -- A state after an acknowledged cancellation, and one after an accepted completion.
  pub record IsAcknowledged (s' : S) : Type 0 where
    pub before : S
    pub answer : is_acknowledged (plane.acknowledge_cancellation a before).0 ≡ true
    pub after : s' ≡ (plane.acknowledge_cancellation a before).1

  pub record IsCompleted (result : RunResult) (s' : S) : Type 0 where
    pub before : S
    pub accepted : (plane.complete a result before).0 ≡ none
    pub after : Renewals (plane.complete a result before).1 s'

  keep_round_state :
      (tick : Tick) (deadline : Time) (s : S)
      → ((keep_round plane a tick deadline s).1 ≡ s)
        ⊎ ((keep_round plane a tick deadline s).1 ≡ (plane.renew a s).1)
  unfolding keep_round
  keep_round_state tick deadline s = elim (Bool-cases (leb deadline tick.woken)) [
    | inl e ↦ inl (rw e refl)
    | inr e ↦ elim (Bool-cases tick.stopped) [
      | inl f ↦ inl (rw e (rw f refl))
      | inr f ↦ inr (rw e (rw f refl))
    ]
  ]

  keep_round-Renewals :
      (tick : Tick) (deadline : Time) (s s' : S)
      → Renewals (keep_round plane a tick deadline s).1 s'
      → Renewals s s'
  keep_round-Renewals tick deadline s s' h = elim (keep_round_state tick deadline s) [
    | inl e ↦ subst (λ x. Renewals x s') e h
    | inr e ↦ Renewals.renew (subst (λ x. Renewals x s') e h)
  ]

  keep_on-Renewals :
      (r : (LeaseEnd ⊎ Time) × S) (next : Time → S → (LeaseEnd ⊎ Time) × S)
      → ((deadline : Time) (s : S) → Renewals s (next deadline s).1)
      → Renewals r.1 (keep_on plane a r next).1
  keep_on-Renewals (inl end, s) next h = Renewals.stop
  keep_on-Renewals (inr deadline, s) next h = h deadline s

  pub keep_lease-Renewals :
      (ticks : List Tick) (deadline : Time) (s : S)
      → Renewals s (keep_lease plane a ticks deadline s).1
  unfolding keep_lease
  keep_lease-Renewals [] deadline s = Renewals.stop
  keep_lease-Renewals (tick ∷ ticks) deadline s = keep_round-Renewals tick deadline s _ (
      keep_on-Renewals (keep_round plane a tick deadline s)
        (λ deadline' s'. keep_lease plane a ticks deadline' s') (keep_lease-Renewals ticks))

  -- How a run may end once it has started.
  unfoldable pub IsEnding : (RunResult → Type 0) → Ran → S → Type 0
  IsEnding P (failed causes) s' = is_nonempty causes ≡ true
  IsEnding P (cancelled b) s' = (b ≡ a) × IsAcknowledged s'
  IsEnding P (succeeded b result) s' = (b ≡ a) × P result × IsCompleted result s'

module _ {S : Type 0} (w : World) (plane : ControlPlane S) (took : ℕ → ℕ) (worker : Worker)
    (a : Assignment) where
  close_keeper-Renewals :
      (keeper : LeaseEnd ⊎ Time) (ticks : List Tick) (s : S)
      → Renewals plane a s (close_keeper w plane took worker keeper a ticks s).1
  close_keeper-Renewals (inl end) ticks s = Renewals.stop
  close_keeper-Renewals (inr deadline) ticks s = keep_lease-Renewals plane a ticks deadline s

  completed_report :
      (result : RunResult) (s : S)
      → let r = retry_final_report (report_complete w plane took worker a result) s in
        r.0 ≡ none
        → (t : S) × ((plane.complete a result t).0 ≡ none) × (r.1 ≡ (plane.complete a result t).1)
  unfolding retry_final_report
  completed_report result s h =
      let report = report_complete w plane took worker a result in
      let (v, s', e, tries) = retry_ends 10000 report s in
      let (m, t, accepted, after) =
        accepted_report 10000 report 0 100 0 s s' v tries (sym (ap (λ r. error_of r.0) e) ∙ h) in
      (t, accepted, ap (λ r. r.1) e ∙ after)

module _ {S : Type 0} (w : World) (plane : ControlPlane S) (took : ℕ → ℕ) (worker : Worker)
    (a : Assignment) (P : RunResult → Type 0) where
  acknowledge-IsEnding :
      (causes : List Error) (s : S)
      → let r = acknowledge w plane took worker a causes (plane.acknowledge_cancellation a s) in
        IsEnding plane a P r.0 r.1
  unfolding IsEnding
  acknowledge-IsEnding causes s = go (plane.acknowledge_cancellation a s) refl
    where
      go :
          (answer : Option Error × S)
          → plane.acknowledge_cancellation a s ≡ answer
          → IsEnding plane a P
              (acknowledge w plane took worker a causes answer).0
              (acknowledge w plane took worker a causes answer).1
      go (none, s') e = (refl, record { before = s; answer = rw e refl; after = rw e refl })
      go (some f, s') e = elim (Bool-cases (is_acknowledged (some f))) [
        | inl y ↦ rw y (refl, record { before = s; answer = rw e y; after = rw e refl })
        | inr y ↦ rw y (nonempty_last causes f)
      ]

  after_fail-IsEnding :
      (causes : List Error) (reported : Option Error) (lease : (LeaseEnd ⊎ Time) × S)
      → is_nonempty causes ≡ true
      → let r = after_fail w plane took worker a causes reported lease in IsEnding plane a P r.0 r.1
  unfolding IsEnding
  after_fail-IsEnding causes none (lease, s) h = elim (Bool-cases (is_cancelled_end lease)) [
    | inl e ↦ rw e (acknowledge-IsEnding (causes ++ lease_errors lease) s)
    | inr e ↦ rw e h
  ]
  after_fail-IsEnding causes (some f) (lease, s) h =
      elim (Bool-cases (is_run_cancelled f || is_cancelled_end lease)) [
        | inl e ↦ rw e (acknowledge-IsEnding (causes ++ f ∷ lease_errors lease) s)
        | inr e ↦ rw e (nonempty_append causes (f ∷ lease_errors lease) h)
      ]

  fail_run-IsEnding :
      (causes : List Error) (closing : List Tick) (keeper : LeaseEnd ⊎ Time) (s : S)
      → is_nonempty causes ≡ true
      → let r = fail_run w plane took worker a causes closing keeper s in IsEnding plane a P r.0 r.1
  unfolding fail_run
  fail_run-IsEnding causes closing keeper s h =
      after_fail-IsEnding causes (retry_final_report (report_fail w plane took worker a causes) s).0
        (close_keeper w plane took worker keeper a closing
          (retry_final_report (report_fail w plane took worker a causes) s).1)
        h

  after_complete-IsEnding :
      (result : RunResult) (reported : Option Error) (lease : (LeaseEnd ⊎ Time) × S)
      → P result
      → (reported ≡ none → IsCompleted plane a result lease.1)
      → let r = after_complete w plane took worker a result reported lease in
        IsEnding plane a P r.0 r.1
  unfolding IsEnding
  after_complete-IsEnding result none (lease, s) given h =
      elim (Bool-cases (is_cancelled_end lease)) [
        | inl e ↦ rw e (acknowledge-IsEnding (lease_errors lease) s)
        | inr e ↦ rw e (refl, given, h refl)
      ]
  after_complete-IsEnding result (some f) (lease, s) given h =
      elim (Bool-cases (is_run_cancelled f || is_cancelled_end lease)) [
        | inl e ↦ rw e (acknowledge-IsEnding (f ∷ lease_errors lease) s)
        | inr e ↦ rw e refl
      ]

  complete_run-IsEnding :
      (result : RunResult) (closing : List Tick) (keeper : LeaseEnd ⊎ Time) (s : S)
      → P result
      → let r = complete_run w plane took worker a result closing keeper s in
        IsEnding plane a P r.0 r.1
  unfolding complete_run
  complete_run-IsEnding result closing keeper s given =
      let r = retry_final_report (report_complete w plane took worker a result) s in
      after_complete-IsEnding result r.0 (close_keeper w plane took worker keeper a closing r.1)
        given
        (λ e.
          let (t, accepted, after) = completed_report w plane took worker a result s e in
          record {
            before = t;
            accepted = accepted;
            after =
                subst
                  (λ x.
                    Renewals plane a x (close_keeper w plane took worker keeper a closing r.1).1)
                  after (close_keeper-Renewals w plane took worker a keeper closing r.1);
          })

  after_artifacts-IsEnding :
      (result : RunResult) (closing : List Tick) (keeper : LeaseEnd ⊎ Time)
      (uploaded : (Option Error × List Artifact) × S)
      → ((artifacts : List Artifact) → P (record result { artifacts = artifacts }))
      → let r = after_artifacts w plane took worker a result closing keeper uploaded in
        IsEnding plane a P r.0 r.1
  after_artifacts-IsEnding result closing keeper ((some e, artifacts), s) given =
      fail_run-IsEnding (e ∷ []) closing keeper s refl
  after_artifacts-IsEnding result closing keeper ((none, artifacts), s) given =
      complete_run-IsEnding (record result { artifacts = artifacts }) closing keeper s
        (given artifacts)

  after_execution-IsEnding :
      (outcome : String ⊎ RunResult) (closing : List Tick) (x : Execution S)
      → ((result : RunResult) (artifacts : List Artifact)
          → outcome ≡ inr result
          → P (record result { artifacts = artifacts }))
      → let r = after_execution w plane took worker a outcome closing x in
        IsEnding plane a P r.0 r.1
  after_execution-IsEnding (inl cause) closing x given =
      fail_run-IsEnding _ closing x.keeper x.plane_state refl
  after_execution-IsEnding (inr result) closing x given = elim (Option-cases x.event_error) [
    | inr (e, h) ↦ rw h (fail_run-IsEnding (e ∷ []) closing x.keeper x.plane_state refl)
    | inl h ↦ rw h (
        after_artifacts-IsEnding result closing x.keeper
          (upload_all w plane took worker a result.artifacts x.plane_state)
          (λ artifacts. given result artifacts refl))
  ]

  pub execute_work-IsEnding :
      (work : Work) (disk : Disk) (s : S)
      → ((result : RunResult) (artifacts : List Artifact)
          → work.outcome ≡ inr result
          → P (record result { artifacts = artifacts }))
      → let r = execute_work w plane took worker a work disk s in IsEnding plane a P r.0 r.1
  unfolding execute_work
  execute_work-IsEnding work disk s given =
      after_execution-IsEnding work.outcome work.closing _ given
