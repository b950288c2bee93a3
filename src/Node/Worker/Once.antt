-- ===== src/Node/Worker/Once.antt =====
-- node/worker.go: RunOnce, from the claim to the last report.
use realy.Common.{
  ℕ, String, Bool, true, false, ◌||◌, Option, none, some, List, [], ◌∷◌, ◌++◌, ◌==◌, if◌then◌else◌,
  ◌⊎◌, inl, inr,
}
use realy.Types.{
  Time, Request, InstructionBundle, CompiledInstructions, RunResult, Artifact, WorkspaceSpec,
}
use realy.Controlplane.Types.{Assignment, Error, other, Result, ok, err, World}
use realy.Node.Plane.{ControlPlane}
use realy.Node.Delivery.{retry_final_report}
use realy.Node.Outbox.{Disk}
use realy.Node.Outbox.Recovery.{is_run_cancelled}
use realy.Node.Lease.{LeaseEnd, Tick, keep_lease}
use realy.Node.Worker.{
  Work, Ran, failed, cancelled, succeeded, Worker, Execution, listed, is_cancelled_error,
  is_cancelled_end, lease_errors, is_acknowledged, joined_text, act_all,
}

abbrev pub is_nonempty : {A : Type 0} → List A → Bool
is_nonempty [] = false
is_nonempty (_ ∷ _) = true

-- The runtime instructions tell of the granted capabilities.
abbrev pub instructions_for : Worker → Request → InstructionBundle
instructions_for worker request =
    let bundle = request.instructions in
    if is_nonempty request.capabilities
    then record bundle {
      runtime = bundle.runtime ++ worker.tool_instruction request.capabilities ∷ [];
    }
    else bundle

module _ {S : Type 0} (w : World) (plane : ControlPlane S) (took : ℕ → ℕ) (worker : Worker) where
  -- A report before the execution, whose answer is dropped.
  abbrev pub fail_early : Assignment → String → S → Ran × S
  fail_early a cause s = (failed (other cause ∷ []), (plane.fail a cause s).1)

  -- The renewals that are left, and how the keeper has ended by then.
  abbrev pub close_keeper : LeaseEnd ⊎ Time → Assignment → List Tick → S → (LeaseEnd ⊎ Time) × S
  close_keeper (inl end) a ticks s = (inl end, s)
  close_keeper (inr deadline) a ticks s = keep_lease plane a ticks deadline s

  abbrev pub acknowledge : Assignment → List Error → Option Error × S → Ran × S
  acknowledge a causes (e, s) =
      if is_acknowledged e then (cancelled a, s) else (failed (causes ++ listed e), s)

  -- What failRun makes of its report's answer and of the keeper.
  abbrev pub after_fail : Assignment → List Error → Option Error → (LeaseEnd ⊎ Time) × S → Ran × S
  after_fail a causes reported (lease, s) =
      let all = causes ++ (listed reported ++ lease_errors lease) in
      if is_cancelled_error reported || is_cancelled_end lease
      then acknowledge a all (plane.acknowledge_cancellation a s)
      else elim reported [ none ↦ (failed causes, s) | some e ↦ (failed all, s) ]

  abbrev pub report_fail : Assignment → List Error → ℕ → S → (Option Error × ℕ) × S
  report_fail a causes n s =
      let (answer, s') = plane.fail a (joined_text worker.error_text causes) s in
      ((answer, took n), s')

  unfoldable pub fail_run : Assignment → List Error → List Tick → LeaseEnd ⊎ Time → S → Ran × S
  fail_run a causes closing keeper s =
      let (reported, s') = retry_final_report (report_fail a causes) s in
      after_fail a causes reported (close_keeper keeper a closing s')

  -- The artifacts with a path are uploaded in their order; the first error ends the loop.
  abbrev pub after_upload :
      List Artifact
      → Result Artifact × S
      → (S → (Option Error × List Artifact) × S)
      → (Option Error × List Artifact) × S
  after_upload rest (err e, s) next = ((some e, rest), s)
  after_upload rest (ok artifact, s) next =
      let ((e, uploaded), s') = next s in ((e, artifact ∷ uploaded), s')

  abbrev pub upload_bytes :
      Assignment
      → Artifact
      → List Artifact
      → String ⊎ String
      → S
      → (S → (Option Error × List Artifact) × S)
      → (Option Error × List Artifact) × S
  upload_bytes a artifact rest (inl cause) s next = ((some (other cause), rest), s)
  upload_bytes a artifact rest (inr bytes) s next =
      after_upload rest (plane.upload_artifact a artifact bytes s) next

  unfoldable pub upload_all : Assignment → List Artifact → S → (Option Error × List Artifact) × S
  upload_all a [] s = ((none, []), s)
  upload_all a (artifact ∷ rest) s =
      let ((e, skipped), s') = upload_all a rest s in
      if artifact.ref == ""
      then ((e, artifact ∷ skipped), s')
      else upload_bytes a artifact rest (worker.open_file artifact.ref) s
          (λ s''. upload_all a rest s'')

  abbrev pub report_complete : Assignment → RunResult → ℕ → S → (Option Error × ℕ) × S
  report_complete a result n s =
      let (answer, s') = plane.complete a result s in ((answer, took n), s')

  abbrev pub after_complete :
      Assignment → RunResult → Option Error → (LeaseEnd ⊎ Time) × S → Ran × S
  after_complete a result reported (lease, s) =
      let all = listed reported ++ lease_errors lease in
      if is_cancelled_error reported || is_cancelled_end lease
      then acknowledge a all (plane.acknowledge_cancellation a s)
      else elim reported [ none ↦ (succeeded a result, s) | some e ↦ (failed all, s) ]

  unfoldable pub complete_run : Assignment → RunResult → List Tick → LeaseEnd ⊎ Time → S → Ran × S
  complete_run a result closing keeper s =
      let (reported, s') = retry_final_report (report_complete a result) s in
      after_complete a result reported (close_keeper keeper a closing s')

  abbrev pub after_artifacts :
      Assignment
      → RunResult
      → List Tick
      → LeaseEnd ⊎ Time
      → (Option Error × List Artifact) × S
      → Ran × S
  after_artifacts a result closing keeper ((some e, artifacts), s) =
      fail_run a (e ∷ []) closing keeper s
  after_artifacts a result closing keeper ((none, artifacts), s) =
      complete_run a (record result { artifacts = artifacts }) closing keeper s

  -- The executor's error and the event's are joined.
  abbrev pub after_execution : Assignment → String ⊎ RunResult → List Tick → Execution S → Ran × S
  after_execution a (inl cause) closing x =
      fail_run a (other cause ∷ listed x.event_error) closing x.keeper x.plane_state
  after_execution a (inr result) closing x = elim x.event_error [
    | some e ↦ fail_run a (e ∷ []) closing x.keeper x.plane_state
    | none ↦ after_artifacts a result closing x.keeper (upload_all a result.artifacts x.plane_state)
  ]

  unfoldable pub execute_work : Assignment → Work → Disk → S → Ran × S
  execute_work a work disk s = after_execution a work.outcome work.closing (
      act_all w plane took worker a work.acts (record {
        plane_state = s;
        disk = disk;
        event_error = none;
        sequence = 0;
        keeper = inr a.lease_expires_at;
      }))

  abbrev pub start_refused : Assignment → Error → Option Error × S → S → Ran × S
  start_refused a e (acknowledged, s') s =
      if is_run_cancelled e
      then elim acknowledged [ none ↦ (cancelled a, s') | some f ↦ (failed (f ∷ []), s') ]
      else (failed (e ∷ []), s)

  abbrev pub after_start : Assignment → Work → Disk → Option Error × S → Ran × S
  after_start a work disk (some e, s) = start_refused a e (plane.acknowledge_cancellation a s) s
  after_start a work disk (none, s) = execute_work a work disk s

  abbrev pub run_compiled :
      Assignment
      → (Assignment → CompiledInstructions → Work)
      → String ⊎ CompiledInstructions
      → Disk
      → S
      → Ran × S
  run_compiled a executor (inl cause) disk s = fail_early a cause s
  run_compiled a executor (inr compiled) disk s =
      after_start a (executor a compiled) disk (plane.start a s)

  abbrev pub prepared :
      Assignment → (Assignment → CompiledInstructions → Work) → Option String → Disk → S → Ran × S
  prepared a executor (some cause) disk s = fail_early a cause s
  prepared a executor none disk s =
      run_compiled a executor (worker.compile a.request.input (instructions_for worker a.request))
        disk s

  abbrev pub prepare_by :
      Assignment
      → (Assignment → CompiledInstructions → Work)
      → Option (String → String → WorkspaceSpec → Option String)
      → Disk
      → S
      → Ran × S
  prepare_by a executor none disk s =
      fail_early a "workspace requested but no workspace provider is configured" s
  prepare_by a executor (some prepare) disk s =
      prepared a executor (prepare a.run_id a.attempt_id a.request.workspace) disk s

  abbrev pub run_resolved :
      Assignment → Option (Assignment → CompiledInstructions → Work) → Disk → S → Ran × S
  run_resolved a none disk s = fail_early a (worker.unavailable a.request.runtime.provider) s
  run_resolved a (some executor) disk s =
      if a.request.workspace.kind == ""
      then prepared a executor none disk s
      else prepare_by a executor worker.prepare disk s

  abbrev pub after_claim : Result Assignment × S → Disk → Ran × S
  after_claim (err e, s) disk = (failed (e ∷ []), s)
  after_claim (ok a, s) disk = run_resolved a (worker.resolve a.request.runtime.provider) disk s

  unfoldable pub run_once : Disk → S → Ran × S
  run_once disk s = after_claim (plane.claim worker.node_id s) disk
