-- ===== src/Node/Worker/Outcomes.antt =====
-- node/worker.go: how RunOnce ends, against any control plane.
use realy.Common.{
  ℕ, String, true, Option, none, some, ◌==◌, ◌≡◌, refl, sym, subst, ap, ◌∙◌, Bool-cases, ◌⊎◌, inl,
  inr,
}
use realy.Types.{WorkspaceSpec, RunResult, CompiledInstructions}
use realy.Controlplane.Types.{Assignment, Error, Result, ok, err, World}
use realy.Node.Plane.{ControlPlane}
use realy.Node.Outbox.{Disk}
use realy.Node.Outbox.Recovery.{is_run_cancelled}
use realy.Node.Worker.{Work, Ran, failed, cancelled, succeeded, Worker}
use realy.Node.Worker.Once.{
  is_nonempty, instructions_for, start_refused, after_start, run_compiled, prepared, prepare_by,
  run_resolved, after_claim, run_once,
}
use realy.Node.Worker.Reporting.{IsEnding, IsAcknowledged, IsCompleted, execute_work-IsEnding}

module _ {S : Type 0} (w : World) (plane : ControlPlane S) (took : ℕ → ℕ) (worker : Worker) where
  -- The executor that the worker has for the run gave this result, but for the artifacts, which the
  -- control plane may have changed.
  pub record IsExecuted (a : Assignment) (result : RunResult) : Type 0 where
    pub executor : Assignment → CompiledInstructions → Work
    pub compiled : CompiledInstructions
    pub given : RunResult
    pub resolved : worker.resolve a.request.runtime.provider ≡ some executor
    pub instructed :
        worker.compile a.request.input (instructions_for worker a.request) ≡ inr compiled
    pub outcome : (executor a compiled).outcome ≡ inr given
    pub same : result ≡ record given { artifacts = result.artifacts }

  -- How RunOnce may end, from a state to the state after it.
  pub IsOutcome : S → Ran → S → Type 0
  IsOutcome s (failed causes) s' = is_nonempty causes ≡ true
  IsOutcome s (cancelled a) s' =
      ((plane.claim worker.node_id s).0 ≡ ok a) × IsAcknowledged plane a s'
  IsOutcome s (succeeded a result) s' =
      ((plane.claim worker.node_id s).0 ≡ ok a)
      × ((plane.start a (plane.claim worker.node_id s).1).0 ≡ none)
      × IsExecuted a result
      × IsCompleted plane a result s'

  IsEnding-IsOutcome :
      (s : S) (a : Assignment) (r : Ran) (s' : S)
      → (plane.claim worker.node_id s).0 ≡ ok a
      → (plane.start a (plane.claim worker.node_id s).1).0 ≡ none
      → IsEnding plane a (IsExecuted a) r s'
      → IsOutcome s r s'
  unfolding IsEnding IsOutcome
  IsEnding-IsOutcome s a (failed causes) s' claimed started h = h
  IsEnding-IsOutcome s a (cancelled b) s' claimed started (e, h) =
      (claimed ∙ ap ok (sym e), subst (λ x. IsAcknowledged plane x s') (sym e) h)
  IsEnding-IsOutcome s a (succeeded b result) s' claimed started (e, executed, h) = (
    claimed ∙ ap ok (sym e),
    subst (λ x. (plane.start x (plane.claim worker.node_id s).1).0 ≡ none) (sym e) started,
    subst (λ x. IsExecuted x result) (sym e) executed,
    subst (λ x. IsCompleted plane x result s') (sym e) h,
  )

  -- A start that was refused: without an error only where the cancellation was acknowledged.
  start_refused-IsOutcome :
      (s : S) (a : Assignment) (e : Error) (t : S) (answer : Option Error × S)
      → (plane.claim worker.node_id s).0 ≡ ok a
      → plane.acknowledge_cancellation a t ≡ answer
      → let r = start_refused w plane took worker a e answer t in IsOutcome s r.0 r.1
  unfolding IsOutcome
  start_refused-IsOutcome s a e t (none, s') claimed h = elim (Bool-cases (is_run_cancelled e)) [
    | inl y ↦ rw y (claimed, record { before = t; answer = rw h refl; after = rw h refl })
    | inr y ↦ rw y refl
  ]
  start_refused-IsOutcome s a e t (some f, s') claimed h = elim (Bool-cases (is_run_cancelled e)) [
    | inl y ↦ rw y refl
    | inr y ↦ rw y refl
  ]

  after_start-IsOutcome :
      (s : S) (a : Assignment) (executor : Assignment → CompiledInstructions → Work)
      (compiled : CompiledInstructions) (disk : Disk) (answer : Option Error × S)
      → (plane.claim worker.node_id s).0 ≡ ok a
      → worker.resolve a.request.runtime.provider ≡ some executor
      → worker.compile a.request.input (instructions_for worker a.request) ≡ inr compiled
      → plane.start a (plane.claim worker.node_id s).1 ≡ answer
      → let r = after_start w plane took worker a (executor a compiled) disk answer in
        IsOutcome s r.0 r.1
  after_start-IsOutcome s a executor compiled disk (some e, t) claimed resolved instructed h =
      start_refused-IsOutcome s a e t (plane.acknowledge_cancellation a t) claimed refl
  after_start-IsOutcome s a executor compiled disk (none, t) claimed resolved instructed h =
      IsEnding-IsOutcome s a _ _ claimed (ap (λ r. r.0) h) (
        execute_work-IsEnding w plane took worker a (IsExecuted a) (executor a compiled) disk t
          (λ result artifacts outcome. record {
            executor = executor;
            compiled = compiled;
            given = result;
            resolved = resolved;
            instructed = instructed;
            outcome = outcome;
            same = refl;
          }))

  run_compiled-IsOutcome :
      (s : S) (a : Assignment) (executor : Assignment → CompiledInstructions → Work)
      (compiled : String ⊎ CompiledInstructions) (disk : Disk)
      → (plane.claim worker.node_id s).0 ≡ ok a
      → worker.resolve a.request.runtime.provider ≡ some executor
      → worker.compile a.request.input (instructions_for worker a.request) ≡ compiled
      → let r =
          run_compiled w plane took worker a executor compiled disk
            (plane.claim worker.node_id s).1 in
        IsOutcome s r.0 r.1
  unfolding IsOutcome
  run_compiled-IsOutcome s a executor (inl cause) disk claimed resolved instructed = refl
  run_compiled-IsOutcome s a executor (inr compiled) disk claimed resolved instructed =
      after_start-IsOutcome s a executor compiled disk
        (plane.start a (plane.claim worker.node_id s).1) claimed resolved instructed refl

  prepared-IsOutcome :
      (s : S) (a : Assignment) (executor : Assignment → CompiledInstructions → Work)
      (failure : Option String) (disk : Disk)
      → (plane.claim worker.node_id s).0 ≡ ok a
      → worker.resolve a.request.runtime.provider ≡ some executor
      → let r =
          prepared w plane took worker a executor failure disk (plane.claim worker.node_id s).1 in
        IsOutcome s r.0 r.1
  unfolding IsOutcome
  prepared-IsOutcome s a executor (some cause) disk claimed resolved = refl
  prepared-IsOutcome s a executor none disk claimed resolved =
      run_compiled-IsOutcome s a executor
        (worker.compile a.request.input (instructions_for worker a.request)) disk claimed resolved
        refl

  run_resolved-IsOutcome :
      (s : S) (a : Assignment) (executor : Option (Assignment → CompiledInstructions → Work))
      (disk : Disk)
      → (plane.claim worker.node_id s).0 ≡ ok a
      → worker.resolve a.request.runtime.provider ≡ executor
      → let r = run_resolved w plane took worker a executor disk (plane.claim worker.node_id s).1 in
        IsOutcome s r.0 r.1
  unfolding IsOutcome
  run_resolved-IsOutcome s a none disk claimed resolved = refl
  run_resolved-IsOutcome s a (some executor) disk claimed resolved =
      elim (Bool-cases (a.request.workspace.kind == "")) [
        | inl e ↦ rw e (prepared-IsOutcome s a executor none disk claimed resolved)
        | inr e ↦ rw e (by_provider worker.prepare)
      ]
    where
      by_provider :
          (provider : Option (String → String → WorkspaceSpec → Option String))
          → let r =
              prepare_by w plane took worker a executor provider disk
                (plane.claim worker.node_id s).1 in
            IsOutcome s r.0 r.1
      by_provider none = refl
      by_provider (some prepare) = prepared-IsOutcome s a executor _ disk claimed resolved

  -- Against any control plane, a worker that gives back a succeeded run had claimed it and its start
  -- accepted, the run's result is what its executor gave but for the artifacts, the control plane
  -- accepted the completion with this result, and after that only renewals followed; a worker that
  -- gives back a cancelled run had claimed it, and its last call was an acknowledgement of the
  -- cancellation, accepted or answered as an invalid transition; otherwise it gives back at least one
  -- error.
  pub run_once_ends :
      (disk : Disk) (s : S) → let (r, s') = run_once w plane took worker disk s in IsOutcome s r s'
  unfolding run_once IsOutcome
  run_once_ends disk s = go (plane.claim worker.node_id s) refl
    where
      go :
          (answer : Result Assignment × S)
          → plane.claim worker.node_id s ≡ answer
          → let r = after_claim w plane took worker answer disk in IsOutcome s r.0 r.1
      go (err e, s') h = refl
      go (ok a, s') h =
          subst
            (λ x.
              let r =
                run_resolved w plane took worker a (worker.resolve a.request.runtime.provider) disk
                  x in
              IsOutcome s r.0 r.1)
            (ap (λ r. r.1) h)
            (run_resolved-IsOutcome s a (worker.resolve a.request.runtime.provider) disk
              (ap (λ r. r.0) h) refl)
