-- ===== src/Embedded/Engine.antt =====
-- engine.go: Execute over a MemoryStore. The executor and the compiler are arguments: what an
-- executor does is the events that it emits (its capability calls' too), in their order, and then a
-- result or an error. The observer's calls are listed in `observed`.
use realy.Common.{
  ℕ, suc, String, Bool, true, false, ◌||◌, Option, none, some, List, [], ◌∷◌, ◌++◌, ◌==◌, concat,
  ◌⊎◌, inl, inr,
}
use realy.Types.{
  Time, Run, RunStatus, AttemptStatus, Event, Request, Input, InstructionBundle,
  CompiledInstructions, RunResult,
}
use realy.Controlplane.Types.{Payload, nil, fields, of_result, text, status, World}
use realy.Embedded.Store.{MemoryStore, created, existing, Created, create, update, append_event}

pub record Engine : Type 0 where
  pub store : MemoryStore
  pub observed : List Event
  pub readings : ℕ
  pub draws : ℕ

-- What Execute gives back: a run and no error (the new run, or the run under the same key), a run
-- and the cause of its failure, or an error alone.
pub data Outcome : Type 0 where
  succeeded : Run → Outcome
  found : Option Run → Outcome
  failed : Run → (cause : String) → Outcome
  refused : (cause : String) → Outcome

pub record Work : Type 0 where
  pub emitted : List (String × Payload)
  pub outcome : String ⊎ RunResult

abbrev pub run_not_found : String
run_not_found = "relay: run not found"

abbrev pub lacks_fields : Request → Bool
lacks_fields request =
    request.agent_id == "" || (request.idempotency_key == "" || request.input.prompt == "")

module _ (w : World) where
  abbrev pub now : Engine → Time
  now s = w.clock s.readings

  abbrev pub tick : Engine → Engine
  tick s = record s { readings = suc s.readings }

  -- id.go
  abbrev pub new_id : String → Engine → String
  new_id prefix s = concat prefix (concat "_" (w.random s.draws))

  abbrev pub draw : Engine → Engine
  draw s = record s { draws = suc s.draws }

  abbrev pub bytes_of : Payload → String
  bytes_of nil = ""
  bytes_of value = elim (w.marshal value) [ none ↦ "" | some bytes ↦ bytes ]

  -- The store sets the number.
  abbrev pub event_of : Run → String → Payload → Engine → Event
  event_of run kind value s = record {
    id = new_id "event" s;
    run_id = run.id;
    attempt_id = run.attempt.id;
    sequence = 0;
    type_name = kind;
    payload = bytes_of value;
    created_at = now s;
  }

  -- An event that the store refuses is dropped.
  abbrev pub observe : Option (Event × MemoryStore) → Engine → Engine
  observe none s = tick (draw s)
  observe (some (event, store)) s = record (tick (draw s)) {
    store = store;
    observed = s.observed ++ event ∷ [];
  }

  unfoldable pub emit : Run → String → Payload → Engine → Engine
  emit run kind value s = observe (append_event (event_of run kind value s) s.store) s

  unfoldable pub emit_all : Run → List (String × Payload) → Engine → Engine
  emit_all run [] s = s
  emit_all run ((kind, value) ∷ rest) s = emit_all run rest (emit run kind value s)

  -- Goes on with the updated store, or gives back the store's error.
  abbrev pub after_update :
      String → Option MemoryStore → Engine → (Engine → Outcome × Engine) → Outcome × Engine
  after_update cause none s next = (refused cause, s)
  after_update cause (some store) s next = next (record s { store = store })

  abbrev pub failed_run : Run → String → Time → Run
  failed_run run cause t = record run {
    status = RunStatus.failed;
    error = cause;
    completed_at = some t;
    attempt = record (run.attempt) { status = AttemptStatus.failed; completed_at = some t };
  }

  unfoldable pub fail : Run → String → Engine → Outcome × Engine
  fail given cause s =
      let run = failed_run given cause (now s) in
      let error = fields (("error", text cause) ∷ []) in
      after_update (concat cause (concat "\n" run_not_found)) (update run s.store) (tick s)
        (λ s'. (failed run cause, emit run "run.failed" error (emit run "attempt.failed" error s')))

  abbrev pub succeeded_run : Run → RunResult → Time → Run
  succeeded_run run result t = record run {
    status = RunStatus.succeeded;
    result = some result;
    completed_at = some t;
    attempt = record (run.attempt) { status = AttemptStatus.succeeded; completed_at = some t };
  }

  unfoldable pub finish : Run → String ⊎ RunResult → Engine → Outcome × Engine
  finish given (inl cause) s = fail given cause s
  finish given (inr result) s =
      let run = succeeded_run given result (now s) in
      after_update run_not_found (update run s.store) (tick s) (λ s'. (
        succeeded run,
        emit run "run.succeeded" (of_result result) (emit run "attempt.succeeded" nil s'),
      ))

  abbrev pub running_run : Run → Time → Run
  running_run run t = record run {
    status = RunStatus.running;
    started_at = some t;
    attempt = record (run.attempt) { status = AttemptStatus.running; started_at = some t };
  }

  -- The executor is given the running run, the request and the compiled instructions.
  unfoldable pub run_compiled :
      (Run → Request → CompiledInstructions → Work)
      → Request
      → Run
      → String ⊎ CompiledInstructions
      → Engine
      → Outcome × Engine
  run_compiled executor request given (inl cause) s =
      fail given (concat "compile instructions: " cause) s
  run_compiled executor request given (inr compiled) s =
      let run = running_run given (now s) in
      let work = executor run request compiled in
      after_update run_not_found (update run s.store) (tick s) (λ s'. finish run work.outcome (
        emit_all run work.emitted (emit run "run.started" nil (emit run "attempt.started" nil s'))))

  abbrev pub new_run : Request → String → String → Time → Run
  new_run request run_id attempt_id t = record {
    id = run_id;
    tenant_id = request.tenant_id;
    project_id = request.project_id;
    session_id = request.session_id;
    agent_id = request.agent_id;
    idempotency_key = request.idempotency_key;
    runtime = request.runtime;
    source = request.source;
    status = RunStatus.queued;
    attempt = record {
      id = attempt_id;
      number = 1;
      node_id = "";
      lease_token = "";
      lease_expires_at = none;
      available_at = none;
      status = AttemptStatus.queued;
      started_at = none;
      completed_at = none;
    };
    result = none;
    error = "";
    created_at = t;
    started_at = none;
    completed_at = none;
    deadline_at = none;
    cancel_requested_at = none;
    cancel_reason = "";
    cancelled_at = none;
  }

  abbrev pub after_create :
      (Run → Request → CompiledInstructions → Work)
      → String ⊎ CompiledInstructions
      → Request
      → Run
      → Created
      → Engine
      → Outcome × Engine
  after_create executor compiled request run (existing stored) s = (found stored, s)
  after_create executor compiled request run (created store) s =
      run_compiled executor request run compiled (
        emit run "run.created" (fields (("status", status RunStatus.queued) ∷ []))
          (record s { store = store }))

  abbrev pub valid_or_refused : Bool → Engine → Outcome × Engine → Outcome × Engine
  valid_or_refused true s next =
      (refused "relay: agent ID, idempotency key, and input prompt are required", s)
  valid_or_refused false s next = next

  unfoldable pub execute :
      (Run → Request → CompiledInstructions → Work)
      → (Input → InstructionBundle → String ⊎ CompiledInstructions)
      → Request
      → Engine
      → Outcome × Engine
  execute executor compile request s =
      let run = new_run request (new_id "run" s) (new_id "attempt" (draw s)) (now s) in
      valid_or_refused (lacks_fields request) s (
        after_create executor (compile request.input request.instructions) request run
          (create run s.store) (draw (draw (tick s))))
