-- ===== src/Embedded/Outcomes.antt =====
-- engine.go: how an execution ends, and what a second one under the same key gives.
use Prim.Native.String
use realy.Common.{
  ◌≡◌, refl, sym, ap, subst, ◌∙◌, ◌⊎◌, inl, inr, String, false, Option, none, some, List, [], ◌∷◌,
  join_nul, Option-cases,
}
use realy.Common.Maps.{lookup, insert, lookup-insert_self}
use realy.Types.{Run, RunStatus, RunResult, Request, Input, InstructionBundle, CompiledInstructions}
use realy.Controlplane.Types.{Payload, nil, World, fields, status, of_result, text}
use realy.Embedded.Store.{create, update, append_event, stored_at, request_key}
use realy.Embedded.Engine.{
  Engine, Outcome, Work, lacks_fields, emit, emit_all, fail, finish, run_compiled, execute,
  failed_run, succeeded_run, running_run, new_run, new_id, tick, draw, now,
}

-- The run that an outcome comes with.
unfoldable pub run_in : Outcome → Option Run
run_in (Outcome.succeeded run) = some run
run_in (Outcome.found stored) = stored
run_in (Outcome.failed run cause) = some run
run_in (Outcome.refused cause) = none

-- An execution that has ended: its run succeeded with a result, or failed with the cause that is
-- returned, and is stored so under its ID.
unfoldable pub EndsAt : String → Outcome → Engine → Type 0
EndsAt id (Outcome.succeeded run) s =
    (run.status ≡ RunStatus.succeeded)
    × ((result : RunResult) × (run.result ≡ some result))
    × (lookup id s.store.runs ≡ some run)
EndsAt id (Outcome.failed run cause) s =
    (run.status ≡ RunStatus.failed) × (run.error ≡ cause) × (lookup id s.store.runs ≡ some run)
EndsAt id (Outcome.found stored) s = ⊥
EndsAt id (Outcome.refused cause) s = ⊥

EndsAt-run_in :
    (id : String) (o : Outcome) (s : Engine) → EndsAt id o s → lookup id s.store.runs ≡ run_in o
unfolding EndsAt run_in
EndsAt-run_in id (Outcome.succeeded run) s h = h.2
EndsAt-run_in id (Outcome.failed run cause) s h = h.2
EndsAt-run_in id (Outcome.found stored) s h = elim h [ ]
EndsAt-run_in id (Outcome.refused cause) s h = elim h [ ]

module _ (w : World) where
  emit_runs :
      (run : Run) (kind : String) (value : Payload) (s : Engine)
      → ((emit w run kind value s).store.runs ≡ s.store.runs)
        × ((emit w run kind value s).store.by_request ≡ s.store.by_request)
  unfolding emit append_event
  emit_runs run kind value s = elim (Option-cases (lookup run.id s.store.runs)) [
    | inl e ↦ rw e (refl, refl)
    | inr (found, e) ↦ rw e (refl, refl)
  ]

  emit_all_runs :
      (run : Run) (emitted : List (String × Payload)) (s : Engine)
      → ((emit_all w run emitted s).store.runs ≡ s.store.runs)
        × ((emit_all w run emitted s).store.by_request ≡ s.store.by_request)
  unfolding emit_all
  emit_all_runs run [] s = (refl, refl)
  emit_all_runs run ((kind, value) ∷ rest) s =
      let (p, q) = emit_all_runs run rest (emit w run kind value s) in
      let (p', q') = emit_runs run kind value s in (p ∙ p', q ∙ q')

  emit_twice_runs :
      (run : Run) (kind₁ kind₂ : String) (value₁ value₂ : Payload) (s : Engine)
      → let s' = emit w run kind₂ value₂ (emit w run kind₁ value₁ s) in
        (s'.store.runs ≡ s.store.runs) × (s'.store.by_request ≡ s.store.by_request)
  emit_twice_runs run kind₁ kind₂ value₁ value₂ s =
      let (p, q) = emit_runs run kind₁ value₁ s in
      let (p', q') = emit_runs run kind₂ value₂ (emit w run kind₁ value₁ s) in (p' ∙ p, q' ∙ q)

  -- From a state in which the given run's ID is stored.
  IsFinal : String → Engine → Outcome × Engine → Type 0
  IsFinal id s (o, s') = EndsAt id o s' × (s'.store.by_request ≡ s.store.by_request)

  fail-IsFinal :
      (given old : Run) (cause : String) (s : Engine)
      → lookup given.id s.store.runs ≡ some old
      → IsFinal given.id s (fail w given cause s)
  unfolding IsFinal fail update EndsAt
  fail-IsFinal given old cause s h =
      let run = failed_run w given cause (now w s) in
      let error = fields (("error", text cause) ∷ []) in
      let after = record (tick w s) { store = stored_at run s.store } in
      let (p, q) = emit_twice_runs run "attempt.failed" "run.failed" error error after in
      rw h ((refl, refl, ap (lookup given.id) p ∙ lookup-insert_self given.id run s.store.runs), q)

  finish-IsFinal :
      (given old : Run) (result : String ⊎ RunResult) (s : Engine)
      → lookup given.id s.store.runs ≡ some old
      → IsFinal given.id s (finish w given result s)
  unfolding IsFinal finish update EndsAt
  finish-IsFinal given old (inl cause) s h = fail-IsFinal given old cause s h
  finish-IsFinal given old (inr result) s h =
      let run = succeeded_run w given result (now w s) in
      let after = record (tick w s) { store = stored_at run s.store } in
      let (p, q) =
        emit_twice_runs run "attempt.succeeded" "run.succeeded" nil (of_result result) after in
      rw h (
        (
          refl,
          (result, refl),
          ap (lookup given.id) p ∙ lookup-insert_self given.id run s.store.runs,
        ),
        q,
      )

  run_compiled-IsFinal :
      (executor : Run → Request → CompiledInstructions → Work) (request : Request) (given old : Run)
      (compiled : String ⊎ CompiledInstructions) (s : Engine)
      → lookup given.id s.store.runs ≡ some old
      → IsFinal given.id s (run_compiled w executor request given compiled s)
  unfolding IsFinal run_compiled update
  run_compiled-IsFinal executor request given old (inl cause) s h =
      fail-IsFinal given old (String.◌++◌ "compile instructions: " cause) s h
  run_compiled-IsFinal executor request given old (inr compiled) s h =
      let run = running_run w given (now w s) in
      let work = executor run request compiled in
      let s1 = record (tick w s) { store = stored_at run s.store } in
      let s2 = emit w run "run.started" nil (emit w run "attempt.started" nil s1) in
      let s3 = emit_all w run work.emitted s2 in
      let (p, q) = emit_twice_runs run "attempt.started" "run.started" nil nil s1 in
      let (p', q') = emit_all_runs run work.emitted s2 in
      let held : lookup given.id s3.store.runs ≡ some run =
        ap (lookup given.id) (p' ∙ p) ∙ lookup-insert_self given.id run s.store.runs in
      let (ends, indexed) = finish-IsFinal run run work.outcome s3 held in
      rw h (ends, indexed ∙ (q' ∙ q))

-- The key under which a request's run is found again.
unfoldable pub key_of : Request → String
key_of request = join_nul request.tenant_id (join_nul request.project_id request.idempotency_key)

-- An execution of a new request ends: with the executor and the compiler of any kind, a request
-- that has an agent, a key and a prompt, and whose key the store does not have yet, gets a run that
-- succeeded with a result, or one that failed with the cause that is returned. The run is stored as
-- it is returned, under an ID to which the request's key then leads.
pub execute_ends :
    (w : World) (executor : Run → Request → CompiledInstructions → Work)
    (compile : Input → InstructionBundle → String ⊎ CompiledInstructions) (request : Request)
    (s : Engine)
    → lacks_fields request ≡ false
    → lookup (key_of request) s.store.by_request ≡ none
    → (id : String) × EndsAt id
        (execute w executor compile request s).0
        (execute w executor compile request s).1
      × (lookup (key_of request) (execute w executor compile request s).1.store.by_request
          ≡ some id)
unfolding execute create key_of IsFinal
execute_ends w executor compile request s valid new =
    let run = new_run w request (new_id w "run" s) (new_id w "attempt" (draw w s)) (now w s) in
    let compiled = compile request.input request.instructions in
    let drawn = draw w (draw w (tick w s)) in
    let store = record (stored_at run s.store) {
      by_request = insert (request_key run) run.id s.store.by_request;
    } in
    let s1 = record drawn { store = store } in
    let s2 = emit w run "run.created" (fields (("status", status RunStatus.queued) ∷ [])) s1 in
    let (p, q) =
      emit_runs w run "run.created" (fields (("status", status RunStatus.queued) ∷ [])) s1 in
    let held : lookup run.id s2.store.runs ≡ some run =
      ap (lookup run.id) p ∙ lookup-insert_self run.id run s.store.runs in
    let (ends, indexed) = run_compiled-IsFinal w executor request run run compiled s2 held in
    rw valid (
      rw new (
        run.id,
        ends,
        ap (lookup (request_key run)) (indexed ∙ q)
            ∙ lookup-insert_self (request_key run) run.id s.store.by_request,
      ))

found_again :
    (w : World) (executor : Run → Request → CompiledInstructions → Work)
    (compile : Input → InstructionBundle → String ⊎ CompiledInstructions) (request : Request)
    (id : String) (stored : Option Run) (s : Engine)
    → lacks_fields request ≡ false
    → lookup (key_of request) s.store.by_request ≡ some id
    → lookup id s.store.runs ≡ stored
    → ((execute w executor compile request s).0 ≡ Outcome.found stored)
      × ((execute w executor compile request s).1.store ≡ s.store)
      × ((execute w executor compile request s).1.observed ≡ s.observed)
unfolding execute create key_of
found_again w executor compile request id stored s valid indexed held =
    rw valid (rw indexed (rw held (refl, refl, refl)))

-- A second execution under the same tenant, project and key finds the run that the first one gave
-- and changes nothing in the store, whatever else its request holds and whatever its executor is,
-- if the key was new before the first one and both requests have an agent, a key and a prompt.
pub execute_again :
    (w : World) (executor executor' : Run → Request → CompiledInstructions → Work)
    (compile compile' : Input → InstructionBundle → String ⊎ CompiledInstructions)
    (request request' : Request) (s : Engine)
    → lacks_fields request ≡ false
    → lacks_fields request' ≡ false
    → key_of request' ≡ key_of request
    → lookup (key_of request) s.store.by_request ≡ none
    → let first = execute w executor compile request s in
      let second = execute w executor' compile' request' first.1 in
      (second.0 ≡ Outcome.found (run_in first.0))
      × (second.1.store ≡ first.1.store)
      × (second.1.observed ≡ first.1.observed)
execute_again w executor executor' compile compile' request request' s valid valid' same new =
    let (id, ends, indexed) = execute_ends w executor compile request s valid new in
    let first = execute w executor compile request s in
    found_again w executor' compile' request' id (run_in first.0) first.1 valid'
      (subst (λ key. lookup key first.1.store.by_request ≡ some id) (sym same) indexed)
      (EndsAt-run_in id first.0 first.1 ends)
