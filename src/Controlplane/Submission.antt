-- ===== src/Controlplane/Submission.antt =====
-- controlplane/memory.go: RegisterNode, Heartbeat and Submit.
use realy.Common.{String, not, Option, none, some, [], ◌∷◌, if◌then◌else◌, ◌==◌, le_nat, join_nul}
use realy.Common.Maps.{lookup, lookup_or, insert}
use realy.Types.{Time, add_duration, Run, RunStatus, AttemptStatus, Request}
use realy.Controlplane.Types.{
  Node, NodeRegistration, not_found, Result, ok, err, fields, number, status, World,
}
use realy.Controlplane.State.{MemoryStorage, now, tick, new_id, draw, append_event}

abbrev pub idempotency_scope : Request → String
idempotency_scope request =
    join_nul request.tenant_id (join_nul request.project_id request.idempotency_key)

module _ (w : World) where
  unfoldable pub register_node : NodeRegistration → MemoryStorage → Result Node × MemoryStorage
  register_node registration s =
      let put =
        λ (node : Node). record (tick w s) { nodes = insert registration.id node s.nodes } in
      elim (lookup registration.id s.nodes) [
        | some existing ↦
            let node = record existing { registration = registration; last_seen = now w s } in
            (ok node, put node)
        | none ↦
            let node : Node = record {
              registration = registration;
              active = 0;
              last_seen = now w s;
              state = "";
            } in
            (ok node, put node)
      ]

  unfoldable pub heartbeat : String → MemoryStorage → Result Node × MemoryStorage
  heartbeat node_id s = elim (lookup node_id s.nodes) [
    | none ↦ (err not_found, s)
    | some node ↦
        let seen = record node { last_seen = now w s } in
        (ok seen, record (tick w s) { nodes = insert node_id seen s.nodes })
  ]

  -- The deadline that a positive timeout sets; a text that is no duration counts as 0.
  abbrev pub deadline : String → Time → Option Time
  deadline timeout t = elim (w.parse_duration timeout) [
    | none ↦ none
    | some d ↦ if le_nat d 0 then none else some (add_duration t d)
  ]

  abbrev pub new_run : Request → String → String → Time → Run
  new_run request run_id attempt_id t = record {
    id = run_id;
    tenant_id = request.tenant_id;
    project_id = request.project_id;
    session_id = request.session_id;
    agent_id = request.agent_id;
    idempotency_key = request.idempotency_key;
    runtime = request.runtime;
    source = request.source;
    status = RunStatus.queued;
    attempt = record {
      id = attempt_id;
      number = 1;
      node_id = "";
      lease_token = "";
      lease_expires_at = none;
      available_at = some t;
      status = AttemptStatus.queued;
      started_at = none;
      completed_at = none;
    };
    result = none;
    error = "";
    created_at = t;
    started_at = none;
    completed_at = none;
    deadline_at = deadline request.timeout t;
    cancel_requested_at = none;
    cancel_reason = "";
    cancelled_at = none;
  }

  -- The new run, and the state that holds it in every map.
  unfoldable pub store_request : Request → MemoryStorage → Run × MemoryStorage
  store_request request s =
      let t = now w s in
      let s1 = tick w s in
      let run_id = new_id w "run" s1 in
      let s2 = draw w s1 in
      let run = new_run request run_id (new_id w "attempt" s2) t in
      (
        run,
        record (draw w s2) {
          runs = insert run.id run s.runs;
          attempt_history = insert run.id (run.attempt ∷ []) s.attempt_history;
          requests = insert run.id request s.requests;
          by_idempotency = insert (idempotency_scope request) run.id s.by_idempotency;
        },
      )

  unfoldable pub create_run : Request → MemoryStorage → Run × MemoryStorage
  unfolding store_request
  create_run request s =
      let (run, s') = store_request request s in
      (
        run,
        append_event w run "attempt.queued" (fields (("number", number 1) ∷ []))
            (append_event w run "run.created" (fields (("status", status run.status) ∷ [])) s'),
      )

  -- An index entry for a run that is not stored would be a nil dereference; none is ever made.
  unfoldable pub submit : Request → MemoryStorage → Result (Option Run) × MemoryStorage
  unfolding create_run
  submit request s =
      let run_id = lookup_or "" (idempotency_scope request) s.by_idempotency in
      if not (run_id == "")
      then (ok (lookup run_id s.runs), s)
      else (let (run, s') = create_run request s in (ok (some run), s'))
