-- ===== src/Controlplane/Records.antt =====
-- controlplane/memory.go: artifacts, capability calls and interactions of a run, and what the
-- storage answers about runs and nodes.
use realy.Common.{
  String, true, false, not, ◌&&◌, ◌||◌, Option, none, some, List, [], ◌∷◌, ◌++◌, if◌then◌else◌,
  ◌==◌, ℤ, pos, nat_le, join_nul,
}
use realy.Common.Maps.{Map, lookup, lookup_or, insert}
use realy.Types.{
  Run, AttemptStatus, in_state, Event, Attempt, Artifact, CapabilityResult, Interaction,
  InteractionRequest,
}
use realy.Controlplane.Types.{
  Assignment, CapabilityReservation, not_found, invalid_transition, idempotency_conflict, Result,
  ok, err, of_artifact, of_interaction, fields, text, World,
}
use realy.Controlplane.State.{
  MemoryStorage, MemoryCapabilityCall, now, tick, new_id, draw, append_event, events_of,
}
use realy.Controlplane.Reconciling.{set_last}
use realy.Controlplane.Reports.{Reply, done, refuse, with_run, authorize_assignment}

-- The queries change nothing: they return a value.
unfoldable pub get_run : String → MemoryStorage → Result Run
get_run run_id s = elim (lookup run_id s.runs) [ none ↦ err not_found | some run ↦ ok run ]

-- The loop of EventsAfter: skips the events up to the first one with a sequence above `after`.
unfoldable pub skip_until : ℤ → List Event → List Event
skip_until after [] = []
skip_until after (event ∷ events) =
    if nat_le event.sequence after then skip_until after events else event ∷ events

unfoldable pub events_after : String → ℤ → MemoryStorage → Result (List Event)
events_after run_id after s = elim (lookup run_id s.runs) [
  | none ↦ err not_found
  | some run ↦ ok (skip_until after (events_of run_id s))
]

unfoldable pub events : String → MemoryStorage → Result (List Event)
events run_id s = events_after run_id (pos 0) s

unfoldable pub attempts : String → MemoryStorage → Result (List Attempt)
attempts run_id s = elim (lookup run_id s.runs) [
  | none ↦ err not_found
  | some run ↦ ok (set_last run.attempt (lookup_or [] run_id s.attempt_history))
]

-- Call IDs are drawn at random, so at most one call of the map has the ID and the order in which
-- Go visits the map does not matter.
unfoldable pub settle :
    String
    → CapabilityResult
    → String
    → Map MemoryCapabilityCall
    → Option (Map MemoryCapabilityCall)
settle call_id result cause [] = none
settle call_id result cause ((key, call) ∷ calls) =
    let settled = record call {
      reservation = record (call.reservation) {
        execute = false;
        result = some result;
        error = cause;
      };
    } in
    let rest : Option (Map MemoryCapabilityCall) = elim (settle call_id result cause calls) [
      | none ↦ none
      | some calls' ↦ some ((key, call) ∷ calls')
    ] in
    if call.reservation.call_id == call_id then some ((key, settled) ∷ calls) else rest

unfoldable pub find_interaction :
    Assignment → String → Run → MemoryStorage → Result Interaction × MemoryStorage
find_interaction a id run s = elim (lookup id s.interactions) [
  | none ↦ refuse not_found s
  | some value ↦ if not (value.run_id == a.run_id) then refuse not_found s else (ok value, s)
]

module _ (w : World) where
  unfoldable pub add_run_artifact : Artifact → Run → MemoryStorage → Reply
  add_run_artifact artifact run s =
      if not (in_state run.attempt.status AttemptStatus.running)
      then refuse invalid_transition s
      else done (
          append_event w run "artifact.created" (of_artifact artifact) (record s {
            artifacts = insert artifact.id artifact s.artifacts;
            artifact_runs =
                insert run.id (lookup_or [] run.id s.artifact_runs ++ artifact.id ∷ [])
                  s.artifact_runs;
          }))

  unfoldable pub add_artifact : Assignment → Artifact → MemoryStorage → Reply
  unfolding add_run_artifact
  add_artifact a artifact s = with_run (authorize_assignment w a s) (add_run_artifact artifact)

  abbrev pub fresh_reservation : MemoryStorage → CapabilityReservation
  fresh_reservation s = record {
    call_id = new_id w "call" s;
    execute = true;
    result = none;
    error = "";
  }

  unfoldable pub reserve_run :
      Assignment
      → String
      → String
      → Run
      → MemoryStorage
      → Result CapabilityReservation × MemoryStorage
  reserve_run a key hash run s =
      let map_key = join_nul a.run_id key in
      let call : MemoryCapabilityCall = record { hash = hash; reservation = fresh_reservation s } in
      if not (in_state run.attempt.status AttemptStatus.running)
      then refuse invalid_transition s
      else elim (lookup map_key s.capability_calls) [
        | some old ↦
            if not (old.hash == hash)
            then refuse idempotency_conflict s
            else (ok old.reservation, s)
        | none ↦ (
          ok (fresh_reservation s),
          record (draw w s) { capability_calls = insert map_key call s.capability_calls },
        )
      ]

  unfoldable pub reserve_capability :
      Assignment → String → String → MemoryStorage → Result CapabilityReservation × MemoryStorage
  unfolding reserve_run
  reserve_capability a key hash s = with_run (authorize_assignment w a s) (reserve_run a key hash)

  unfoldable pub finish_run :
      CapabilityReservation → CapabilityResult → String → Run → MemoryStorage → Reply
  finish_run reservation result cause run s =
      elim (settle reservation.call_id result cause s.capability_calls) [
        | none ↦ refuse not_found s
        | some calls ↦ done (
            append_event w run "capability.recorded"
              (fields (("call_id", text reservation.call_id) ∷ []))
              (record s { capability_calls = calls }))
      ]

  unfoldable pub finish_capability :
      Assignment → CapabilityReservation → CapabilityResult → String → MemoryStorage → Reply
  unfolding finish_run
  finish_capability a reservation result cause s =
      with_run (authorize_assignment w a s) (finish_run reservation result cause)

  unfoldable pub create_run_interaction :
      InteractionRequest → Run → MemoryStorage → Result Interaction × MemoryStorage
  create_run_interaction request run s =
      let value : Interaction = record {
        id = new_id w "interaction" s;
        run_id = run.id;
        attempt_id = run.attempt.id;
        kind = request.kind;
        state = "pending";
        prompt = request.prompt;
        payload = request.payload;
        response = "";
        created_at = now w s;
        resolved_at = none;
      } in
      let s' = tick w (draw w s) in
      if not (in_state run.attempt.status AttemptStatus.running)
      then refuse invalid_transition s
      else (
        ok value,
        append_event w run "interaction.requested" (of_interaction value)
            (record s' { interactions = insert value.id value s.interactions }),
      )

  unfoldable pub create_interaction :
      Assignment → InteractionRequest → MemoryStorage → Result Interaction × MemoryStorage
  unfolding create_run_interaction
  create_interaction a request s =
      with_run (authorize_assignment w a s) (create_run_interaction request)

  unfoldable pub get_interaction :
      Assignment → String → MemoryStorage → Result Interaction × MemoryStorage
  unfolding find_interaction
  get_interaction a id s = with_run (authorize_assignment w a s) (find_interaction a id)

  unfoldable pub resolve_of :
      String
      → Interaction
      → Run
      → String
      → String
      → String
      → MemoryStorage
      → Result Interaction × MemoryStorage
  resolve_of id value run response tenant project s =
      let resolved = record value {
        state = "resolved";
        response = response;
        resolved_at = some (now w s);
      } in
      if (not (tenant == "") && not (run.tenant_id == tenant))
        || (not (project == "") && not (run.project_id == project))
      then refuse not_found s
      else (if not (value.state == "pending") then refuse invalid_transition s else (
        ok resolved,
        append_event w run "interaction.resolved" (fields (("interaction_id", text id) ∷ []))
            (record (tick w s) { interactions = insert id resolved s.interactions }),
      ))

  -- An interaction whose run is not stored would be a nil dereference; runs are never removed.
  unfoldable pub resolve_interaction :
      String → String → String → String → MemoryStorage → Result Interaction × MemoryStorage
  unfolding resolve_of
  resolve_interaction id response tenant project s = elim (lookup id s.interactions) [
    | none ↦ refuse not_found s
    | some value ↦ elim (lookup value.run_id s.runs) [
      | none ↦ refuse not_found s
      | some run ↦ resolve_of id value run response tenant project s
    ]
  ]
