-- ===== src/Http/Handler.antt =====
-- transport/httpapi/handler.go: the routes of a node and what they make of a request. The service is
-- anything with the methods of a node's control plane.
use realy.Common.{
  ℕ, String, Bool, false, not, ◌||◌, ◌&&◌, Option, none, some, List, [], ◌∷◌, ◌==◌, if◌then◌else◌,
}
use realy.Types.{Request}
use realy.Controlplane.Types.{
  NodeRegistration, Assignment, Error, no_assignment, other, Result, ok, err, raw,
}
use realy.Controlplane.Access.{AccessScope, is_node}
use realy.Node.Plane.{ControlPlane}
use realy.Http.Wire.{
  limited, Method, get, post, Message, Response, Codec, Completion, Failure, EventCall, ReserveCall,
  FinishCall, InteractionCall, Wiring, text_of, status_of, line_of, is_large,
}

-- The routes below /v1/nodes and /v1/attempts; a wildcard takes no empty segment.
pub data Route : Type 0 where
  register : Route
  heartbeat claim : (node_id : String) → Route
  start renew append_event complete fail cancelled : (attempt_id : String) → Route
  reserve create_interaction : (attempt_id : String) → Route
  finish get_interaction : (attempt_id id : String) → Route
  unknown : Route

abbrev pub node_route : String → String → Route
node_route id op =
    if op == "heartbeat" then heartbeat id else (if op == "claim" then claim id else unknown)

abbrev pub attempt_route : String → String → Route
attempt_route id op =
    if op == "start"
    then start id
    else (if op == "renew"
        then renew id
        else (if op == "events"
            then append_event id
            else (if op == "complete"
                then complete id
                else (if op == "fail"
                    then fail id
                    else (if op == "cancelled"
                        then cancelled id
                        else (if op == "interactions" then create_interaction id else unknown))))))

-- An ID that is no segment: url.PathEscape leaves the dots, and ServeMux redirects such a path to one
-- without them, so the request reaches no handler.
abbrev pub is_skipped : String → Bool
is_skipped id = id == "" || (id == "." || id == "..")

abbrev pub named : String → Route → Route
named id found = if is_skipped id then unknown else found

unfoldable pub route_of : Method → List String → Route
route_of post (v ∷ group ∷ last ∷ []) =
    if v == "v1" && (group == "nodes" && last == "register") then register else unknown
route_of post (v ∷ group ∷ id ∷ op ∷ []) =
    if v == "v1" && group == "nodes"
    then named id (node_route id op)
    else (if v == "v1" && group == "attempts" then named id (attempt_route id op) else unknown)
route_of post (v ∷ group ∷ id ∷ sub ∷ op ∷ []) =
    if v == "v1" && (group == "attempts" && (sub == "capability-calls" && op == "reserve"))
    then named id (reserve id)
    else unknown
route_of post (v ∷ group ∷ id ∷ sub ∷ call_id ∷ op ∷ []) =
    if v == "v1" && (group == "attempts" && (sub == "capability-calls" && op == "finish"))
    then named id (named call_id (finish id call_id))
    else unknown
route_of get (v ∷ group ∷ id ∷ sub ∷ interaction_id ∷ []) =
    if v == "v1" && (group == "attempts" && sub == "interactions")
    then named id (named interaction_id (get_interaction id interaction_id))
    else unknown
route_of method path = unknown

-- The mux answers a request that no route takes.
abbrev pub not_served : Response
not_served = record { status = 404; body = "404 page not found\n" }

-- `scope.Subject` of a node's token, where it has one, is the node that may register.
abbrev pub is_foreign : Option AccessScope → String → Bool
is_foreign none id = false
is_foreign (some scope) id =
    is_node scope.kind && (not (scope.subject == "") && not (scope.subject == id))

module _ (wiring : Wiring) where
  abbrev pub write_message : ℕ → String → Response
  write_message status message = record {
    status = status;
    body = line_of (wiring.message.encode message);
  }

  unfoldable pub write_error : Error → Response
  write_error e = write_message (status_of e) (text_of e)

  abbrev pub no_content : Response
  no_content = record { status = 204; body = "" }

  module _ {S : Type 0} where
    abbrev pub respond : {A : Type 0} → Codec A → ℕ → Result A × S → Response × S
    respond codec status (ok value, s) =
        (record { status = status; body = line_of (codec.encode value) }, s)
    respond codec status (err e, s) = (write_error e, s)

    abbrev pub respond_empty : Option Error × S → Response × S
    respond_empty (none, s) = (no_content, s)
    respond_empty (some e, s) = (write_error e, s)

    abbrev pub respond_claim : Codec Assignment → Result Assignment × S → Response × S
    respond_claim codec (err no_assignment, s) = (no_content, s)
    respond_claim codec answer = respond codec 200 answer

    abbrev pub with_body :
        {A : Type 0} → String → Option A → (A → S → Response × S) → S → Response × S
    with_body fault none next s = (write_message 400 fault, s)
    with_body fault (some value) next s = next value s

    -- A body that has no such value in its first 8 MiB is refused.
    abbrev pub decoded : {A : Type 0} → Codec A → String → (A → S → Response × S) → S → Response × S
    decoded codec body next s =
        with_body (if is_large wiring body then "http: request body too large" else "json")
          (codec.decode (limited wiring body)) next s

    -- The body's attempt is the path's.
    abbrev pub matched : String → Assignment → Response × S → S → Response × S
    matched attempt_id a next s =
        if a.attempt_id == attempt_id then next else (write_error (other "attempt ID mismatch"), s)

    module _ (service : ControlPlane S) (blank : Request) (scope : Option AccessScope) where
      abbrev pub handle_register : NodeRegistration → S → Response × S
      handle_register value s =
          if is_foreign scope value.id
          then (write_message 403 "node identity mismatch", s)
          else respond wiring.node 200 (service.register_node value s)

      abbrev pub handle_start : String → Assignment → S → Response × S
      handle_start id a s = matched id a (respond_empty (service.start a s)) s

      abbrev pub handle_renew : String → Assignment → S → Response × S
      handle_renew id a s = matched id a (respond wiring.lease_update 200 (service.renew a s)) s

      abbrev pub handle_cancelled : String → Assignment → S → Response × S
      handle_cancelled id a s =
          matched id a (respond_empty (service.acknowledge_cancellation a s)) s

      abbrev pub handle_event : String → EventCall → S → Response × S
      handle_event id call s = respond_empty (
          service.append_event call.run_id id call.lease_token call.kind (raw call.payload)
            (some call.event_id) s)

      abbrev pub handle_complete : String → Completion → S → Response × S
      handle_complete id call s =
          matched id call.assignment
            (respond_empty (service.complete call.assignment call.result s)) s

      abbrev pub handle_fail : String → Failure → S → Response × S
      handle_fail id call s =
          matched id call.assignment (respond_empty (service.fail call.assignment call.error s)) s

      abbrev pub handle_reserve : String → ReserveCall → S → Response × S
      handle_reserve id call s =
          matched id call.assignment
            (respond wiring.reservation 200
              (service.reserve_capability call.assignment call.key call.hash call.request s))
            s

      abbrev pub handle_finish : String → String → FinishCall → S → Response × S
      handle_finish id call_id call s =
          if not (call.assignment.attempt_id == id) || not (call.reservation.call_id == call_id)
          then (write_error (other "capability call identity mismatch"), s)
          else respond_empty
              (service.finish_capability call.assignment call.reservation call.result call.error s)

      abbrev pub handle_create : String → InteractionCall → S → Response × S
      handle_create id call s =
          matched id call.assignment
            (respond wiring.interaction 201
              (service.create_interaction call.assignment call.request s))
            s

      -- The assignment that the handler of getInteraction puts together; its other fields are zero.
      abbrev pub partial_assignment : String → Message → Assignment
      partial_assignment id m = record {
        run_id = m.run_id;
        attempt_id = id;
        lease_token = m.lease_token;
        lease_expires_at = 0;
        request = blank;
      }

      abbrev pub handle_route : Route → Message → S → Response × S
      handle_route register m s = decoded wiring.registration m.body handle_register s
      handle_route (heartbeat id) m s = respond wiring.node 200 (service.heartbeat id s)
      handle_route (claim id) m s = respond_claim wiring.assignment (service.claim id s)
      handle_route (start id) m s = decoded wiring.assignment m.body (handle_start id) s
      handle_route (renew id) m s = decoded wiring.assignment m.body (handle_renew id) s
      handle_route (append_event id) m s = decoded wiring.event m.body (handle_event id) s
      handle_route (complete id) m s = decoded wiring.completion m.body (handle_complete id) s
      handle_route (fail id) m s = decoded wiring.failure m.body (handle_fail id) s
      handle_route (cancelled id) m s = decoded wiring.assignment m.body (handle_cancelled id) s
      handle_route (reserve id) m s = decoded wiring.reserve m.body (handle_reserve id) s
      handle_route (create_interaction id) m s =
          decoded wiring.interaction_call m.body (handle_create id) s
      handle_route (finish id call_id) m s =
          decoded wiring.finish m.body (handle_finish id call_id) s
      handle_route (get_interaction id interaction_id) m s =
          respond wiring.interaction 200
            (service.get_interaction (partial_assignment id m) interaction_id s)
      handle_route unknown m s = (not_served, s)

      unfoldable pub serve : Message → S → Response × S
      serve m s = handle_route (route_of m.method m.path) m s
