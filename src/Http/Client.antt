-- ===== src/Http/Client.antt =====
-- transport/httpapi/client.go: `do` and the calls of a node. A transport gives a request's response,
-- or the text of the error of client.Do or of reading the response.
use realy.Common.{
  eqb, ℕ, String, Bool, false, not, ◌||◌, ◌&&◌, Option, none, some, List, [], ◌∷◌, ◌==◌, ltb,
  if◌then◌else◌, concat, ◌⊎◌, inl, inr,
}
use text.Mathlib.Text.{starts_with}
use realy.Types.{RunResult, CapabilityRequest, CapabilityResult, Interaction, InteractionRequest}
use realy.Controlplane.Types.{
  NodeRegistration, Node, Assignment, LeaseUpdate, CapabilityReservation, Error, not_found,
  no_assignment, invalid_lease, invalid_transition, run_cancelled, incompatible_protocol, other,
  Result, ok, err, Payload, World,
}
use realy.Http.Wire.{get, post, Message, Response, Codec, EventCall, Wiring, text_of, limited}

-- The error that a status stands for, where the message begins with that error's text.
abbrev pub sentinel : Error → String → (String → Error) → Error
sentinel e message otherwise = if starts_with message (text_of e) then e else otherwise message

unfoldable pub protocol_error : (String → Error) → ℕ → String → Error
protocol_error otherwise status message =
    if eqb status 404
    then sentinel not_found message otherwise
    else (if eqb status 401
        then sentinel invalid_lease message otherwise
        else (if eqb status 409
            then sentinel invalid_transition message otherwise
            else (if eqb status 410
                then sentinel run_cancelled message otherwise
                else (if eqb status 426
                    then sentinel incompatible_protocol message otherwise
                    else otherwise message))))

abbrev pub is_success : ℕ → Bool
is_success status = not (ltb status 200) && ltb status 300

-- strings.Contains(path, "/claim"): an escaped segment has no slash.
unfoldable pub names_claim : List String → Bool
names_claim [] = false
names_claim (segment ∷ path) = starts_with segment "claim" || names_claim path

-- What `do` sends.
abbrev pub message_to : String → List String → String → Message
message_to token path body = record {
  method = post;
  path = path;
  run_id = "";
  lease_token = "";
  bearer = token;
  body = body;
}

abbrev pub Transport : Type 0 → Type 0
Transport S = Message → S → (String ⊎ Response) × S

module _ (wiring : Wiring) where
  -- The message of a failure, or the whole body where it has none.
  abbrev pub message_or : String → Option String → String
  message_or body none = body
  message_or body (some message) = if message == "" then body else message

  abbrev pub message_of : String → String
  message_of body = message_or body (wiring.message.decode body)

  abbrev pub unexpected : ℕ → String → Error
  unexpected status message =
      other (concat "relay HTTP " (concat (wiring.status_text status) (concat ": " message)))

  -- `is_claim` is whether the path has the text "/claim".
  abbrev pub received : Bool → Response → Error ⊎ Option String
  received is_claim r =
      let body = limited wiring r.body in
      if eqb r.status 204
      then (if is_claim then inl no_assignment else inr none)
      else (if is_success r.status
          then inr (some body)
          else inl (protocol_error (unexpected r.status) r.status (message_of body)))

  abbrev pub parsed : {A : Type 0} → Option A → Result A
  parsed none = err (other "decode Relay response")
  parsed (some value) = ok value

  -- The zero value is given back where the response has no body.
  abbrev pub output : {A : Type 0} → Codec A → Error ⊎ Option String → Result A
  output codec (inl e) = err e
  output codec (inr none) = ok codec.zero_value
  output codec (inr (some body)) =
      if body == "" then ok codec.zero_value else parsed (codec.decode body)

  abbrev pub answered : Error ⊎ Option String → Option Error
  answered (inl e) = some e
  answered (inr body) = none

  abbrev pub response_of : Bool → String ⊎ Response → Error ⊎ Option String
  response_of is_claim (inl cause) = inl (other cause)
  response_of is_claim (inr r) = received is_claim r

  module _ {S : Type 0} (transport : Transport S) (token : String) where
    abbrev pub sent :
        {A : Type 0} → (Error ⊎ Option String → A) → Bool → (String ⊎ Response) × S → A × S
    sent read is_claim (r, s) = (read (response_of is_claim r), s)

    -- `do` with a body: nothing is sent where it cannot be encoded.
    abbrev pub post_encoded :
        {A : Type 0} → (Error ⊎ Option String → A) → List String → Option String → S → A × S
    post_encoded read path none s = (read (inl (other "json")), s)
    post_encoded read path (some body) s =
        sent read (names_claim path) (transport (message_to token path body) s)

    abbrev pub post_empty : List String → Option String → S → Option Error × S
    post_empty path body s = post_encoded answered path body s

    abbrev pub register_node : NodeRegistration → S → Result Node × S
    register_node value s =
        post_encoded (output wiring.node) ("v1" ∷ "nodes" ∷ "register" ∷ [])
          (wiring.registration.encode value) s

    abbrev pub heartbeat : String → S → Result Node × S
    heartbeat id s =
        post_encoded (output wiring.node) ("v1" ∷ "nodes" ∷ id ∷ "heartbeat" ∷ [])
          (some wiring.empty) s

    abbrev pub claim : String → S → Result Assignment × S
    claim id s =
        post_encoded (output wiring.assignment) ("v1" ∷ "nodes" ∷ id ∷ "claim" ∷ [])
          (some wiring.empty) s

    abbrev pub attempt_path : String → String → List String
    attempt_path id op = "v1" ∷ "attempts" ∷ id ∷ op ∷ []

    abbrev pub start : Assignment → S → Option Error × S
    start a s = post_empty (attempt_path a.attempt_id "start") (wiring.assignment.encode a) s

    abbrev pub renew : Assignment → S → Result LeaseUpdate × S
    renew a s =
        post_encoded (output wiring.lease_update) (attempt_path a.attempt_id "renew")
          (wiring.assignment.encode a) s

    abbrev pub first_id : Option String → String
    first_id none = ""
    first_id (some id) = id

    abbrev pub event_call :
        String → String → String → Option String → Option String → Option EventCall
    event_call run_id lease kind id none = none
    event_call run_id lease kind id (some payload) = some (record {
      event_id = first_id id;
      run_id = run_id;
      lease_token = lease;
      kind = kind;
      payload = payload;
    })

    abbrev pub encoded_event : Option EventCall → Option String
    encoded_event none = none
    encoded_event (some call) = wiring.event.encode call

    abbrev pub append_event :
        World
        → (run_id attempt_id lease kind : String) → Payload
        → Option String
        → S
        → Option Error × S
    append_event w run_id attempt_id lease kind value id s =
        post_empty (attempt_path attempt_id "events")
          (encoded_event (event_call run_id lease kind id (w.marshal value))) s

    abbrev pub complete : Assignment → RunResult → S → Option Error × S
    complete a result s =
        post_empty (attempt_path a.attempt_id "complete")
          (wiring.completion.encode (record { assignment = a; result = result })) s

    abbrev pub fail : Assignment → String → S → Option Error × S
    fail a cause s =
        post_empty (attempt_path a.attempt_id "fail")
          (wiring.failure.encode (record { assignment = a; error = cause })) s

    abbrev pub acknowledge_cancellation : Assignment → S → Option Error × S
    acknowledge_cancellation a s =
        post_empty (attempt_path a.attempt_id "cancelled") (wiring.assignment.encode a) s

    abbrev pub reserve_capability :
        Assignment → String → String → CapabilityRequest → S → Result CapabilityReservation × S
    reserve_capability a key hash request s =
        post_encoded (output wiring.reservation)
          ("v1" ∷ "attempts" ∷ a.attempt_id ∷ "capability-calls" ∷ "reserve" ∷ [])
          (wiring.reserve.encode
            (record { assignment = a; key = key; hash = hash; request = request }))
          s

    abbrev pub finish_capability :
        Assignment → CapabilityReservation → CapabilityResult → String → S → Option Error × S
    finish_capability a reservation result cause s =
        post_empty
          ("v1" ∷ "attempts" ∷ a.attempt_id ∷ "capability-calls" ∷ reservation.call_id ∷ "finish"
            ∷ [])
          (wiring.finish.encode
            (record { assignment = a; reservation = reservation; result = result; error = cause }))
          s

    abbrev pub create_interaction : Assignment → InteractionRequest → S → Result Interaction × S
    create_interaction a request s =
        post_encoded (output wiring.interaction) (attempt_path a.attempt_id "interactions")
          (wiring.interaction_call.encode (record { assignment = a; request = request })) s

    -- GetInteraction reads its response itself, and gives no error of the control plane back as such.
    abbrev pub interaction_of : String ⊎ Response → Result Interaction
    interaction_of (inl cause) = err (other cause)
    interaction_of (inr r) =
        if is_success r.status
        then parsed (wiring.interaction.decode (limited wiring r.body))
        else err (unexpected r.status (wiring.trim (limited wiring r.body)))

    abbrev pub get_interaction : Assignment → String → S → Result Interaction × S
    get_interaction a id s =
        let (r, s') =
          transport
            (record {
              method = get;
              path = "v1" ∷ "attempts" ∷ a.attempt_id ∷ "interactions" ∷ id ∷ [];
              run_id = a.run_id;
              lease_token = a.lease_token;
              bearer = token;
              body = "";
            })
            s in
        (interaction_of r, s')
