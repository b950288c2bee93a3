-- ===== src/Http/Tests.antt =====
-- A node's calls over HTTP of the fixture's control plane.
use Prim.Native.String.{slice, len}
use realy.Common.{
  ◌-◌, String, Bool, true, false, Option, none, some, [], ◌∷◌, ◌≡◌, refl, inl, inr, pos,
}
use realy.Types.{CapabilityRequest, InteractionKind, Interaction}
use realy.Controlplane.Types.{
  Assignment, LeaseUpdate, CapabilityReservation, Error, Result, ok, err,
}
use realy.Controlplane.State.{MemoryStorage, new_memory_storage}
use realy.Controlplane.Access.{AccessScope, AccessKind}
use realy.Controlplane.Calls.{Call, perform_all}
use realy.Controlplane.Fixture.{
  world, request, run_id, registration, assignment, started_state, result,
}
use realy.Node.Plane.{ControlPlane}
use realy.Node.Local.{local_plane}
use realy.Http.Wire.{Wiring, Codec, Message}
use realy.Http.Handler.{write_message, serve}
use realy.Http.Auth.{authenticate, admit, guarded}
use realy.Http.Client
use realy.Http.Client.{message_to, received}
use realy.Http.Exchange.{kind_of}
use realy.Http.Admission.{IsLetIn, IsRead, admit-IsPermitted, refusal-IsPlain}
use realy.Http.Answers.{Answers}

abbrev plane : ControlPlane MemoryStorage
plane = local_plane world (run_id ∷ []) request (pos 1000)

-- JSON that has one value in each type, and the message itself in a failure.
abbrev constant : {A : Type 0} → A → Codec A
constant value = record { encode = λ x. some "{}"; decode = λ text. some value; zero_value = value }

abbrev value_or : {A : Type 0} → A → Result A → A
value_or zero (ok value) = value
value_or zero (err e) = zero

abbrev blank_update : LeaseUpdate
blank_update = record { lease_expires_at = 0; cancel_requested = false; cancel_reason = "" }

abbrev capability_request : CapabilityRequest
capability_request = record {
  call_id = "";
  run_id = run_id;
  agent_id = "a";
  principal = request.principal;
  name = "search";
  version = "1";
  effect = "read";
  resource = "";
  input = "{}";
}

abbrev reservation : CapabilityReservation
reservation = record { call_id = "call_1"; execute = true; result = none; error = "" }

abbrev interaction : Interaction
interaction = record {
  id = "i1";
  run_id = run_id;
  attempt_id = "attempt_x";
  kind = InteractionKind.approval;
  state = "pending";
  prompt = "";
  payload = "";
  response = "";
  created_at = 0;
  resolved_at = none;
}

abbrev pub wiring_of : Assignment → Wiring
wiring_of a = record {
  registration = constant registration;
  node = constant (record { registration = registration; active = 0; last_seen = 0; state = "" });
  assignment = constant a;
  lease_update = constant (value_or blank_update (plane.renew assignment started_state).0);
  event = constant (record {
    event_id = "1";
    run_id = run_id;
    lease_token = "lease_xxxx";
    kind = "progress";
    payload = "{}";
  });
  completion = constant (record { assignment = assignment; result = result });
  failure = constant (record { assignment = assignment; error = "failed" });
  reserve =
      constant
        (record { assignment = assignment; key = "k"; hash = "h"; request = capability_request });
  reservation = constant (
      value_or reservation
        (plane.reserve_capability assignment "k" "h" capability_request started_state).0);
  finish = constant (record {
    assignment = assignment;
    reservation = reservation;
    result = record { call_id = "call_1"; output = "{}" };
    error = "";
  });
  interaction_call = constant (record {
    assignment = assignment;
    request = record { kind = InteractionKind.approval; prompt = ""; payload = "" };
  });
  interaction = constant interaction;
  message = record {
    encode = λ m. some m;
    decode = λ text. some (slice text 0 (len text - 1));
    zero_value = "";
  };
  empty = "{}";
  size_of = λ text. 10;
  first = λ n text. text;
  status_text = λ status. "";
  trim = λ text. text;
}

abbrev pub wiring : Wiring
wiring = wiring_of assignment

abbrev node_scope : AccessScope
node_scope = record { kind = AccessKind.node; subject = "n1"; tenant_id = ""; project_id = "" }

abbrev auth : Option (String → Option AccessScope)
auth = some (authenticate (record { value = "secret"; scope = node_scope } ∷ []))

abbrev whole : String → String
whole segment = segment

abbrev submitted_state : MemoryStorage
submitted_state =
    perform_all world (Call.register_node registration ∷ Call.submit request ∷ [])
      new_memory_storage

abbrev claim_wiring : Wiring
claim_wiring = wiring_of (value_or assignment (plane.claim "n1" submitted_state).0)

claim_admitted :
    admit claim_wiring whole auth
      (message_to "secret" ("v1" ∷ "nodes" ∷ "n1" ∷ "claim" ∷ []) claim_wiring.empty)
    ≡ inr (some node_scope)
unfolding admit authenticate
claim_admitted = refl

admit-IsPermitted_example :
    let auth = authenticate (record { value = "secret"; scope = node_scope } ∷ []) in
    let m = message_to "secret" ("v1" ∷ "nodes" ∷ "n1" ∷ "claim" ∷ []) claim_wiring.empty in
    IsLetIn claim_wiring whole auth m node_scope
admit-IsPermitted_example =
    (admit-IsPermitted claim_wiring whole
        (authenticate (record { value = "secret"; scope = node_scope } ∷ []))
        (message_to "secret" ("v1" ∷ "nodes" ∷ "n1" ∷ "claim" ∷ []) claim_wiring.empty)
        node_scope).0
      claim_admitted

abbrev stolen : Message
stolen = message_to "guess" ("v1" ∷ "attempts" ∷ "attempt_x" ∷ "complete" ∷ []) "{}"

stolen_refused :
    admit wiring whole auth stolen ≡ inl (write_message wiring 401 "invalid bearer token")
unfolding admit authenticate
stolen_refused = refl

required-IsRead : IsRead wiring whole "bearer token is required"
unfolding IsRead
required-IsRead = refl

invalid-IsRead : IsRead wiring whole "invalid bearer token"
unfolding IsRead
invalid-IsRead = refl

refusal-IsPlain_example :
    let r = write_message wiring 401 "invalid bearer token" in
    (guarded wiring whole auth
        (λ scope m s. serve wiring plane request scope m s)
        stolen
        started_state
      ≡ (r, started_state))
    × ((is_claim : Bool) → (f : Error) × (received wiring is_claim r ≡ inl f) × (kind_of f ≡ none))
refusal-IsPlain_example =
    refusal-IsPlain wiring whole auth stolen (write_message wiring 401 "invalid bearer token")
      (λ scope m s. serve wiring plane request scope m s) started_state required-IsRead
      invalid-IsRead stolen_refused
