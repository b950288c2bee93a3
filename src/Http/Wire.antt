-- ===== src/Http/Wire.antt =====
-- transport/httpapi/handler.go and client.go: what goes over the wire between a node and the server,
-- and the errors' texts and status codes. A path is the list of its segments as they are before
-- url.PathEscape and after ServeMux has unescaped them again. encoding/json is a record of codecs.
use realy.Common.{ℕ, String, Bool, Option, none, some, List, ltb, if◌then◌else◌, concat}
use realy.Types.{RunResult, CapabilityRequest, CapabilityResult, Interaction, InteractionRequest}
use realy.Controlplane.Types.{
  NodeRegistration, Node, Assignment, LeaseUpdate, CapabilityReservation, Error, not_found,
  no_assignment, invalid_lease, invalid_transition, run_cancelled, incompatible_protocol,
  idempotency_conflict, other,
}

pub data Method : Type 0 where
  get post : Method

-- A request: `run_id` is the query's, `lease_token` the header X-Relay-Lease-Token and `bearer` the
-- token of the header Authorization, or else of the cookie, without the spaces around it.
pub record Message : Type 0 where
  pub method : Method
  pub path : List String
  pub run_id : String
  pub lease_token : String
  pub bearer : String
  pub body : String

pub record Response : Type 0 where
  pub status : ℕ
  pub body : String

pub record Codec (A : Type 0) : Type 0 where
  pub encode : A → Option String
  pub decode : String → Option A
  pub zero_value : A  -- Go's zero value

-- The bodies that are structs of their own.
pub record Completion : Type 0 where
  pub assignment : Assignment
  pub result : RunResult

pub record Failure : Type 0 where
  pub assignment : Assignment
  pub error : String

pub record EventCall : Type 0 where
  pub event_id : String
  pub run_id : String
  pub lease_token : String
  pub kind : String
  pub payload : String

pub record ReserveCall : Type 0 where
  pub assignment : Assignment
  pub key : String
  pub hash : String
  pub request : CapabilityRequest

pub record FinishCall : Type 0 where
  pub assignment : Assignment
  pub reservation : CapabilityReservation
  pub result : CapabilityResult
  pub error : String

pub record InteractionCall : Type 0 where
  pub assignment : Assignment
  pub request : InteractionRequest

-- encoding/json for each body, and the number of a text's bytes. `first` keeps the first bytes of a
-- text, `message` is the body {"error": message} and `empty` the body {}.
pub record Wiring : Type 0 where
  pub registration : Codec NodeRegistration
  pub node : Codec Node
  pub assignment : Codec Assignment
  pub lease_update : Codec LeaseUpdate
  pub event : Codec EventCall
  pub completion : Codec Completion
  pub failure : Codec Failure
  pub reserve : Codec ReserveCall
  pub reservation : Codec CapabilityReservation
  pub finish : Codec FinishCall
  pub interaction_call : Codec InteractionCall
  pub interaction : Codec Interaction
  pub message : Codec String
  pub empty : String
  pub size_of : String → ℕ
  pub first : ℕ → String → String
  pub status_text : ℕ → String  -- Response.Status
  pub trim : String → String  -- strings.TrimSpace

-- err.Error() of the sentinel errors.
unfoldable pub text_of : Error → String
text_of not_found = "relay control plane: not found"
text_of no_assignment = "relay control plane: no matching assignment"
text_of invalid_lease = "relay control plane: invalid lease"
text_of invalid_transition = "relay control plane: invalid transition"
text_of run_cancelled = "relay control plane: run cancelled"
text_of incompatible_protocol = "relay control plane: incompatible protocol"
text_of idempotency_conflict = "relay: idempotency key reused for a different capability call"
text_of (other message) = message

-- The status that writeError gives an error.
unfoldable pub status_of : Error → ℕ
status_of not_found = 404
status_of no_assignment = 400
status_of invalid_lease = 401
status_of invalid_transition = 409
status_of run_cancelled = 410
status_of incompatible_protocol = 426
status_of idempotency_conflict = 400
status_of (other message) = 400

-- json.Encoder ends a value with a newline, and writes nothing of one that it cannot encode.
abbrev pub line_of : Option String → String
line_of none = ""
line_of (some text) = concat text "\n"

module _ (wiring : Wiring) where
  -- At most 8 MiB are read, of a request and of a response.
  abbrev pub is_large : String → Bool
  is_large text = ltb 8388608 (wiring.size_of text)

  abbrev pub limited : String → String
  limited text = if is_large text then wiring.first 8388608 text else text
