-- ===== src/Controlplane/Types.antt =====
-- Nodes, assignments and the control plane's errors (controlplane/types.go, and the error values
-- of controlplane/service.go and capability.go), and what the storage takes from outside.
use realy.Common.{ℕ, String, Option, Bool, List, ℤ}
use realy.Common.Maps.{Map}
use realy.Types.{Time, RunStatus, Request, RunResult, Artifact, Interaction, CapabilityResult}

pub record RuntimeModel : Type 0 where
  pub id : String
  pub display_name : String
  pub description : String
  pub default : Bool

pub record Runtime : Type 0 where
  pub id : String
  pub provider : String
  pub version : String
  pub state : String
  pub message : String
  pub default_model : String
  pub models : List String
  pub model_catalog : List RuntimeModel
  pub checked_at : Option Time

pub record Capability : Type 0 where
  pub name : String
  pub version : String
  pub kind : String

pub record NodeRegistration : Type 0 where
  pub id : String
  pub version : String
  pub protocol_version : String
  pub labels : Map String
  pub runtimes : List Runtime
  pub capabilities : List Capability
  pub capacity : ℤ

pub record Node : Type 0 where
  pub registration : NodeRegistration
  pub active : ℕ
  pub last_seen : Time
  pub state : String

pub record Assignment : Type 0 where
  pub run_id : String
  pub attempt_id : String
  pub lease_token : String
  pub lease_expires_at : Time
  pub request : Request

pub record LeaseUpdate : Type 0 where
  pub lease_expires_at : Time
  pub cancel_requested : Bool
  pub cancel_reason : String

pub record CancelRequest : Type 0 where
  pub reason : String
  pub requested_by : String

pub record CapabilityReservation : Type 0 where
  pub call_id : String
  pub execute : Bool
  pub result : Option CapabilityResult
  pub error : String

-- The error values, compared by `errors.Is`; `other` is an error of another origin.
pub data Error : Type 0 where
  not_found no_assignment invalid_lease invalid_transition run_cancelled incompatible_protocol :
      Error
  idempotency_conflict : Error
  other : String → Error

-- A value and an error: where the error is not nil, no caller reads the value.
pub data Result (A : Type 0) : Type 0 where
  ok : A → Result A
  err : Error → Result A

-- What `appendEvent` is given as the event's data, before `json.Marshal`.
pub data Scalar : Type 0 where
  text : String → Scalar
  number : ℕ → Scalar
  time : Time → Scalar
  status : RunStatus → Scalar

pub data Payload : Type 0 where
  nil : Payload
  fields : List (String × Scalar) → Payload
  of_result : RunResult → Payload
  of_artifact : Artifact → Payload
  of_interaction : Interaction → Payload
  of_cancel : CancelRequest → Payload
  raw : String → Payload

-- The clock, the random source and the library functions. `clock n` is the n-th reading of
-- `time.Now().UTC()` and `random n` the n-th draw of twelve bytes, in hexadecimal.
pub record World : Type 0 where
  pub clock : ℕ → Time
  pub random : ℕ → String
  pub marshal : Payload → Option String  -- `json.Marshal`
  pub canonical : String → Option String  -- decoded with `UseNumber`, and marshalled again
  pub sha256_hex : String → String
  pub parse_duration : String → Option ℤ  -- `time.ParseDuration`
  pub is_version : String → Bool  -- `semver.NewVersion` returns no error
  pub satisfies : String → String → Bool  -- a version, a constraint: it parses, and `Check`
