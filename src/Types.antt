-- ===== src/Types.antt =====
-- The data model shared by the embedded engine, the control plane and the nodes (types.go).
-- Texts are `String`; a `json.RawMessage` is its bytes, the empty text for a nil message. A time is
-- the number of nanoseconds since Go's zero time, and a duration is an `ℤ` of nanoseconds.
use realy.Common.{ℕ, ◌+◌, ◌-◌, String, Option, Bool, true, false, List, ℤ, pos, negsuc}
use realy.Common.Maps.{Map}

abbrev pub Time : Type 0
Time = ℕ

-- `t.Add(d)`; a duration has at most 2^63 nanoseconds, 292 years, so with the clock past the
-- year 293 the subtraction is never cut off at 0.
abbrev pub add_duration : Time → ℤ → Time
add_duration t (pos n) = t + n
add_duration t (negsuc n) = t - (n + 1)

pub data RunStatus : Type 0 where
  queued running cancelling cancelled succeeded failed : RunStatus

pub data AttemptStatus : Type 0 where
  queued leased running succeeded failed lost cancelled : AttemptStatus

pub record WorkspaceSpec : Type 0 where
  pub kind : String
  pub source : String
  pub ref : String
  pub subdir : String
  pub ephemeral : Bool

pub record RetryPolicy : Type 0 where
  pub max_attempts : ℤ
  pub backoff : String

pub record RuntimeRequirement : Type 0 where
  pub id : String
  pub provider : String
  pub model : String
  pub version : String
  pub labels : Map String

pub record Source : Type 0 where
  pub kind : String
  pub external_id : String
  pub url : String
  pub metadata : String

pub record Input : Type 0 where
  pub type_name : String
  pub version : String
  pub prompt : String
  pub payload : String

pub record InstructionFragment : Type 0 where
  pub id : String
  pub version : String
  pub title : String
  pub content : String

pub record InstructionBundle : Type 0 where
  pub runtime : List InstructionFragment
  pub host : List InstructionFragment
  pub workspace : List InstructionFragment
  pub agent : List InstructionFragment
  pub turn : List InstructionFragment

pub record CompiledInstructions : Type 0 where
  pub stable : String
  pub prompt : String

pub record ContextItem : Type 0 where
  pub type_name : String
  pub version : String
  pub external_id : String
  pub revision : String
  pub captured_at : Time
  pub payload : String

pub record Principal : Type 0 where
  pub type_name : String
  pub id : String
  pub accountable_id : String

pub record CapabilityGrant : Type 0 where
  pub name : String
  pub version : String
  pub effect : String
  pub resources : List String

pub record CapabilityCall : Type 0 where
  pub name : String
  pub version : String
  pub idempotency_key : String
  pub resource : String
  pub input : String

pub record CapabilityRequest : Type 0 where
  pub call_id : String
  pub run_id : String
  pub agent_id : String
  pub principal : Principal
  pub name : String
  pub version : String
  pub effect : String
  pub resource : String
  pub input : String

pub record CapabilityResult : Type 0 where
  pub call_id : String
  pub output : String

pub record Artifact : Type 0 where
  pub id : String
  pub run_id : String
  pub type_name : String
  pub ref : String
  pub name : String
  pub content_type : String
  pub size : ℕ
  pub sha256 : String

pub record RunResult : Type 0 where
  pub summary : String
  pub output : String
  pub artifacts : List Artifact

pub record Request : Type 0 where
  pub tenant_id : String
  pub project_id : String
  pub session_id : String
  pub agent_id : String
  pub idempotency_key : String
  pub runtime : RuntimeRequirement
  pub source : Source
  pub input : Input
  pub instructions : InstructionBundle
  pub context : List ContextItem
  pub capabilities : List CapabilityGrant
  pub principal : Principal
  pub retry : RetryPolicy
  pub timeout : String
  pub workspace : WorkspaceSpec

pub record Attempt : Type 0 where
  pub id : String
  pub number : ℕ
  pub node_id : String
  pub lease_token : String
  pub lease_expires_at : Option Time
  pub available_at : Option Time
  pub status : AttemptStatus
  pub started_at : Option Time
  pub completed_at : Option Time

pub record Run : Type 0 where
  pub id : String
  pub tenant_id : String
  pub project_id : String
  pub session_id : String
  pub agent_id : String
  pub idempotency_key : String
  pub runtime : RuntimeRequirement
  pub source : Source
  pub status : RunStatus
  pub attempt : Attempt
  pub result : Option RunResult
  pub error : String
  pub created_at : Time
  pub started_at : Option Time
  pub completed_at : Option Time
  pub deadline_at : Option Time
  pub cancel_requested_at : Option Time
  pub cancel_reason : String
  pub cancelled_at : Option Time

pub record Event : Type 0 where
  pub id : String
  pub run_id : String
  pub attempt_id : String
  pub sequence : ℕ
  pub type_name : String
  pub payload : String
  pub created_at : Time

pub data InteractionKind : Type 0 where
  input approval : InteractionKind
  other_kind : String → InteractionKind

pub record InteractionRequest : Type 0 where
  pub kind : InteractionKind
  pub prompt : String
  pub payload : String

pub record Interaction : Type 0 where
  pub id : String
  pub run_id : String
  pub attempt_id : String
  pub kind : InteractionKind
  pub state : String
  pub prompt : String
  pub payload : String
  pub response : String
  pub created_at : Time
  pub resolved_at : Option Time

-- The tests `status == relay.RunQueued` and the like, which the code writes in place.
abbrev pub is_status : RunStatus → RunStatus → Bool
is_status RunStatus.queued RunStatus.queued = true
is_status RunStatus.running RunStatus.running = true
is_status RunStatus.cancelling RunStatus.cancelling = true
is_status RunStatus.cancelled RunStatus.cancelled = true
is_status RunStatus.succeeded RunStatus.succeeded = true
is_status RunStatus.failed RunStatus.failed = true
is_status _ _ = false

abbrev pub in_state : AttemptStatus → AttemptStatus → Bool
in_state AttemptStatus.queued AttemptStatus.queued = true
in_state AttemptStatus.leased AttemptStatus.leased = true
in_state AttemptStatus.running AttemptStatus.running = true
in_state AttemptStatus.succeeded AttemptStatus.succeeded = true
in_state AttemptStatus.failed AttemptStatus.failed = true
in_state AttemptStatus.lost AttemptStatus.lost = true
in_state AttemptStatus.cancelled AttemptStatus.cancelled = true
in_state _ _ = false
