-- ===== src/Node/Worker.antt =====
-- node/worker.go: RunOnce. What an execution does is its acts in the order in which they reach the
-- node: the events that it emits, the renewals of the keeper beside it, and the capability calls and
-- interactions that it makes; then its result or error. The renewals that come during the last
-- report are taken right after it. The clean-up of a workspace, whose error is dropped, is not shown.
pub mod Once
pub mod Reporting
pub mod Outcomes
mod Tests
use realy.Common.{
  ℕ, suc, String, Bool, true, false, not, ◌||◌, ◌&&◌, Option, none, some, List, [], ◌∷◌, ◌++◌, ◌==◌,
  if◌then◌else◌, concat, ◌⊎◌, inl, inr,
}
use realy.Types.{
  Time, Request, Input, InstructionBundle, InstructionFragment, CompiledInstructions,
  CapabilityGrant, RunResult, Artifact, CapabilityRequest, CapabilityResult, InteractionRequest,
  WorkspaceSpec,
}
use realy.Controlplane.Types.{
  Assignment, CapabilityReservation, Error, not_found, no_assignment, invalid_lease,
  invalid_transition, run_cancelled, incompatible_protocol, idempotency_conflict, other, Result, ok,
  err, Payload, World,
}
use realy.Node.Plane.{ControlPlane}
use realy.Node.Delivery.{retry_final_report, deliver_event}
use realy.Node.Outbox.{OutboxOptions, Disk, DiskFault, RemoveFault, append_try, deliver}
use realy.Node.Outbox.Recovery.{is_run_cancelled}
use realy.Node.Lease.{LeaseEnd, Tick, keep_round, keep_lease, request_interaction}

-- An event carries what goes wrong on the disk.
pub data Act : Type 0 where
  emitted : (kind : String) → Payload → DiskFault → RemoveFault → Act
  renewed : Tick → Act
  reserved : (key hash : String) → CapabilityRequest → Act
  finished : CapabilityReservation → CapabilityResult → (cause : String) → Act
  asked : InteractionRequest → List Bool → Act

pub record Work : Type 0 where
  pub acts : List Act
  pub outcome : String ⊎ RunResult
  pub closing : List Tick

-- What RunOnce gives back: the joined errors, or a run.
pub data Ran : Type 0 where
  failed : List Error → Ran
  cancelled : Assignment → Ran
  succeeded : Assignment → RunResult → Ran

pub record Worker : Type 0 where
  pub node_id : String
  pub resolve : String → Option (Assignment → CompiledInstructions → Work)
  pub prepare : Option (String → String → WorkspaceSpec → Option String)  -- an error's text
  pub compile : Input → InstructionBundle → String ⊎ CompiledInstructions
  pub tool_instruction : List CapabilityGrant → InstructionFragment
  pub open_file : String → String ⊎ String  -- an error's text, or the bytes
  pub outbox : Option OutboxOptions
  pub size_of : String → ℕ
  pub decimal : ℕ → String  -- fmt.Sprint
  pub unavailable : String → String  -- the message for a provider
  pub error_text : Error → String

pub record Execution (S : Type 0) : Type 0 where
  pub plane_state : S
  pub disk : Disk
  pub event_error : Option Error
  pub sequence : ℕ
  pub keeper : LeaseEnd ⊎ Time

abbrev pub listed : Option Error → List Error
listed none = []
listed (some e) = e ∷ []

abbrev pub is_cancelled_error : Option Error → Bool
is_cancelled_error none = false
is_cancelled_error (some e) = is_run_cancelled e

abbrev pub is_cancelled_end : LeaseEnd ⊎ Time → Bool
is_cancelled_end (inl (LeaseEnd.cancelled reason)) = true
is_cancelled_end _ = false

-- What stopLease gives back of the keeper, which ends without an error when it is stopped.
abbrev pub lease_errors : LeaseEnd ⊎ Time → List Error
lease_errors (inl (LeaseEnd.cancelled reason)) = run_cancelled ∷ []
lease_errors (inl (LeaseEnd.lost none)) = other "relay node: assignment lease lost" ∷ []
lease_errors (inl (LeaseEnd.lost (some e))) = other "relay node: assignment lease lost" ∷ []
lease_errors _ = []

-- An answer to AcknowledgeCancellation that does not stop the worker.
abbrev pub is_acknowledged : Option Error → Bool
is_acknowledged none = true
is_acknowledged (some invalid_transition) = true
is_acknowledged (some _) = false

-- The text of errors.Join: one line for each.
abbrev pub joined_text : (Error → String) → List Error → String
joined_text text [] = ""
joined_text text (e ∷ []) = text e
joined_text text (e ∷ e' ∷ errors) = concat (text e) (concat "\n" (joined_text text (e' ∷ errors)))

module _ {S : Type 0} (w : World) (plane : ControlPlane S) (took : ℕ → ℕ) (worker : Worker) where
  abbrev pub send_try : Assignment → String → String → String → ℕ → S → (Option Error × ℕ) × S
  send_try a id kind payload n s =
      let (answer, s') =
        plane.append_event a.run_id a.attempt_id a.lease_token kind (Payload.raw payload) (some id)
          s in
      ((answer, took n), s')

  abbrev pub deliver_by :
      Option OutboxOptions
      → DiskFault
      → RemoveFault
      → Assignment
      → String
      → String
      → Payload
      → Disk
      → S
      → Option Error × Disk × S
  deliver_by (some options) fault gone a id kind value disk s =
      deliver w options plane took fault gone a id kind value disk s
  deliver_by none fault gone a id kind value disk s =
      let (e, s') = deliver_event w worker.size_of (send_try a id kind) value s in (e, disk, s')

  -- The `emit` of RunOnce: nothing more is sent after an event that could not be delivered.
  abbrev pub emit_after :
      Option Error
      → Assignment
      → String
      → Payload
      → DiskFault
      → RemoveFault
      → Execution S
      → Execution S
  emit_after (some e) a kind value fault gone x = x
  emit_after none a kind value fault gone x =
      let (e, disk, s) =
        deliver_by worker.outbox fault gone a (worker.decimal (suc x.sequence)) kind value x.disk
          x.plane_state in
      record {
        plane_state = s;
        disk = disk;
        event_error = e;
        sequence = suc x.sequence;
        keeper = x.keeper;
      }

  abbrev pub renew_by : LeaseEnd ⊎ Time → Assignment → Tick → Execution S → Execution S
  renew_by (inl end) a tick x = x
  renew_by (inr deadline) a tick x =
      let (keeper, s) = keep_round plane a tick deadline x.plane_state in
      record x { plane_state = s; keeper = keeper }

  abbrev pub act : Assignment → Act → Execution S → Execution S
  act a (Act.emitted kind value fault gone) x = emit_after x.event_error a kind value fault gone x
  act a (Act.renewed tick) x = renew_by x.keeper a tick x
  act a (Act.reserved key hash request) x = record x {
    plane_state = (plane.reserve_capability a key hash request x.plane_state).1;
  }
  act a (Act.finished reservation result cause) x = record x {
    plane_state = (plane.finish_capability a reservation result cause x.plane_state).1;
  }
  act a (Act.asked request polls) x = record x {
    plane_state = (request_interaction plane a request polls x.plane_state).1;
  }

  unfoldable pub act_all : Assignment → List Act → Execution S → Execution S
  act_all a [] x = x
  act_all a (first ∷ rest) x = act_all a rest (act a first x)
