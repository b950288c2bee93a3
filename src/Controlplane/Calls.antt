-- ===== src/Controlplane/Calls.antt =====
-- The storage of controlplane/memory.go under any sequence of calls: each method that can change the
-- state is a call, and the mutex makes a history a list of calls. The theorems are in the modules
-- below; a call's answer is left to the theorems about its method.
pub mod History
pub mod Stranding
use realy.Common.{String, Option, List, [], ◌∷◌, ℤ}
use realy.Types.{Time, Request, RunResult, Artifact, CapabilityResult, InteractionRequest}
use realy.Controlplane.Types.{
  NodeRegistration, Assignment, CancelRequest, CapabilityReservation, Payload, World,
}
use realy.Controlplane.State.{MemoryStorage}
use realy.Controlplane.Submission
use realy.Controlplane.Claiming
use realy.Controlplane.Reconciling
use realy.Controlplane.Reports
use realy.Controlplane.Completion
use realy.Controlplane.Records

-- Claim and Reconcile take the orders in which Go visits the runs.
pub data Call : Type 0 where
  register_node : NodeRegistration → Call
  heartbeat : (node_id : String) → Call
  submit : Request → Call
  claim : (order₁ order₂ : List String) (blank : Request) (node_id : String) (ttl : ℤ) → Call
  renew : Assignment → ℤ → Call
  reconcile : (order₁ order₂ : List String) (blank : Request) (t : Time) (limit : ℤ) → Call
  cancel_run : (run_id : String) → CancelRequest → Call
  acknowledge_cancellation : Assignment → Call
  start : Assignment → Call
  append_event : (run_id attempt_id lease kind : String) → Payload → Option String → Call
  complete : Assignment → RunResult → Call
  fail : Assignment → (cause : String) → Call
  add_artifact : Assignment → Artifact → Call
  reserve_capability : Assignment → (key hash : String) → Call
  finish_capability :
      Assignment → CapabilityReservation → CapabilityResult → (cause : String) → Call
  create_interaction : Assignment → InteractionRequest → Call
  get_interaction : Assignment → (id : String) → Call
  resolve_interaction : (id response tenant project : String) → Call

module _ (w : World) where
  -- The state after a call.
  unfoldable pub perform : Call → MemoryStorage → MemoryStorage
  perform (register_node registration) s = (Submission.register_node w registration s).1
  perform (heartbeat node_id) s = (Submission.heartbeat w node_id s).1
  perform (submit request) s = (Submission.submit w request s).1
  perform (claim order₁ order₂ blank node_id ttl) s =
      (Claiming.claim w order₁ order₂ blank node_id ttl s).1
  perform (renew a ttl) s = (Reports.renew w a ttl s).1
  perform (reconcile order₁ order₂ blank t limit) s =
      (Reconciling.reconcile w order₁ order₂ blank t limit s).1
  perform (cancel_run run_id request) s = (Reports.cancel_run w run_id request s).1
  perform (acknowledge_cancellation a) s = (Reports.acknowledge_cancellation w a s).1
  perform (start a) s = (Reports.start w a s).1
  perform (append_event run_id attempt_id lease kind value id) s =
      (Reports.append_event_call w run_id attempt_id lease kind value id s).1
  perform (complete a result) s = (Completion.complete w a result s).1
  perform (fail a cause) s = (Completion.fail w a cause s).1
  perform (add_artifact a artifact) s = (Records.add_artifact w a artifact s).1
  perform (reserve_capability a key hash) s = (Records.reserve_capability w a key hash s).1
  perform (finish_capability a reservation result cause) s =
      (Records.finish_capability w a reservation result cause s).1
  perform (create_interaction a request) s = (Records.create_interaction w a request s).1
  perform (get_interaction a id) s = (Records.get_interaction w a id s).1
  perform (resolve_interaction id response tenant project) s =
      (Records.resolve_interaction w id response tenant project s).1

  unfoldable pub perform_all : List Call → MemoryStorage → MemoryStorage
  perform_all [] s = s
  perform_all (call ∷ calls) s = perform_all calls (perform call s)
