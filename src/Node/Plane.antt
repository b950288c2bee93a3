-- ===== src/Node/Plane.antt =====
-- node/worker.go: the interface ControlPlane, by which a node reaches the control plane, as a record
-- of methods on its state. A method that returns only an error gives `none` for nil.
use realy.Common.{String, Option}
use realy.Types.{
  RunResult, Artifact, CapabilityResult, CapabilityRequest, Interaction, InteractionRequest,
}
use realy.Controlplane.Types.{
  NodeRegistration, Node, Assignment, LeaseUpdate, CapabilityReservation, Error, Result, Payload,
}

pub record ControlPlane (S : Type 0) : Type 0 where
  pub register_node : NodeRegistration → S → Result Node × S
  pub heartbeat : String → S → Result Node × S
  pub claim : String → S → Result Assignment × S
  pub start : Assignment → S → Option Error × S
  pub renew : Assignment → S → Result LeaseUpdate × S
  pub append_event :
      (run_id attempt_id lease kind : String) → Payload → Option String → S → Option Error × S
  pub complete : Assignment → RunResult → S → Option Error × S
  pub fail : Assignment → String → S → Option Error × S
  pub acknowledge_cancellation : Assignment → S → Option Error × S
  pub upload_artifact : Assignment → Artifact → String → S → Result Artifact × S
  pub reserve_capability :
      Assignment → String → String → CapabilityRequest → S → Result CapabilityReservation × S
  pub finish_capability :
      Assignment → CapabilityReservation → CapabilityResult → String → S → Option Error × S
  pub create_interaction : Assignment → InteractionRequest → S → Result Interaction × S
  pub get_interaction : Assignment → String → S → Result Interaction × S
