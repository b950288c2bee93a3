-- ===== src/Controlplane/Service/InMemory.antt =====
-- controlplane/service.go: New, the Service over a MemoryStorage. The orders in which Go visits the
-- runs, nodes and interactions, and sort.Slice, are arguments.
use realy.Common.{Bool, String, List}
use realy.Types.{Run, Artifact, Interaction, Request}
use realy.Controlplane.Types.{World}
use realy.Controlplane.State.{MemoryStorage}
use realy.Controlplane.Submission
use realy.Controlplane.Reconciling
use realy.Controlplane.Reports
use realy.Controlplane.Records
use realy.Controlplane.Listings
use realy.Controlplane.Service.{Storage}

pub record Visits : Type 0 where
  pub expiring : List String
  pub recovering : List String
  pub of_nodes : List String
  pub of_runs : List String
  pub of_interactions : List String
  pub sort_runs : (Run → Run → Bool) → List Run → List Run
  pub sort_interactions : (Interaction → Interaction → Bool) → List Interaction → List Interaction
  pub no_request : Request
  pub no_artifact : Artifact

unfoldable pub memory_storage : World → Visits → Storage MemoryStorage
memory_storage w visits = record {
  register_node = Submission.register_node w;
  submit = Submission.submit w;
  reconcile = Reconciling.reconcile w visits.expiring visits.recovering visits.no_request;
  cancel_run = Reports.cancel_run w;
  get_run = Records.get_run;
  events = Records.events;
  events_after = Records.events_after;
  nodes = Listings.nodes visits.of_nodes;
  add_artifact = Records.add_artifact w;
  artifacts = Listings.artifacts visits.no_artifact;
  artifact = Listings.artifact;
  list_runs = Listings.list_runs visits.sort_runs visits.of_runs;
  attempts = Records.attempts;
  create_interaction = Records.create_interaction w;
  interactions = Listings.interactions visits.sort_interactions visits.of_interactions;
  resolve_interaction = Records.resolve_interaction w;
}
