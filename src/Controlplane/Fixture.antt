-- ===== src/Controlplane/Fixture.antt =====
-- A world, a node, a request and the histories that the examples run: the control plane's storage
-- from the registration of a node to the end of a run.
use realy.Common.{ℕ, suc, ◌≡◌, refl, String, true, false, Option, none, some, List, [], ◌∷◌, concat}
use realy.Common.Maps.{lookup, lookup_or, insert, total}
use realy.Types.{Run, RunStatus, RunResult, Request}
use realy.Controlplane.Types.{CancelRequest, NodeRegistration, Assignment, World}
use realy.Controlplane.State.{MemoryStorage, append_event, release_node}
use realy.Controlplane.Runs.{
  cancel_requested, requeue_expired, finalize_cancellation, cancel_run_locked, authorize,
  authorize_run, terminal_run,
}
use realy.Types.{RuntimeRequirement}
use realy.Common.{zero, pos, ◌*◌}
use mathlib.Core.Option
use realy.Controlplane.State.{new_memory_storage, released}
use realy.Controlplane.Matching.{
  runtime_matches, some_runtime, labels_match, offers, grants_match, node_matches,
}
use realy.Controlplane.Submission
use realy.Controlplane.Submission.{store_request, create_run, new_run}
use realy.Controlplane.Claiming
use realy.Controlplane.Claiming.{
  leased_run, sweep_timeout, sweep_lease, sweep_run, sweep, is_claimable, lease_run, pick,
  claim_swept,
}
use realy.Controlplane.Reconciling
use realy.Controlplane.Reconciling.{
  is_abandoned, retry_run, exhaust_run, lose_attempt, expire_run, expire_all, recover_run,
  recover_all,
}
use realy.Controlplane.Identity.{event_identity, same_event, same_result}
use realy.Controlplane.Reports
use realy.Controlplane.Reports.{
  renew_run, acknowledge_run, begin_run, start_checked, start_run, find_event, name_last,
  report_event, same_or_refuse, append_run_event,
}
use realy.Controlplane.Completion
use realy.Controlplane.Completion.{
  repeat_completion, commit_completion, complete_run, commit_failure, fail_run,
}
use realy.Controlplane.Calls.{Call, perform, perform_all}

-- Opens the storage's methods for an example that runs them.
unfoldable pub opened : Unit {0}
unfolding perform perform_all lookup insert lookup_or total append_event released release_node
    new_memory_storage terminal_run requeue_expired finalize_cancellation cancel_run_locked
    authorize_run authorize runtime_matches some_runtime labels_match offers grants_match
    node_matches Submission.register_node Submission.heartbeat store_request create_run
    Submission.submit sweep_timeout sweep_lease sweep_run sweep is_claimable lease_run pick
    claim_swept Claiming.claim is_abandoned retry_run exhaust_run lose_attempt expire_run expire_all
    recover_run recover_all Reconciling.reconcile event_identity same_event same_result renew_run
    Reports.renew Reports.cancel_run acknowledge_run Reports.acknowledge_cancellation begin_run
    start_checked start_run Reports.start find_event name_last report_event same_or_refuse
    append_run_event Reports.append_event_call repeat_completion commit_completion complete_run
    Completion.complete commit_failure fail_run Completion.fail
opened = tt

abbrev tally : ℕ → String
tally zero = ""
tally (suc n) = concat "x" (tally n)

-- The clock goes on by ten at each reading, and no draw repeats another.
abbrev pub world : World
world = record {
  clock = λ n. n * 10;
  random = tally;
  marshal = λ value. some "{}";
  canonical = λ bytes. some bytes;
  sha256_hex = λ bytes. bytes;
  parse_duration = λ bytes. none;
  is_version = λ bytes. true;
  satisfies = λ version constraint. true;
}

abbrev pub runtime_need : RuntimeRequirement
runtime_need = record { id = ""; provider = "codex"; model = ""; version = ""; labels = [] }

abbrev pub request : Request
request = record {
  tenant_id = "t";
  project_id = "p";
  session_id = "";
  agent_id = "agent";
  idempotency_key = "key";
  runtime = runtime_need;
  source = record { kind = "issue"; external_id = "1"; url = ""; metadata = "" };
  input = record { type_name = "text"; version = "1"; prompt = "do it"; payload = "" };
  instructions = record { runtime = []; host = []; workspace = []; agent = []; turn = [] };
  context = [];
  capabilities = [];
  principal = record { type_name = "user"; id = "u"; accountable_id = "" };
  retry = record { max_attempts = pos 2; backoff = "" };
  timeout = "";
  workspace = record { kind = ""; source = ""; ref = ""; subdir = ""; ephemeral = false };
}

abbrev pub registration : NodeRegistration
registration = record {
  id = "n1";
  version = "";
  protocol_version = "1";
  labels = [];
  runtimes =
      record {
        id = "n1/codex";
        provider = "codex";
        version = "";
        state = "";
        message = "";
        default_model = "";
        models = [];
        model_catalog = [];
        checked_at = none;
      }
      ∷ [];
  capabilities = [];
  capacity = pos 1;
}

abbrev pub run_id : String
run_id = "run_"

-- The assignment that the claim below gives out: a lease until 1000 after the claim.
abbrev pub assignment : Assignment
assignment = record {
  run_id = "run_";
  attempt_id = "attempt_x";
  lease_token = "lease_xxxx";
  lease_expires_at = 1040;
  request = request;
}

abbrev pub result : RunResult
result = record { summary = "done"; output = ""; artifacts = [] }

abbrev pub claimed : List Call
claimed =
    Call.register_node registration
    ∷ Call.submit request
    ∷ Call.claim (run_id ∷ []) (run_id ∷ []) request "n1" (pos 1000)
    ∷ []

abbrev pub claimed_state : MemoryStorage
claimed_state = perform_all world claimed new_memory_storage

abbrev pub stored : MemoryStorage → Option Run
stored s = lookup run_id s.runs

claimed_lease :
    Option.map (λ (r : Run). r.attempt.lease_token) (stored claimed_state) ≡ some "lease_xxxx"
unfolding opened
claimed_lease = refl

-- The run as the claim leaves it.
abbrev pub claimed_run : Run
claimed_run = leased_run (new_run world request "run_" "attempt_x" 10) "n1" "lease_xxxx" 1040

pub claimed_stored : lookup run_id claimed_state.runs ≡ some claimed_run
unfolding opened
claimed_stored = refl

-- A cancellation is asked for while the attempt is leased.
abbrev pub cancel_request : CancelRequest
cancel_request = record { reason = "stop"; requested_by = "user" }

abbrev pub cancelling_state : MemoryStorage
cancelling_state = perform world (Call.cancel_run run_id cancel_request) claimed_state

abbrev pub cancelling_run : Run
cancelling_run = record (cancel_requested claimed_run cancel_request 60) {
  status = RunStatus.cancelling;
}

pub cancelling_stored : lookup run_id cancelling_state.runs ≡ some cancelling_run
unfolding opened
cancelling_stored = refl

-- The same state, long after the lease ran out.
abbrev pub late_state : MemoryStorage
late_state = record cancelling_state { readings = 200 }

abbrev pub started_state : MemoryStorage
started_state = perform world (Call.start assignment) claimed_state

abbrev pub begun_run : Run
begun_run = Reports.started_run claimed_run 80

pub started_stored : lookup run_id started_state.runs ≡ some begun_run
unfolding opened
started_stored = refl

abbrev pub completed_state : MemoryStorage
completed_state = perform world (Call.complete assignment result) started_state

abbrev pub completed_run : Run
completed_run = Reports.succeeded_run begun_run result 120

pub completed_stored : lookup run_id completed_state.runs ≡ some completed_run
unfolding opened
completed_stored = refl
