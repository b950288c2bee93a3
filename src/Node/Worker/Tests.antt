-- ===== src/Node/Worker/Tests.antt =====
-- A worker that executes the fixture's run beside an in-memory control plane.
use realy.Common.{◌≡◌, refl, Option, none, some, [], ◌∷◌, inl, inr, pos}
use realy.Controlplane.Types.{nil}
use realy.Controlplane.State.{MemoryStorage, new_memory_storage}
use realy.Controlplane.Calls.{Call, perform_all}
use realy.Controlplane.Fixture.{opened, world, request, run_id, registration, result}
use realy.Node.Plane.{ControlPlane}
use realy.Node.Local.{local_plane}
use realy.Node.Lease.{keep_lease}
use realy.Node.Outbox.{sound, removable}
use realy.Node.Worker.{act_all, RunResult, Ran, succeeded, Act, Work, Worker}
use realy.Node.Worker.Once.{run_once, execute_work, upload_all, complete_run}
use realy.Node.Delivery.{deliver_event, retry, retry_from, retry_final_report}
use realy.Node.Worker.Outcomes.{IsOutcome, run_once_ends}

abbrev plane : ControlPlane MemoryStorage
plane = local_plane world (run_id ∷ []) request (pos 1000)

abbrev submitted_state : MemoryStorage
submitted_state =
    perform_all world (Call.register_node registration ∷ Call.submit request ∷ [])
      new_memory_storage

abbrev work : Work
work = record {
  acts = Act.emitted "progress" nil sound removable ∷ [];
  outcome = inr result;
  closing = [];
}

abbrev worker : Worker
worker = record {
  node_id = "n1";
  resolve = λ provider. some (λ a compiled. work);
  prepare = none;
  compile = λ input bundle. inr (record { stable = ""; prompt = "do it" });
  tool_instruction =
      λ grants. record { id = "capabilities"; version = "1"; title = ""; content = "" };
  open_file = λ path. inl "not found";
  outbox = none;
  size_of = λ bytes. 10;
  decimal = λ n. "1";
  unavailable = λ provider. "runtime provider is unavailable";
  error_text = λ e. "error";
}

run_once_ends_example :
    let (r, s') = run_once world plane (λ n. 1) worker [] submitted_state in
    IsOutcome world plane (λ n. 1) worker submitted_state r s'
run_once_ends_example = run_once_ends world plane (λ n. 1) worker [] submitted_state

abbrev result_of : Ran → Option RunResult
result_of (succeeded a value) = some value
result_of _ = none

-- The worker's run succeeds here, with its executor's result.
succeeds : result_of (run_once world plane (λ n. 1) worker [] submitted_state).0 ≡ some result
unfolding opened run_once execute_work act_all deliver_event retry retry_from upload_all
    complete_run retry_final_report keep_lease
succeeds = refl
