-- ===== src/Node/Local.antt =====
-- A node beside its control plane: the interface ControlPlane over the in-memory storage, as the
-- tests of node/ use it. The lease that a renewal sets is `ttl`; artifacts are not stored.
use realy.Common.{String, Option, none, some, List, ℤ}
use realy.Types.{Request}
use realy.Controlplane.Types.{Error, Result, ok, err, World}
use realy.Controlplane.State.{MemoryStorage}
use realy.Controlplane.Submission
use realy.Controlplane.Claiming
use realy.Controlplane.Reports
use realy.Controlplane.Completion
use realy.Controlplane.Records
use realy.Node.Plane.{ControlPlane}

abbrev pub error_in : {A S : Type 0} → Result A × S → Option Error × S
error_in (ok a, s) = (none, s)
error_in (err e, s) = (some e, s)

abbrev pub local_plane :
    World → (order : List String) → (blank : Request) → (ttl : ℤ) → ControlPlane MemoryStorage
local_plane w order blank ttl = record {
  register_node = Submission.register_node w;
  heartbeat = λ node_id s. Submission.heartbeat w node_id s;
  claim = λ node_id s. Claiming.claim w order order blank node_id ttl s;
  start = λ a s. error_in (Reports.start w a s);
  renew = λ a s. Reports.renew w a ttl s;
  append_event = λ run_id attempt_id lease kind value id s.
      error_in (Reports.append_event_call w run_id attempt_id lease kind value id s);
  complete = λ a result s. error_in (Completion.complete w a result s);
  fail = λ a cause s. error_in (Completion.fail w a cause s);
  acknowledge_cancellation = λ a s. error_in (Reports.acknowledge_cancellation w a s);
  upload_artifact = λ a artifact bytes s. (ok artifact, s);
  reserve_capability = λ a key hash request s. Records.reserve_capability w a key hash s;
  finish_capability = λ a reservation result cause s.
      error_in (Records.finish_capability w a reservation result cause s);
  create_interaction = λ a request s. Records.create_interaction w a request s;
  get_interaction = λ a id s. Records.get_interaction w a id s;
}
