-- ===== src/Lib.antt =====
-- Verification of realy, a control plane that hands out runs of agents to nodes under leases.
--
-- Parts. Clients submit runs to the control plane; nodes register, send heartbeats, claim runs, renew
-- their leases and report events, artifacts, capability calls and results; the control plane's server
-- reconciles expired leases and deadlines from time to time. The same kind of run can be executed in
-- the caller's process by the embedded engine, whose executor makes capability calls under grants.
--
-- Files.
-- - Common (Tests, Text, Maps): Boolean tests on numbers, texts, and Go's maps with text keys.
-- - Types: the data model of types.go, field by field. Controlplane.Types: controlplane/types.go and
--   the error values.
-- - Controlplane.State: the record MemoryStorage of controlplane/memory.go, appendEvent, releaseNode,
--   newControlPlaneID. Controlplane.Runs: requeueExpired, finalizeCancellation, cancelRunLocked,
--   authorize. Controlplane.Matching: nodeMatches, RuntimeMatches. Controlplane.Submission:
--   RegisterNode, Heartbeat, Submit. Controlplane.Claiming: Claim. Controlplane.Reconciling:
--   Reconcile. Controlplane.Reports: Renew, CancelRun, AcknowledgeCancellation, Start, AppendEvent.
--   Controlplane.Completion: Complete, Fail. Controlplane.Records: artifacts, capability calls,
--   interactions, queries. Controlplane.Identity: controlplane/event.go.
-- - Controlplane.Listings: Nodes, Artifacts, Artifact, ListRuns, Interactions of the storage.
-- - Controlplane.Access: controlplane/access.go. Controlplane.Service: controlplane/service.go over any
--   storage (the record Storage); Service.InMemory: New, over a MemoryStorage; Service.Artifacts:
--   UploadArtifact and OpenArtifact; Service.Scoped, Service.Naming and Service.Checked: what scopes, a
--   node's runtime IDs and the checks give.
--   Controlplane.Blobs: MemoryBlobStore of controlplane/blob.go.
-- - Embedded.Store: store.go. Embedded.Engine: engine.go and id.go; Embedded.Outcomes: how an execution
--   ends. Embedded.Capability and Capability.Calling: capability.go; Capability.Grants and
--   Capability.Granted: what reaches the provider; Capability.Once: a call made again.
-- - Controlplane.Lifecycle: the abstract life of a run and its attempt as a relation, with the
--   storage's invariant (Lifecycle.Invariant); the other files of Controlplane/Lifecycle take the
--   methods to the relation, group by group.
-- - Controlplane.Calls: the methods as a data type of calls and histories of them; Calls.History and
--   Calls.Stranding: what holds of every history. Controlplane.Guarantees: single methods.
-- - Node.Plane: the interface ControlPlane of node/worker.go; Node.Local: it over a MemoryStorage.
--   Node.Delivery: the report loops of node/events.go and node/final.go; Node.Retrying: how they end.
-- - Node.Outbox: save, deliver and remove of node/outbox.go; Outbox.Recovery: Recover. Outbox.Kept,
--   Delivered, Recovered and Reread: what is stored, what is delivered, and what a recovery leaves.
-- - Node.Lease: keepLease and the interactions of node/worker.go (Lease.Bounds: its waits); Node.Worker
--   and Worker.Once: RunOnce; Worker.Reporting and Worker.Outcomes: how it ends.
-- - Http.Wire: requests, responses, error texts and status codes of transport/httpapi; Http.Handler:
--   a node's routes in handler.go; Http.Auth: auth.go; Http.Client: client.go. Http.Exchange: what the
--   client reads of the handler's answers; Http.Remote and Http.Answers: calls through client and
--   server against calls of the service; Http.Permission and Http.Admission: whose requests are
--   taken. Http.Stream: streamEvents and StreamEvents; Stream.Reading, Following and Finished: what the client handles.
-- - Binding: binding/registry.go and Register of node/worker.go; Binding.Routing: where requests go.
-- - Controlplane.Fixture: a concrete world, states and a history. Controlplane.Tests,
--   Controlplane.Service.Tests, Embedded.Tests, Node.Tests, Node.Outbox.Tests, Node.Worker.Tests,
--   Http.Tests, Http.Stream.Tests and Binding.Tests: the theorems at them.
--
-- How the code is modelled. A method is a function from the state to a result and the new state: the
-- mutex of MemoryStorage makes it one step. What the code writes through a pointer into a map is
-- written back to the map's entry. The record World gives the clock (its n-th reading), the random
-- source (its n-th draw), encoding/json, crypto/sha256, time.ParseDuration and the semver library as
-- functions; the state counts readings and draws. The order in which Go visits a map is an argument of
-- the method, any list of keys. An int is a natural number or the ℤ of Common.Tests where the code
-- takes negative values; no count comes near 2^63. All loops go over finite lists, but for the report
-- loops of the node: these have one round of fuel for each millisecond of the deadline, and each round
-- takes at least 100.
-- An executor is what it emits and then gives back; a provider and a compiler are functions. A
-- capability call is one step: one that waits for a running call of the same key is answered as still
-- running. sort.Slice, strings.TrimSpace and the length of bytes are arguments.
--
-- What an execution does beside the worker is the list of its acts in the order in which they reach the
-- node, and the rounds of the lease's keeper stand in that list. A directory is a map of files, and
-- what may go wrong in the file system is an argument. An error that wraps one of the control plane's
-- is that one: the text around it is not shown. encoding/json, ServeMux and the network are
-- parameters, as codecs, as paths that are lists of segments, and as a transport. A node's ID
-- that is empty or has only one or two dots is no segment of a path. The stream of events is its lines,
-- of which the client's scanner has room for those below 2 MiB; the server writes them in rounds, each
-- with the states that it reads.
--
-- Not modelled: the PostgreSQL storage (SQL run by a database), file and object storage, the other
-- routes of hosts, uploads over HTTP, the locks of the outbox's directory, RunPool (goroutines around
-- RunOnce), workspaces, instructions, what a binding calls, runtimes (child processes), the
-- commands and adapters.
mod Common
pub mod Types
pub mod Controlplane
pub mod Embedded
pub mod Node
pub mod Http
pub mod Binding
