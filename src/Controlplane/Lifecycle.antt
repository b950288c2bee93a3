-- ===== src/Controlplane/Lifecycle.antt =====
-- The life of a run in the storage of controlplane/memory.go, as a relation of its own: which
-- changes of a stored run the methods may make, and what a change does to nodes and events.
pub mod Invariant
pub mod Moving
pub mod Changes
pub mod Authorizing
pub mod Reporting
pub mod Completing
pub mod Recording
pub mod Scheduling
pub mod Claims
pub mod Recovery
use realy.Common.{
  ℕ, suc, ◌+◌, ◌-◌, ◌≤◌, ◌<◌, ◌≡◌, ◌≢◌, String, Bool, true, false, not, ◌&&◌, ◌||◌, Option, none,
  some, List, [], ◌∷◌, ◌++◌, if◌then◌else◌, is_some, ◌==◌, length, ℤ, le_nat,
}
use realy.Common.Maps.{Map, lookup, insert, total}
use realy.Types.{Time, Run, RunStatus, Attempt, AttemptStatus, Event, RunResult}
use realy.Controlplane.Types.{Node, CancelRequest}
use realy.Controlplane.State.{MemoryStorage, events_of}
use realy.Controlplane.Runs.{requeued, cancelled, cancel_requested, terminal_run}
use realy.Controlplane.Claiming.{leased_run}
use realy.Controlplane.Reconciling.{lost_run, exhausted_run, retried_run}
use realy.Controlplane.Reports.{started_run, succeeded_run, failed_run}

abbrev pub is_active : AttemptStatus → Bool
is_active AttemptStatus.leased = true
is_active AttemptStatus.running = true
is_active _ = false

-- One step of a run's life. `cancelling` with a queued attempt has no step out of it.
pub data Transition (run : Run) : Run → Type 0 where
  lease :
      (node token : String) (t : Time)
      → run.status ≡ RunStatus.queued
      → run.attempt.status ≡ AttemptStatus.queued
      → Transition run (leased_run run node token t)
  renew :
      (t : Time)
      → is_active run.attempt.status ≡ true
      → Transition run (record run { attempt = record (run.attempt) { lease_expires_at = some t } })
  requeue : run.attempt.status ≡ AttemptStatus.leased → Transition run (requeued run)
  begin :
      (t : Time)
      → run.attempt.status ≡ AttemptStatus.leased
      → run.status ≢ RunStatus.cancelling
      → Transition run (started_run run t)
  succeed :
      (result : RunResult) (t : Time)
      → run.attempt.status ≡ AttemptStatus.running
      → run.status ≢ RunStatus.cancelling
      → Transition run (succeeded_run run result t)
  fail :
      (cause : String) (t : Time)
      → is_active run.attempt.status ≡ true
      → run.status ≢ RunStatus.cancelling
      → Transition run (failed_run run cause t)
  ask :
      (request : CancelRequest) (t : Time)
      → terminal_run run.status ≡ false
      → run.cancel_requested_at ≡ none
      → run.attempt.status ≢ AttemptStatus.queued
      → Transition run (record (cancel_requested run request t) { status = RunStatus.cancelling })
  drop :
      (request : CancelRequest) (t : Time)
      → terminal_run run.status ≡ false
      → run.cancel_requested_at ≡ none
      → run.attempt.status ≡ AttemptStatus.queued
      → Transition run (cancelled (cancel_requested run request t) t)
  cancel :
      (t : Time)
      → run.status ≡ RunStatus.cancelling
      → is_active run.attempt.status ≡ true
      → Transition run (cancelled run t)
  exhaust :
      (t : Time)
      → run.status ≡ RunStatus.running
      → run.attempt.status ≡ AttemptStatus.running
      → Transition run (exhausted_run (lost_run run t) t)
  retry :
      (id : String) (t : Time)
      → run.status ≡ RunStatus.running
      → run.attempt.status ≡ AttemptStatus.running
      → Transition run (retried_run (lost_run run t) id t)

pub data Reach (run : Run) : Run → Type 0 where
  here : Reach run run
  next : {middle last : Run} → Reach run middle → Transition middle last → Reach run last

-- The attempts that a node works on, counted by the node and by the runs.
unfoldable pub active_of : String → Map Node → ℕ
active_of node_id nodes = elim (lookup node_id nodes) [ none ↦ 0 | some node ↦ node.active ]

unfoldable pub holds : String → Run → ℕ
holds node_id run = if is_active run.attempt.status && run.attempt.node_id == node_id then 1 else 0

-- The new events continue the numbers of the old ones.
abbrev pub NumberedFrom : ℕ → List Event → Type 0
NumberedFrom n [] = Unit {0}
NumberedFrom n (event ∷ events) = (event.sequence ≡ suc n) × NumberedFrom (suc n) events

-- Every run's events are those from before, and new ones behind them that go on in number.
abbrev pub Logged : MemoryStorage → MemoryStorage → Type 0
Logged s s' =
    (id : String)
    → (new : List Event) × (events_of id s' ≡ events_of id s ++ new)
      × NumberedFrom (length (events_of id s)) new

-- No stored run changes.
pub record Quiet (s s' : MemoryStorage) : Type 0 where
  pub runs : s'.runs ≡ s.runs
  pub nodes : (m : String) → m ≢ "" → active_of m s'.nodes ≡ active_of m s.nodes
  pub log : Logged s s'

-- The stored run `run` becomes `run'`, and each node's count goes with it.
pub record Moves (run run' : Run) (s s' : MemoryStorage) : Type 0 where
  pub runs : s'.runs ≡ insert run.id run' s.runs
  pub nodes :
      (m : String)
      → m ≢ ""
      → active_of m s'.nodes ≡ active_of m s.nodes + holds m run' - holds m run
  pub log : Logged s s'

abbrev pub IsFresh : Run → Type 0
IsFresh run =
    (run.status ≡ RunStatus.queued)
    × (run.attempt.status ≡ AttemptStatus.queued)
    × (run.attempt.node_id ≡ "")
    × (run.attempt.lease_token ≡ "")
    × (run.attempt.lease_expires_at ≡ none)

pub data Step (s : MemoryStorage) : MemoryStorage → Type 0 where
  quiet : {s' : MemoryStorage} → Quiet s s' → Step s s'
  move :
      (run run' : Run) {s' : MemoryStorage}
      → lookup run.id s.runs ≡ some run
      → Transition run run'
      → Moves run run' s s'
      → Step s s'
  -- a new run under a new ID
  add :
      (run : Run) {s' : MemoryStorage}
      → lookup run.id s.runs ≡ none
      → IsFresh run
      → s'.runs ≡ insert run.id run s.runs
      → ((m : String) → m ≢ "" → active_of m s'.nodes ≡ active_of m s.nodes)
      → Logged s s'
      → Step s s'

pub data Steps (s : MemoryStorage) : MemoryStorage → Type 0 where
  stay : Steps s s
  more : {s' s'' : MemoryStorage} → Steps s s' → Step s' s'' → Steps s s''
