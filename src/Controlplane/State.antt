-- ===== src/Controlplane/State.antt =====
-- controlplane/memory.go: the state of `MemoryStorage` and the steps that all its methods share.
-- A `*relay.Run` or `*Node` of the maps is the map's entry: what the code writes through the
-- pointer is written here by `save_run` and `insert`. The mutex makes each method one step.
use realy.Common.{
  ℕ, suc, ◌+◌, ◌-◌, String, none, some, List, [], ◌∷◌, ◌++◌, ltb, if◌then◌else◌, length, concat, ℤ,
  pos,
}
use realy.Common.Maps.{Map, lookup, lookup_or, insert}
use realy.Types.{Time, Run, Request, Event, Artifact, Attempt, Interaction, RetryPolicy}
use realy.Controlplane.Types.{Node, CapabilityReservation, Payload, nil, World}

pub record MemoryCapabilityCall : Type 0 where
  pub hash : String
  pub reservation : CapabilityReservation

-- `readings` and `draws` count the calls of `time.Now` and of the random source so far.
pub record MemoryStorage : Type 0 where
  pub nodes : Map Node
  pub runs : Map Run
  pub requests : Map Request
  pub events : Map (List Event)
  pub by_idempotency : Map String
  pub artifacts : Map Artifact
  pub artifact_runs : Map (List String)
  pub capability_calls : Map MemoryCapabilityCall
  pub attempt_history : Map (List Attempt)
  pub interactions : Map Interaction
  pub readings : ℕ
  pub draws : ℕ

unfoldable pub new_memory_storage : MemoryStorage
new_memory_storage = record {
  nodes = [];
  runs = [];
  requests = [];
  events = [];
  by_idempotency = [];
  artifacts = [];
  artifact_runs = [];
  capability_calls = [];
  attempt_history = [];
  interactions = [];
  readings = 0;
  draws = 0;
}

abbrev pub save_run : Run → MemoryStorage → MemoryStorage
save_run run s = record s { runs = insert run.id run s.runs }

abbrev pub events_of : String → MemoryStorage → List Event
events_of id s = lookup_or [] id s.events

module _ (w : World) where
  -- `time.Now().UTC()`
  abbrev pub now : MemoryStorage → Time
  now s = w.clock s.readings

  abbrev pub tick : MemoryStorage → MemoryStorage
  tick s = record s { readings = suc s.readings }

  -- `newControlPlaneID(prefix)`
  abbrev pub new_id : String → MemoryStorage → String
  new_id prefix s = concat prefix (concat "_" (w.random s.draws))

  abbrev pub draw : MemoryStorage → MemoryStorage
  draw s = record s { draws = suc s.draws }

  -- `data, _ := json.Marshal(value)`, and nil for a nil value
  abbrev pub encoded : Payload → String
  encoded nil = ""
  encoded value = elim (w.marshal value) [ none ↦ "" | some bytes ↦ bytes ]

  abbrev pub next_event : Run → String → Payload → MemoryStorage → Event
  next_event run kind value s = record {
    id = new_id "event" s;
    run_id = run.id;
    attempt_id = run.attempt.id;
    sequence = length (events_of run.id s) + 1;
    type_name = kind;
    payload = encoded value;
    created_at = now s;
  }

  unfoldable pub append_event : Run → String → Payload → MemoryStorage → MemoryStorage
  append_event run kind value s = record (tick (draw s)) {
    events = insert run.id (events_of run.id s ++ next_event run kind value s ∷ []) s.events;
  }

-- `retryBackoff`: the zero duration where the text is no duration
abbrev pub retry_backoff : World → RetryPolicy → ℤ
retry_backoff w policy = elim (w.parse_duration policy.backoff) [ none ↦ pos 0 | some d ↦ d ]

unfoldable pub released : Node → Node
released node = if ltb 0 node.active then record node { active = node.active - 1 } else node

unfoldable pub release_node : String → MemoryStorage → MemoryStorage
unfolding released
release_node node_id s = elim (lookup node_id s.nodes) [
  | none ↦ s
  | some node ↦ record s { nodes = insert node_id (released node) s.nodes }
]
