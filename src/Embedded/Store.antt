-- ===== src/Embedded/Store.antt =====
-- store.go: the MemoryStore of the embedded engine. The mutex makes each method one step.
use realy.Common.{◌+◌, String, Option, none, some, List, [], ◌∷◌, ◌++◌, length, join_nul}
use realy.Common.Maps.{Map, lookup, lookup_or, insert}
use realy.Types.{Run, Event}

pub record MemoryStore : Type 0 where
  pub runs : Map Run
  pub by_request : Map String
  pub events : Map (List Event)

unfoldable pub new_memory_store : MemoryStore
new_memory_store = record { runs = []; by_request = []; events = [] }

abbrev pub request_key : Run → String
request_key run = join_nul run.tenant_id (join_nul run.project_id run.idempotency_key)

-- What Create answers: the run with `true`, or what the index's run is stored as with `false`.
pub data Created : Type 0 where
  created : MemoryStore → Created
  existing : Option Run → Created

abbrev pub stored_at : Run → MemoryStore → MemoryStore
stored_at run s = record s { runs = insert run.id run s.runs }

abbrev pub create_under : Option String → Run → MemoryStore → Created
create_under (some id) run s = existing (lookup id s.runs)
create_under none run s =
    created (record (stored_at run s) { by_request = insert (request_key run) run.id s.by_request })

unfoldable pub create : Run → MemoryStore → Created
create run s = create_under (lookup (request_key run) s.by_request) run s

-- `none` is ErrRunNotFound.
abbrev pub only_stored : {A : Type 0} → Option Run → A → Option A
only_stored none a = none
only_stored (some run) a = some a

unfoldable pub update : Run → MemoryStore → Option MemoryStore
update run s = only_stored (lookup run.id s.runs) (stored_at run s)

abbrev pub log_of : String → MemoryStore → List Event
log_of id s = lookup_or [] id s.events

abbrev pub numbered : Event → MemoryStore → Event
numbered event s = record event { sequence = length (log_of event.run_id s) + 1 }

unfoldable pub append_event : Event → MemoryStore → Option (Event × MemoryStore)
append_event event s = only_stored (lookup event.run_id s.runs) (
  numbered event s,
  record s {
    events = insert event.run_id (log_of event.run_id s ++ numbered event s ∷ []) s.events;
  },
)

unfoldable pub get : String → MemoryStore → Option Run
get id s = lookup id s.runs

unfoldable pub events : String → MemoryStore → Option (List Event)
events id s = only_stored (lookup id s.runs) (log_of id s)
