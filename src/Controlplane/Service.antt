-- ===== src/Controlplane/Service.antt =====
-- controlplane/service.go: what the Service checks before it calls its storage. The interface
-- `Storage` is a record of the methods that the modelled part calls, on any type of states; the
-- methods that only hand their arguments on (Heartbeat, Claim, Start, Renew, AppendEvent, Complete,
-- Fail, AcknowledgeCancellation, ReserveCapability, FinishCapability, GetInteraction) are those of
-- the storage.
pub mod Scoped
pub mod Naming
pub mod Checked
pub mod Artifacts
pub mod InMemory
mod Tests
use realy.Common.{
  String, Bool, true, false, not, ◌&&◌, ◌||◌, Option, none, some, List, [], ◌∷◌, ◌==◌,
  if◌then◌else◌, ℕ, ◌-◌, ltb, le_nat, nat_le, concat, map, ℤ, pos,
}
use realy.Types.{
  Time, Run, Event, Attempt, Artifact, Interaction, InteractionRequest, InteractionKind, Request,
}
use realy.Controlplane.Types.{
  Runtime, NodeRegistration, Node, Assignment, CancelRequest, Error, Result, ok, err, other,
  incompatible_protocol, World,
}
use realy.Controlplane.Access.{AccessScope, is_host, tenant_of, project_of, authorize_run_scope}

-- Submit and CancelRun answer the stored run, if the index's run is stored.
pub record Storage (S : Type 0) : Type 0 where
  pub register_node : NodeRegistration → S → Result Node × S
  pub submit : Request → S → Result (Option Run) × S
  pub reconcile : Time → ℤ → S → Result ℕ × S
  pub cancel_run : String → CancelRequest → S → Result Run × S
  pub get_run : String → S → Result Run
  pub events : String → S → Result (List Event)
  pub events_after : String → ℤ → S → Result (List Event)
  pub nodes : S → Result (List Node)
  pub add_artifact : Assignment → Artifact → S → Result (Unit {0}) × S
  pub artifacts : String → S → Result (List Artifact)
  pub artifact : String → S → Result Artifact
  pub list_runs : String → String → String → ℤ → S → Result (List Run)
  pub attempts : String → S → Result (List Attempt)
  pub create_interaction : Assignment → InteractionRequest → S → Result Interaction × S
  pub interactions : String → S → Result (List Interaction)
  pub resolve_interaction : String → String → String → String → S → Result Interaction × S

pub record Options : Type 0 where
  pub lease_ttl : ℤ
  pub node_offline_after : ℤ

-- The defaults of NewWithOptions, in nanoseconds: 30 and 15 seconds.
unfoldable pub with_defaults : Options → Options
with_defaults options = record {
  lease_ttl = if le_nat options.lease_ttl 0 then pos 30000000000 else options.lease_ttl;
  node_offline_after =
      if le_nat options.node_offline_after 0 then pos 15000000000 else options.node_offline_after;
}

abbrev pub protocol_version : String
protocol_version = "1"

-- `trim` is strings.TrimSpace.
abbrev pub runtime_instance_id : (String → String) → String → String → String
runtime_instance_id trim node_id provider = concat (trim node_id) (concat "/" (trim provider))

unfoldable pub seen_before : String → List String → Bool
seen_before id [] = false
seen_before id (seen ∷ rest) = seen == id || seen_before id rest

abbrev pub id_of : (String → String) → String → Runtime → String
id_of trim node_id runtime =
    if runtime.id == "" then runtime_instance_id trim node_id runtime.provider else runtime.id

abbrev pub named_first : Runtime → String → Option (List Runtime) → Option (List Runtime)
named_first runtime id none = none
named_first runtime id (some rest) = some (record runtime { id = id } ∷ rest)

-- The loop of RegisterNode over the runtimes, with the IDs seen so far: none at a repeated ID.
unfoldable pub named_runtimes :
    (String → String) → String → List String → List Runtime → Option (List Runtime)
unfolding seen_before
named_runtimes trim node_id seen [] = some []
named_runtimes trim node_id seen (runtime ∷ rest) =
    let id = id_of trim node_id runtime in
    let named = named_first runtime id (named_runtimes trim node_id (id ∷ seen) rest) in
    if seen_before id seen then none else named

abbrev pub no_runtimes : List Runtime → Bool
no_runtimes [] = true
no_runtimes (_ ∷ _) = false

-- The registration as it is passed on: a capacity of at least one, and each runtime with an ID.
abbrev pub with_runtimes : NodeRegistration → List Runtime → NodeRegistration
with_runtimes registration runtimes = record registration {
  capacity = if le_nat registration.capacity 0 then pos 1 else registration.capacity;
  runtimes = runtimes;
}

abbrev pub invalid : String → Error
invalid message = other message

-- The request with the tenant and project of a host.
abbrev pub scoped_request : Option AccessScope → Request → Request
scoped_request none request = request
scoped_request (some scope) request =
    if is_host scope.kind
    then record request { tenant_id = scope.tenant_id; project_id = scope.project_id }
    else request

abbrev pub with_attempts : Request → Request
with_attempts request =
    if le_nat request.retry.max_attempts 0
    then record request { retry = record (request.retry) { max_attempts = pos 1 } }
    else request

abbrev pub is_positive : Option ℤ → Bool
is_positive none = false
is_positive (some d) = not (le_nat d 0)

abbrev pub parses : Option ℤ → Bool
parses none = false
parses (some d) = true

-- `now.Sub(seen) > after`: a time of the future gives a negative difference.
abbrev pub is_offline : Time → ℤ → Node → Bool
is_offline t after node =
    if ltb t node.last_seen then false else not (nat_le (t - node.last_seen) after)

abbrev pub shown : Time → ℤ → Node → Node
shown t after node = record node { state = if is_offline t after node then "offline" else "online" }

abbrev pub permit : Option AccessScope → Run → Result Run
permit scope run = elim (authorize_run_scope scope run) [ none ↦ ok run | some e ↦ err e ]

abbrev pub permit_found : Option AccessScope → Result Run → Result Run
permit_found scope (err e) = err e
permit_found scope (ok run) = permit scope run

-- The queries about a run ask for the run first, and so does CancelRun.
abbrev pub after_run : {A : Type 0} → Result Run → Result A → Result A
after_run (err e) answer = err e
after_run (ok run) answer = answer

abbrev pub change_after : {A S : Type 0} → Result Run → S → Result A × S → Result A × S
change_after (err e) s next = (err e, s)
change_after (ok run) s next = next

-- The tests of Submit, in their order, on the request with at least one attempt: the tests that come
-- before that default read other fields.
unfoldable pub request_fault : World → Request → Option String
request_fault w request =
    if request.agent_id == ""
      || (request.idempotency_key == ""
          || (request.input.prompt == "" || request.runtime.provider == ""))
    then some "agent ID, idempotency key, prompt, and runtime provider are required"
    else (if not (request.retry.backoff == "")
          && not (parses (w.parse_duration request.retry.backoff))
        then some "retry backoff must be a valid duration"
        else (if not (request.timeout == "") && not (is_positive (w.parse_duration request.timeout))
            then some "timeout must be a positive duration"
            else none))

abbrev pub checked : {A S : Type 0} → Option String → S → Result A × S → Result A × S
checked (some fault) s next = (err (invalid fault), s)
checked none s next = next

module _ {S : Type 0} (storage : Storage S) where
  abbrev pub register_named : NodeRegistration → Option (List Runtime) → S → Result Node × S
  register_named registration none s =
      (err (invalid "runtime instance IDs must be unique within a node"), s)
  register_named registration (some runtimes) s =
      storage.register_node (with_runtimes registration runtimes) s

  unfoldable pub register_node : (String → String) → NodeRegistration → S → Result Node × S
  register_node trim registration s =
      if not (registration.protocol_version == protocol_version)
      then (err incompatible_protocol, s)
      else (if registration.id == "" || no_runtimes registration.runtimes
          then (err (invalid "node ID and at least one runtime are required"), s)
          else register_named registration
              (named_runtimes trim registration.id [] registration.runtimes) s)

  unfoldable pub submit : World → Option AccessScope → Request → S → Result (Option Run) × S
  submit w scope given s =
      let request = with_attempts (scoped_request scope given) in
      checked (request_fault w request) s (storage.submit request s)

  -- `t` is the reading of `time.Now().UTC()`.
  unfoldable pub reconcile : Time → ℤ → S → Result ℕ × S
  reconcile t limit s = storage.reconcile t (if le_nat limit 0 then pos 100 else limit) s

  unfoldable pub get_run : Option AccessScope → String → S → Result Run
  get_run scope run_id s = permit_found scope (storage.get_run run_id s)

  unfoldable pub cancel_run : Option AccessScope → String → CancelRequest → S → Result Run × S
  unfolding get_run
  cancel_run scope run_id request s =
      change_after (get_run scope run_id s) s (storage.cancel_run run_id request s)

  unfoldable pub events : Option AccessScope → String → S → Result (List Event)
  events scope run_id s = after_run (get_run scope run_id s) (storage.events run_id s)

  unfoldable pub events_after : Option AccessScope → String → ℤ → S → Result (List Event)
  events_after scope run_id after s =
      after_run (get_run scope run_id s) (storage.events_after run_id after s)

  unfoldable pub artifacts : Option AccessScope → String → S → Result (List Artifact)
  artifacts scope run_id s = after_run (get_run scope run_id s) (storage.artifacts run_id s)

  unfoldable pub attempts : Option AccessScope → String → S → Result (List Attempt)
  attempts scope run_id s = after_run (get_run scope run_id s) (storage.attempts run_id s)

  unfoldable pub interactions : Option AccessScope → String → S → Result (List Interaction)
  interactions scope run_id s = after_run (get_run scope run_id s) (storage.interactions run_id s)

  unfoldable pub nodes : Time → ℤ → S → Result (List Node)
  nodes t after s = elim (storage.nodes s) [
    | err e ↦ err e
    | ok found ↦ ok (map (shown t after) found)
  ]

  unfoldable pub session_runs : Option AccessScope → String → ℤ → S → Result (List Run)
  session_runs scope session_id limit s =
      storage.list_runs (tenant_of scope) (project_of scope) session_id limit s

  unfoldable pub list_runs : Option AccessScope → ℤ → S → Result (List Run)
  list_runs scope limit s = storage.list_runs (tenant_of scope) (project_of scope) "" limit s

  unfoldable pub create_interaction : Assignment → InteractionRequest → S → Result Interaction × S
  create_interaction a request s = elim request.kind [
    | InteractionKind.input ↦ storage.create_interaction a request s
    | InteractionKind.approval ↦ storage.create_interaction a request s
    | InteractionKind.other_kind kind ↦
        (err (invalid "interaction kind must be input or approval"), s)
  ]

  unfoldable pub resolve_interaction :
      Option AccessScope → String → String → S → Result Interaction × S
  resolve_interaction scope id response s =
      storage.resolve_interaction id response (tenant_of scope) (project_of scope) s
