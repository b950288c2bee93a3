-- ===== src/Controlplane/Service/Tests.antt =====
-- The Service's theorems over a MemoryStorage at the states of the fixture.
use realy.Common.{
  ◌≡◌, refl, ◌⊎◌, String, Option, some, List, [], ◌∷◌, ◌≤◌, eq_iff, arith, pos, length,
}
use realy.Common.Maps.{lookup}
use realy.Types.{Run, Artifact, Request}
use realy.Controlplane.Types.{not_found, ok, err, Error, NodeRegistration}
use realy.Controlplane.State.{MemoryStorage}
use realy.Controlplane.Access.{AccessKind, AccessScope}
use realy.Controlplane.Fixture.{
  opened, world, request, registration, run_id, claimed_state, claimed_run, cancel_request,
}
use realy.Controlplane.Listings.{list_runs}
use realy.Controlplane.Records.{get_run}
use realy.Controlplane.Guarantees.Listing.{IsAsked, list_runs_scoped}
use realy.Controlplane.Service.{Storage, invalid}
use realy.Controlplane.Service
use realy.Common.{inr, none}
use realy.Controlplane.Fixture.{assignment, started_state}
use realy.Controlplane.Service.Artifacts.{IsDescribed, upload_artifact, upload_ends}
use realy.Controlplane.Service.InMemory.{Visits, memory_storage}
use realy.Controlplane.Service.Scoped.{Admits, foreign_hidden, get_run_exact}
use realy.Controlplane.Service.Checked.{
  IsSubmittable, IsPassedOn, submit_checked, IsRegistrable, register_checked,
}
use mathlib.Core.List.{Memᴰ}

abbrev blank_artifact : Artifact
blank_artifact = record {
  id = "";
  run_id = "";
  type_name = "";
  ref = "";
  name = "";
  content_type = "";
  size = 0;
  sha256 = "";
}

abbrev visits : Visits
visits = record {
  expiring = run_id ∷ [];
  recovering = run_id ∷ [];
  of_nodes = "n1" ∷ [];
  of_runs = run_id ∷ [];
  of_interactions = [];
  sort_runs = λ before values. values;
  sort_interactions = λ before values. values;
  no_request = request;
  no_artifact = blank_artifact;
}

abbrev storage : Storage MemoryStorage
storage = memory_storage world visits

-- A host of another tenant than the stored run's.
abbrev stranger : Option AccessScope
stranger =
    some record { kind = AccessKind.host; subject = "u"; tenant_id = "other"; project_id = "p" }

abbrev owner : Option AccessScope
owner = some record { kind = AccessKind.host; subject = "u"; tenant_id = "t"; project_id = "p" }

stranger_foreign : ¬ Admits stranger claimed_run
unfolding Admits
stranger_foreign h = ground (arith, eq_iff "other" "", eq_iff "other" "t")

found : storage.get_run run_id claimed_state ≡ ok claimed_run
unfolding opened memory_storage get_run
found = refl

foreign_hidden_example :
    (Service.get_run storage stranger run_id claimed_state ≡ err not_found)
    × (Service.cancel_run storage stranger run_id cancel_request claimed_state
        ≡ (err not_found, claimed_state))
    × (Service.events storage stranger run_id claimed_state ≡ err not_found)
    × (Service.events_after storage stranger run_id (pos 0) claimed_state ≡ err not_found)
    × (Service.artifacts storage stranger run_id claimed_state ≡ err not_found)
    × (Service.attempts storage stranger run_id claimed_state ≡ err not_found)
    × (Service.interactions storage stranger run_id claimed_state ≡ err not_found)
foreign_hidden_example =
    foreign_hidden storage stranger run_id claimed_state claimed_run cancel_request (pos 0) found
      stranger_foreign

get_run_exact_example :
    (Service.get_run storage owner run_id claimed_state ≡ ok claimed_run
      → (storage.get_run run_id claimed_state ≡ ok claimed_run) × Admits owner claimed_run)
    × ((storage.get_run run_id claimed_state ≡ ok claimed_run) × Admits owner claimed_run
        → Service.get_run storage owner run_id claimed_state ≡ ok claimed_run)
get_run_exact_example = get_run_exact storage owner run_id claimed_state claimed_run

submit_checked_example :
    (passed : Request) × IsPassedOn owner request passed
    × ((IsSubmittable world passed
          × (Service.submit storage world owner request claimed_state
              ≡ storage.submit passed claimed_state))
        ⊎ ((e : String) × (Service.submit storage world owner request claimed_state
              ≡ (err (invalid e), claimed_state))
            × (¬ IsSubmittable world passed)))
submit_checked_example = submit_checked storage world owner request claimed_state

register_checked_example :
    ((passed : NodeRegistration) × IsRegistrable (λ name. name) registration passed
      × (Service.register_node storage (λ name. name) registration claimed_state
          ≡ storage.register_node passed claimed_state))
    ⊎ ((e : Error) × (Service.register_node storage (λ name. name) registration claimed_state
          ≡ (err e, claimed_state))
        × ((passed : NodeRegistration) → ¬ IsRegistrable (λ name. name) registration passed))
register_checked_example = register_checked storage (λ name. name) registration claimed_state

list_runs_scoped_example :
    (runs : List Run) × (list_runs
        (λ before values. values)
        (run_id ∷ [])
        "t"
        ""
        ""
        (pos 5)
        claimed_state
      ≡ ok runs)
    × (length runs ≤ 200)
    × ((run : Run)
        → Memᴰ run runs
        → IsAsked "t" "" "" run × ((key : String) × (lookup key claimed_state.runs ≡ some run)))
list_runs_scoped_example =
    list_runs_scoped (λ before values. values) (λ run values member. member) (run_id ∷ []) "t" "" ""
      (pos 5) claimed_state

upload_ends_example :
    let after =
      upload_artifact storage world
        (λ bytes. 3)
        "artifact_1"
        assignment
        blank_artifact
        (inr "abc")
        started_state
        [] in
    (artifact : Artifact) × IsDescribed world
      (λ bytes. 3)
      "artifact_1"
      assignment
      blank_artifact
      "abc"
      artifact
    × (((storage.add_artifact assignment artifact started_state ≡ (ok tt, after.1))
          × (after.0 ≡ ok artifact)
          × (lookup "artifact_1" after.2 ≡ some "abc"))
        ⊎ ((e : Error) × (storage.add_artifact assignment artifact started_state ≡ (err e, after.1))
            × (after.0 ≡ err e)
            × (lookup "artifact_1" after.2 ≡ none)))
upload_ends_example =
    upload_ends storage world (λ bytes. 3) "artifact_1" assignment blank_artifact "abc"
      started_state []
