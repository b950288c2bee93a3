-- ===== src/Controlplane/Matching.antt =====
-- controlplane/memory.go `nodeMatches` and controlplane/types.go `RuntimeMatches`: whether a node
-- can take a request.
use realy.Common.{
  String, Bool, true, false, not, ◌&&◌, ◌||◌, List, [], ◌∷◌, leb, if◌then◌else◌, ◌==◌, length,
}
use realy.Common.Maps.{Map, lookup_or}
use realy.Types.{Request, CapabilityGrant, RuntimeRequirement}
use realy.Controlplane.Types.{Runtime, Capability, Node, World}

abbrev pub contains : String → List String → Bool
contains x [] = false
contains x (y ∷ ys) = y == x || contains x ys

-- a key that the node lacks reads as the empty text
unfoldable pub labels_match : Map String → Map String → Bool
labels_match labels [] = true
labels_match labels ((key, value) ∷ rest) =
    lookup_or "" key labels == value && labels_match labels rest

unfoldable pub offers : List Capability → CapabilityGrant → Bool
offers [] grant = false
offers (available ∷ rest) grant =
    (available.name == grant.name && available.version == grant.version) || offers rest grant

unfoldable pub grants_match : List Capability → List CapabilityGrant → Bool
grants_match capabilities [] = true
grants_match capabilities (grant ∷ rest) =
    offers capabilities grant && grants_match capabilities rest

module _ (w : World) where
  -- RuntimeMatches (controlplane/types.go)
  unfoldable pub runtime_matches : Runtime → RuntimeRequirement → Bool
  runtime_matches runtime requirement =
      if not (requirement.id == "") && not (runtime.id == requirement.id)
      then false
      else (if not (runtime.provider == requirement.provider) || runtime.state == "unhealthy"
          then false
          else (if not (requirement.model == "")
                && (leb 1 (length runtime.models)
                    && not (
                        runtime.default_model == requirement.model
                        || contains requirement.model runtime.models))
              then false
              else (if requirement.version == ""
                  then true
                  else (if not (w.is_version runtime.version)
                      then runtime.version == requirement.version
                      else w.satisfies runtime.version requirement.version))))

  unfoldable pub some_runtime : List Runtime → RuntimeRequirement → Bool
  some_runtime [] requirement = false
  some_runtime (runtime ∷ rest) requirement =
      runtime_matches runtime requirement || some_runtime rest requirement

  unfoldable pub node_matches : Node → Request → Bool
  node_matches node request =
      some_runtime node.registration.runtimes request.runtime
      && (labels_match node.registration.labels request.runtime.labels
          && grants_match node.registration.capabilities request.capabilities)
