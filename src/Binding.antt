-- ===== src/Binding.antt =====
-- binding/registry.go: the providers of capabilities by name and version, and node/worker.go: the
-- inventory with which a node registers.
pub mod Routing
mod Tests
use realy.Common.{
  String, Bool, true, false, ◌||◌, Option, none, some, List, [], ◌∷◌, map, ◌==◌, if◌then◌else◌,
  concat, ◌⊎◌, inl, inr,
}
use realy.Common.Maps.{Map, lookup, insert}
use realy.Types.{CapabilityRequest}
use realy.Controlplane.Types.{NodeRegistration, Node, Capability, Result}
use realy.Node.Plane.{ControlPlane}

pub record Descriptor : Type 0 where
  pub name : String
  pub version : String
  pub kind : String

-- A provider gives an error's text or an output.
abbrev pub Provider : Type 0
Provider = CapabilityRequest → String ⊎ String

pub record Entry : Type 0 where
  pub descriptor : Descriptor
  pub provider : Provider

abbrev pub Registry : Type 0
Registry = Map Entry

abbrev pub key : String → String → String
key name version = concat name (concat "@" version)

abbrev pub lacks_names : Descriptor → Bool
lacks_names d = d.name == "" || (d.version == "" || d.kind == "")

abbrev pub register_provider : Descriptor → Option Provider → Registry → Option String × Registry
register_provider d none r =
    (some "relay: binding name, version, kind, and provider are required", r)
register_provider d (some provider) r =
    if lacks_names d
    then (some "relay: binding name, version, kind, and provider are required", r)
    else (none, insert (key d.name d.version) (record { descriptor = d; provider = provider }) r)

unfoldable pub register : Descriptor → Option Provider → Registry → Option String × Registry
register d provider r = register_provider d provider r

abbrev pub invoke_found : Option Entry → CapabilityRequest → String ⊎ String
invoke_found none request = inl "relay: capability binding not found"
invoke_found (some found) request = found.provider request

unfoldable pub invoke : CapabilityRequest → Registry → String ⊎ String
invoke request r = invoke_found (lookup (key request.name request.version) r) request

-- Inventory, in the order in which Go visits the map.
abbrev pub described : Option Entry → List Descriptor → List Descriptor
described none rest = rest
described (some found) rest = found.descriptor ∷ rest

unfoldable pub inventory : (order : List String) → Registry → List Descriptor
inventory [] r = []
inventory (name ∷ order) r = described (lookup name r) (inventory order r)

-- Worker.Register: the bindings, where there are any, name the node's capabilities.
abbrev pub capability_of : Descriptor → Capability
capability_of d = record { name = d.name; version = d.version; kind = d.kind }

abbrev pub registration_with : Option Registry → List String → NodeRegistration → NodeRegistration
registration_with none order registration = registration
registration_with (some r) order registration = record registration {
  capabilities = map capability_of (inventory order r);
}

unfoldable pub register_worker :
    {S : Type 0}
    → ControlPlane S
    → Option Registry
    → List String
    → NodeRegistration
    → S
    → Result Node × S
register_worker plane bindings order registration s =
    plane.register_node (registration_with bindings order registration) s
