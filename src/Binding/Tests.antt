-- ===== src/Binding/Tests.antt =====
-- A registry with one binding.
use mathlib.Core.List.{Memᴰ}
use realy.Common.{concat, ◌≢◌, ◌≢◌, none, some, [], ◌∷◌, ◌≡◌, refl, inr}
use realy.Types.{CapabilityRequest}
use realy.Common.Maps.{lookup, insert}
use realy.Controlplane.Fixture.{request}
use realy.Binding.{Descriptor, Provider, register, invoke, inventory}
use realy.Binding.Routing.{register_all, IsServed, register_all-IsServed, invoke-register}

abbrev search : Descriptor
search = record { name = "search"; version = "1"; kind = "exec" }

abbrev found : Provider
found asked = inr "found"

abbrev asked_for : CapabilityRequest
asked_for = record {
  call_id = "call_1";
  run_id = "run_";
  agent_id = "a";
  principal = request.principal;
  name = "search";
  version = "1";
  effect = "read";
  resource = "";
  input = "{}";
}

search_listed :
    Memᴰ search (inventory ("search@1" ∷ []) (register_all ((search, some found) ∷ []) []))
unfolding inventory register_all register lookup insert
search_listed = Memᴰ.head refl

register_all-IsServed_example : IsServed (register_all ((search, some found) ∷ []) []) search
register_all-IsServed_example =
    register_all-IsServed ((search, some found) ∷ []) ("search@1" ∷ []) search search_listed

invoke-register_example :
    let after = register search (some found) [] in
    (after.0 ≡ none)
    × (search.name ≡ asked_for.name
        → search.version ≡ asked_for.version
        → invoke asked_for after.1 ≡ found asked_for)
    × (concat search.name (concat "@" search.version)
          ≢ concat asked_for.name (concat "@" asked_for.version)
        → invoke asked_for after.1 ≡ invoke asked_for [])
invoke-register_example = invoke-register search found [] asked_for refl
