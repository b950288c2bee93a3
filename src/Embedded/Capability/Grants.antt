-- ===== src/Embedded/Capability/Grants.antt =====
-- capability.go: what findGrant finds.
use realy.Common.{
  ◌≡◌, refl, sym, ap, subst, ◌∙◌, ◌⊎◌, inl, inr, String, Bool, true, List, [], ◌∷◌, arith, eq_iff,
  Bool-cases, if◌then◌else◌, ◌==◌,
}
use realy.Types.{CapabilityGrant, CapabilityCall}
use realy.Embedded.Capability.{find_grant, contains, is_empty, is_skipped, in_scope}
use mathlib.Core.List.{Memᴰ}

contains_sound :
    (values : List String) (value : String) → contains values value ≡ true → Memᴰ value values
unfolding contains
contains_sound [] value h = ground arith
contains_sound (first ∷ rest) value h = elim (Bool-cases (first == value)) [
  | inl e ↦ Memᴰ.head (ground (arith, eq_iff first value, e))
  | inr e ↦ Memᴰ.tail (contains_sound rest value (ground (arith, e, h)))
]

is_empty_sound : (values : List String) → is_empty values ≡ true → values ≡ []
is_empty_sound [] h = refl
is_empty_sound (first ∷ rest) h = ground arith

in_scope_sound :
    (grant found : CapabilityGrant) (call : CapabilityCall)
    → in_scope grant call ≡ inr found
    → (found ≡ grant) × ((grant.resources ≡ []) ⊎ Memᴰ call.resource grant.resources)
in_scope_sound grant found call h = elim (Bool-cases (is_empty grant.resources)) [
  | inl e ↦ (ground (arith, e, h), inl (is_empty_sound grant.resources e))
  | inr e ↦ elim (Bool-cases (contains grant.resources call.resource)) [
    | inl f ↦ (ground (arith, e, f, h), inr (contains_sound grant.resources call.resource f))
    | inr f ↦ ground (arith, e, f, h)
  ]
]

-- A found grant is one of the grants, of the call's name and of the version that it names, if any,
-- and for its resource.
pub find_grant_sound :
    (grants : List CapabilityGrant) (call : CapabilityCall) (found : CapabilityGrant)
    → find_grant grants call ≡ inr found
    → Memᴰ found grants
      × (found.name ≡ call.name)
      × ((found.resources ≡ []) ⊎ Memᴰ call.resource found.resources)
unfolding find_grant
find_grant_sound [] call found h = ground arith
find_grant_sound (grant ∷ grants) call found h =
    let chosen =
      λ (b : Bool). (if b then find_grant grants call else in_scope grant call) ≡ inr found in
    elim (Bool-cases (is_skipped grant call)) [
      | inl e ↦
          let (member, name, scoped) = find_grant_sound grants call found (subst chosen e h) in
          (Memᴰ.tail member, name, scoped)
      | inr e ↦
          let (same, scoped) = in_scope_sound grant found call (subst chosen e h) in
          (
            Memᴰ.head same,
            ap (λ (g : CapabilityGrant). g.name) same
                ∙ ground (arith, e, eq_iff grant.name call.name),
            subst (λ (g : CapabilityGrant). (g.resources ≡ []) ⊎ Memᴰ call.resource g.resources)
                (sym same) scoped,
          )
    ]
