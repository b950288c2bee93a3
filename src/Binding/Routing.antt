-- ===== src/Binding/Routing.antt =====
-- binding/registry.go: which provider gets a request, and what a node says that it offers.
use mathlib.Core.List.{Memᴰ}
use realy.Common.{
  String, Bool, true, false, Option, none, some, List, [], ◌∷◌, ◌==◌, ◌≡◌, refl, sym, ap, ◌∙◌,
  arith, if◌then◌else◌, inl, inr, Bool-cases, concat, ◌≢◌, eq_iff,
}
use realy.Common.Maps.{lookup, insert, lookup-insert, lookup-insert_cases}
use realy.Types.{CapabilityRequest}
use realy.Binding.{
  invoke_found, invoke, Descriptor, Provider, Entry, Registry, key, lacks_names, register_provider,
  register, described, inventory,
}

-- The registrations of a process, in their order.
unfoldable pub register_all : List (Descriptor × Option Provider) → Registry → Registry
register_all [] r = r
register_all ((d, provider) ∷ rest) r = register_all rest (register d provider r).1

-- Every entry stands under its own key.
IsKeyed : Registry → Type 0
IsKeyed r =
    (name : String) (e : Entry)
    → lookup name r ≡ some e
    → name ≡ key e.descriptor.name e.descriptor.version

insert-IsKeyed :
    (d : Descriptor) (provider : Provider) (r : Registry)
    → IsKeyed r
    → IsKeyed (insert (key d.name d.version) (record { descriptor = d; provider = provider }) r)
unfolding IsKeyed
insert-IsKeyed d provider r keyed name e h =
    elim (lookup-insert_cases (key d.name d.version) name
      (record { descriptor = d; provider = provider }) e r h) [
        | inl (same, is) ↦
            sym same ∙ ap (λ (x : Entry). key x.descriptor.name x.descriptor.version) is
        | inr other ↦ keyed name e other
      ]

register_provider-IsKeyed :
    (d : Descriptor) (provider : Option Provider) (r : Registry)
    → IsKeyed r
    → IsKeyed (register_provider d provider r).1
register_provider-IsKeyed d none r keyed = keyed
register_provider-IsKeyed d (some provider) r keyed = elim (Bool-cases (lacks_names d)) [
  | inl e ↦ rw e keyed
  | inr e ↦ rw e (insert-IsKeyed d provider r keyed)
]

register_all-IsKeyed :
    (registrations : List (Descriptor × Option Provider)) (r : Registry)
    → IsKeyed r
    → IsKeyed (register_all registrations r)
unfolding register_all register
register_all-IsKeyed [] r keyed = keyed
register_all-IsKeyed ((d, provider) ∷ rest) r keyed =
    register_all-IsKeyed rest (register_provider d provider r).1
      (register_provider-IsKeyed d provider r keyed)

empty-IsKeyed : IsKeyed []
unfolding IsKeyed lookup
empty-IsKeyed name e h = ground (arith, h)

-- What a registry has for a descriptor.
pub IsServed : Registry → Descriptor → Type 0
IsServed r d = (e : Entry) × (lookup (key d.name d.version) r ≡ some e) × (e.descriptor ≡ d)

described-IsServed :
    (name : String) (found : Option Entry) (rest : List Descriptor) (r : Registry) (d : Descriptor)
    → IsKeyed r
    → lookup name r ≡ found
    → Memᴰ d (described found rest)
    → (Memᴰ d rest → IsServed r d)
    → IsServed r d
unfolding IsKeyed IsServed
described-IsServed name none rest r d keyed h m later = later m
described-IsServed name (some e) rest r d keyed h (Memᴰ.head is) later = (
  e,
  ap (λ k. lookup k r) (ap (λ (x : Descriptor). key x.name x.version) is ∙ sym (keyed name e h))
      ∙ h,
  sym is,
)
described-IsServed name (some e) rest r d keyed h (Memᴰ.tail m) later = later m

inventory-IsServed :
    (order : List String) (r : Registry) (d : Descriptor)
    → IsKeyed r
    → Memᴰ d (inventory order r)
    → IsServed r d
unfolding inventory
inventory-IsServed [] r d keyed m = elim m [ ]
inventory-IsServed (name ∷ order) r d keyed m =
    described-IsServed name (lookup name r) (inventory order r) r d keyed refl m
      (inventory-IsServed order r d keyed)

-- After any registrations, whatever an inventory lists has an entry under its name and version, with
-- the name, version and kind that are listed: a node offers only what it can route.
pub register_all-IsServed :
    (registrations : List (Descriptor × Option Provider)) (order : List String) (d : Descriptor)
    → Memᴰ d (inventory order (register_all registrations []))
    → IsServed (register_all registrations []) d
register_all-IsServed registrations order d =
    inventory-IsServed order (register_all registrations []) d
      (register_all-IsKeyed registrations [] empty-IsKeyed)

invoke_found-if :
    (b : Bool) (d : Descriptor) (provider : Provider) (found : Option Entry)
    (request : CapabilityRequest)
    → invoke_found
        (if b then some (record { descriptor = d; provider = provider }) else found)
        request
      ≡ (if b then provider request else invoke_found found request)
invoke_found-if true d provider found request = refl
invoke_found-if false d provider found request = refl

-- Where a request goes once an entry is there.
invoke-insert :
    (d : Descriptor) (provider : Provider) (r : Registry) (request : CapabilityRequest)
    → let after =
        insert (key d.name d.version) (record { descriptor = d; provider = provider }) r in
      invoke request after ≡ (
        if key d.name d.version == key request.name request.version
        then provider request
        else invoke request r)
unfolding invoke
invoke-insert d provider r request =
    rw
      (lookup-insert (key d.name d.version) (key request.name request.version)
        (record { descriptor = d; provider = provider }) r)
      (invoke_found-if (key d.name d.version == key request.name request.version) d provider
        (lookup (key request.name request.version) r) request)

-- Right after a registration that names all, which is accepted, a request of the same name and
-- version goes to the new provider, and one whose name@version is another text goes where it went
-- before.
pub invoke-register :
    (d : Descriptor) (provider : Provider) (r : Registry) (request : CapabilityRequest)
    → lacks_names d ≡ false
    → let after = register d (some provider) r in
      (after.0 ≡ none)
      × (d.name ≡ request.name
          → d.version ≡ request.version
          → invoke request after.1 ≡ provider request)
      × (concat d.name (concat "@" d.version) ≢ concat request.name (concat "@" request.version)
          → invoke request after.1 ≡ invoke request r)
unfolding register
invoke-register d provider r request h = rw h (refl, same, other)
  where
    after : Registry
    after = insert (key d.name d.version) (record { descriptor = d; provider = provider }) r

    same :
        d.name ≡ request.name
        → d.version ≡ request.version
        → invoke request after ≡ provider request
    same name version =
        let equal =
          (eq_iff (key d.name d.version) (key request.name request.version)).1
            (rw (name, version) refl) in
        invoke-insert d provider r request ∙ rw equal refl

    other :
        concat d.name (concat "@" d.version) ≢ concat request.name (concat "@" request.version)
        → invoke request after ≡ invoke request r
    other differ = elim (Bool-cases (key d.name d.version == key request.name request.version)) [
      | inl e ↦
          elim (differ ((eq_iff (key d.name d.version) (key request.name request.version)).0 e)) [ ]
      | inr e ↦ invoke-insert d provider r request ∙ rw e refl
    ]
