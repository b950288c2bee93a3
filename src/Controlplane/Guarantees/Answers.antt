-- ===== src/Controlplane/Guarantees/Answers.antt =====
-- controlplane/memory.go: what the storage answers about events, and which nodes may take a request.
use realy.Common.{
  none, ◌⊎◌, Option-cases, ℕ, suc, ◌≤◌, ◌≡◌, inl, inr, refl, sym, ap, ◌∙◌, subst, String, true,
  false, ◌&&◌, some, List, [], ◌∷◌, if◌then◌else◌, ◌==◌, eq_iff, ℤ, arith, Bool-cases,
}
use realy.Common.Maps.{Map, lookup, lookup_or}
use realy.Types.{Run, Event, Request}
use realy.Controlplane.Types.{Node, World, ok}
use realy.Controlplane.State.{MemoryStorage, events_of}
use realy.Controlplane.Lifecycle.{NumberedFrom}
use realy.Controlplane.Lifecycle.Invariant.{Inv}
use realy.Common.{nat_le}
use realy.Types.{RuntimeRequirement, CapabilityGrant}
use realy.Controlplane.Types.{Runtime, Capability}
use realy.Controlplane.Records.{skip_until, events_after}
use realy.Controlplane.Matching.{
  runtime_matches, some_runtime, labels_match, offers, grants_match, node_matches,
}
use mathlib.Core.List.{Memᴰ}

-- The events with a number above `after`, wherever they stand.
pub newer : ℤ → List Event → List Event
newer after [] = []
newer after (event ∷ events) =
    if nat_le event.sequence after then newer after events else event ∷ newer after events

nat_le-false : (n m : ℕ) (after : ℤ) → n ≤ m → nat_le n after ≡ false → nat_le m after ≡ false
nat_le-false n m after h e = ground arith

newer_all :
    (n : ℕ) (after : ℤ) (events : List Event)
    → nat_le n after ≡ false
    → NumberedFrom n events
    → newer after events ≡ events
unfolding newer
newer_all n after [] h p = refl
newer_all n after (event ∷ events) h p = ground (
  arith,
  nat_le-false n event.sequence after,
  nat_le-false n (suc n) after,
  newer_all (suc n) after events,
)

skip_until-newer :
    (n : ℕ) (after : ℤ) (events : List Event)
    → NumberedFrom n events
    → skip_until after events ≡ newer after events
unfolding skip_until newer
skip_until-newer n after [] p = refl
skip_until-newer n after (event ∷ events) p = elim (Bool-cases (nat_le event.sequence after)) [
  | inl e ↦ rw e (skip_until-newer (suc n) after events p.1)
  | inr e ↦ rw e (
      ap (λ (l : List Event). event ∷ l)
        (sym (newer_all (suc n) after events (subst (λ k. nat_le k after ≡ false) p.0 e) p.1)))
]

-- In a state with the invariant, EventsAfter of a stored run gives exactly the run's events whose
-- number is above the one given, in their order.
pub events_after_exact :
    (run_id : String) (after : ℤ) (run : Run) (s : MemoryStorage)
    → Inv s
    → lookup run_id s.runs ≡ some run
    → events_after run_id after s ≡ ok (newer after (events_of run_id s))
unfolding events_after
events_after_exact run_id after run s inv at =
    rw (at, events_after)
      (ap (λ (l : List Event). ok l)
        (skip_until-newer 0 after (events_of run_id s) (inv.numbered run_id)))

-- A label that is asked for: the node has it with this value, or the value is empty and the node lacks
-- the label.
abbrev pub IsLabelled : Map String → String → String → Type 0
IsLabelled labels key value =
    (lookup key labels ≡ some value) ⊎ ((value ≡ "") × (lookup key labels ≡ none))

-- What a node must have for a request.
pub record Fits (w : World) (node : Node) (request : Request) : Type 0 where
  pub runtime : Runtime
  pub has_runtime : Memᴰ runtime node.registration.runtimes
  pub suits : runtime_matches w runtime request.runtime ≡ true
  pub labelled :
      (key value : String)
      → Memᴰ (key, value) request.runtime.labels
      → IsLabelled node.registration.labels key value
  pub capable :
      (grant : CapabilityGrant)
      → Memᴰ grant request.capabilities
      → (available : Capability) × Memᴰ available node.registration.capabilities
        × (available.name ≡ grant.name)
        × (available.version ≡ grant.version)

some_runtime_sound :
    (w : World) (runtimes : List Runtime) (requirement : RuntimeRequirement)
    → some_runtime w runtimes requirement ≡ true
    → (r : Runtime) × Memᴰ r runtimes × (runtime_matches w r requirement ≡ true)
unfolding some_runtime
some_runtime_sound w [] requirement h = cc
some_runtime_sound w (r ∷ rest) requirement h =
    elim (Bool-cases (runtime_matches w r requirement)) [
      | inl e ↦ (r, Memᴰ.head refl, e)
      | inr e ↦
          let (r', m, e') = some_runtime_sound w rest requirement (ground arith) in
          (r', Memᴰ.tail m, e')
    ]

some_runtime_complete :
    (w : World) (runtimes : List Runtime) (requirement : RuntimeRequirement) (r : Runtime)
    → Memᴰ r runtimes
    → runtime_matches w r requirement ≡ true
    → some_runtime w runtimes requirement ≡ true
unfolding some_runtime
some_runtime_complete w [] requirement r m e = elim m [ ]
some_runtime_complete w (x ∷ rest) requirement r (Memᴰ.head p) e =
    rw (subst (λ y. runtime_matches w y requirement ≡ true) p e) refl
some_runtime_complete w (x ∷ rest) requirement r (Memᴰ.tail m) e =
    ground (arith, some_runtime_complete w rest requirement r m e)

read-IsLabelled :
    (labels : Map String) (key value : String)
    → lookup_or "" key labels ≡ value
    → IsLabelled labels key value
unfolding lookup_or
read-IsLabelled labels key value h = elim (Option-cases (lookup key labels)) [
  | inl e ↦ inr (sym (rw (e, lookup_or) at h), e)
  | inr (v, e) ↦ inl (e ∙ ap some (rw (e, lookup_or) at h))
]

IsLabelled-read :
    (labels : Map String) (key value : String)
    → IsLabelled labels key value
    → lookup_or "" key labels ≡ value
unfolding lookup_or
IsLabelled-read labels key value (inl e) = rw (e, lookup_or) refl
IsLabelled-read labels key value (inr (empty, e)) = rw (e, lookup_or) (sym empty)

labels_match_sound :
    (labels wanted : Map String)
    → labels_match labels wanted ≡ true
    → (key value : String) → Memᴰ (key, value) wanted
    → IsLabelled labels key value
unfolding labels_match
labels_match_sound labels [] h key value m = elim m [ ]
labels_match_sound labels ((k, v) ∷ rest) h key value (Memᴰ.head p) =
    subst (λ (x : String × String). IsLabelled labels x.0 x.1) (sym p)
      (read-IsLabelled labels k v ((eq_iff (lookup_or "" k labels) v).0 (ground arith)))
labels_match_sound labels ((k, v) ∷ rest) h key value (Memᴰ.tail m) =
    labels_match_sound labels rest (ground arith) key value m

labels_match_complete :
    (labels wanted : Map String)
    → ((key value : String) → Memᴰ (key, value) wanted → IsLabelled labels key value)
    → labels_match labels wanted ≡ true
unfolding labels_match
labels_match_complete labels [] h = refl
labels_match_complete labels ((k, v) ∷ rest) h = ground (
  arith,
  (eq_iff (lookup_or "" k labels) v).1 (IsLabelled-read labels k v (h k v (Memᴰ.head refl))),
  labels_match_complete labels rest (λ key value m. h key value (Memᴰ.tail m)),
)

offers_sound :
    (capabilities : List Capability) (grant : CapabilityGrant)
    → offers capabilities grant ≡ true
    → (available : Capability) × Memᴰ available capabilities
      × (available.name ≡ grant.name)
      × (available.version ≡ grant.version)
unfolding offers
offers_sound [] grant h = cc
offers_sound (c ∷ rest) grant h =
    elim (Bool-cases (c.name == grant.name && c.version == grant.version)) [
      | inl e ↦ (
        c,
        Memᴰ.head refl,
        (eq_iff c.name grant.name).0 (ground arith),
        (eq_iff c.version grant.version).0 (ground arith),
      )
      | inr e ↦
          let (c', m, p, q) = offers_sound rest grant (ground arith) in (c', Memᴰ.tail m, p, q)
    ]

offers_complete :
    (capabilities : List Capability) (grant : CapabilityGrant) (c : Capability)
    → Memᴰ c capabilities
    → c.name ≡ grant.name
    → c.version ≡ grant.version
    → offers capabilities grant ≡ true
unfolding offers
offers_complete [] grant c m e f = elim m [ ]
offers_complete (x ∷ rest) grant c (Memᴰ.head p) e f =
    ground (arith, eq_iff x.name grant.name, eq_iff x.version grant.version)
offers_complete (x ∷ rest) grant c (Memᴰ.tail m) e f =
    ground (arith, offers_complete rest grant c m e f)

grants_match_sound :
    (capabilities : List Capability) (grants : List CapabilityGrant)
    → grants_match capabilities grants ≡ true
    → (grant : CapabilityGrant) → Memᴰ grant grants
    → offers capabilities grant ≡ true
unfolding grants_match
grants_match_sound capabilities [] h grant m = elim m [ ]
grants_match_sound capabilities (g ∷ rest) h grant (Memᴰ.head p) =
    subst (λ x. offers capabilities x ≡ true) (sym p) (ground arith)
grants_match_sound capabilities (g ∷ rest) h grant (Memᴰ.tail m) =
    grants_match_sound capabilities rest (ground arith) grant m

grants_match_complete :
    (capabilities : List Capability) (grants : List CapabilityGrant)
    → ((grant : CapabilityGrant) → Memᴰ grant grants → offers capabilities grant ≡ true)
    → grants_match capabilities grants ≡ true
unfolding grants_match
grants_match_complete capabilities [] h = refl
grants_match_complete capabilities (g ∷ rest) h = ground (
  arith,
  h g (Memᴰ.head refl),
  grants_match_complete capabilities rest (λ x m. h x (Memᴰ.tail m)),
)

-- A node is taken to match a request exactly when one of its runtimes suits the request's, it has
-- each label that the request names with that value, or lacks the label where the value is empty, and
-- for each grant of the request it has a capability of the same name and version.
pub node_matches_iff :
    (w : World) (node : Node) (request : Request)
    → (node_matches w node request ≡ true → Fits w node request)
      × (Fits w node request → node_matches w node request ≡ true)
unfolding node_matches
node_matches_iff w node request = (sound, complete)
  where
    sound : node_matches w node request ≡ true → Fits w node request
    sound h =
        let (r, m, e) =
          some_runtime_sound w node.registration.runtimes request.runtime (ground arith) in
        record {
          runtime = r;
          has_runtime = m;
          suits = e;
          labelled =
              labels_match_sound node.registration.labels request.runtime.labels (ground arith);
          capable = λ grant m'. offers_sound node.registration.capabilities grant (
              grants_match_sound node.registration.capabilities request.capabilities (ground arith)
                grant m');
        }

    complete : Fits w node request → node_matches w node request ≡ true
    complete f = ground (
      arith,
      some_runtime_complete w node.registration.runtimes request.runtime f.runtime f.has_runtime
          f.suits,
      labels_match_complete node.registration.labels request.runtime.labels f.labelled,
      grants_match_complete node.registration.capabilities request.capabilities (λ grant m.
          let (c, at, p, q) = f.capable grant m in
          offers_complete node.registration.capabilities grant c at p q),
    )
