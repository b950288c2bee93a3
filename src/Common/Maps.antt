-- ===== src/Common/Maps.antt =====
-- Go's maps with text keys, as association lists: a key stands once, where it was first stored.
use Prim.Native.Nat.{ℕ, ◌+◌}
use Prim.Native.String.{String}
use mathlib.Core.Path.{◌≡◌, refl}
use mathlib.Core.Logic.{◌⊎◌}
use mathlib.Core.Option.{Option, none, some}
use mathlib.Core.List.{List, [], ◌∷◌}
use native.Mathlib.Omega.{arith}
use text.Mathlib.Text.{◌==◌}
use text.Mathlib.TextEquality.{eq_iff}
use realy.Common.Tests.{if◌then◌else◌}

abbrev pub Map {ℓ} : Type ℓ → Type ℓ
Map V = List (String × V)

module _ {ℓ} {V : Type ℓ} where
  unfoldable pub lookup : String → Map V → Option V
  lookup key [] = none
  lookup key ((name, value) ∷ rest) =
      let later = lookup key rest in if name == key then some value else later

  unfoldable pub insert : String → V → Map V → Map V
  insert key value [] = (key, value) ∷ []
  insert key value ((name, old) ∷ rest) =
      let later = (name, old) ∷ insert key value rest in
      if name == key then (name, value) ∷ rest else later

  -- What Go reads of a missing key is the type's zero value, given here as `d`.
  unfoldable pub lookup_or : V → String → Map V → V
  lookup_or d k m = elim (lookup k m) [ none ↦ d | some v ↦ v ]

  pub lookup-insert :
      (key asked : String) (value : V) (entries : Map V)
      → lookup asked (insert key value entries)
        ≡ (if key == asked then some value else lookup asked entries)
  unfolding insert lookup
  lookup-insert key asked value [] = refl
  lookup-insert key asked value ((name, old) ∷ rest) = ground (
    arith,
    lookup-insert key asked value rest,
    eq_iff name asked,
    eq_iff name key,
    eq_iff key asked,
  )

  pub lookup-insert_self :
      (key : String) (value : V) (entries : Map V)
      → lookup key (insert key value entries) ≡ some value
  lookup-insert_self key value entries =
      ground (arith, lookup-insert key key value entries, eq_iff key key)

  -- The sum of a measure over the entries.
  unfoldable pub total : (V → ℕ) → Map V → ℕ
  total f [] = 0
  total f ((_, v) ∷ m) = f v + total f m

  pub total-insert :
      (f : V → ℕ) (k : String) (v w : V) (m : Map V)
      → lookup k m ≡ some v
      → total f (insert k w m) + f v ≡ total f m + f w
  unfolding total insert lookup
  total-insert f k v w [] h = ground arith
  total-insert f k v w ((j, u) ∷ m) h = ground (arith, total-insert f k v w m)

  pub total-insert_new :
      (f : V → ℕ) (k : String) (w : V) (m : Map V)
      → lookup k m ≡ none
      → total f (insert k w m) ≡ total f m + f w
  unfolding total insert lookup
  total-insert_new f k w [] h = ground arith
  total-insert_new f k w ((j, u) ∷ m) h = ground (arith, total-insert_new f k w m)

  -- What a lookup finds after a write: the entry written, or one that was there.
  pub lookup-insert_cases :
      (k j : String) (v u : V) (m : Map V)
      → lookup j (insert k v m) ≡ some u
      → ((k ≡ j) × (v ≡ u)) ⊎ (lookup j m ≡ some u)
  lookup-insert_cases k j v u m h = ground (arith, lookup-insert k j v m, eq_iff k j)

  pub insert-insert : (k : String) (v u : V) (m : Map V) → insert k u (insert k v m) ≡ insert k u m
  unfolding insert
  insert-insert k v u [] = ground (arith, eq_iff k k)
  insert-insert k v u ((j, x) ∷ m) = ground (arith, insert-insert k v u m)
