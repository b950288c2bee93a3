-- ===== src/Controlplane/Guarantees/Listing.antt =====
-- controlplane/memory.go: what ListRuns gives.
use realy.Common.{
  ℕ, suc, zero, ◌≤◌, ◌≡◌, refl, sym, ap, subst, String, ◌⊎◌, inl, inr, Bool, true, false, some,
  none, List, [], ◌∷◌, if◌then◌else◌, eq_iff, ℤ, arith, Option, ◌∙◌, Bool-cases, length, ltb, pos,
  negsuc,
}
use realy.Common.Maps.{Map, lookup}
use realy.Types.{Run}
use realy.Controlplane.Types.{ok}
use realy.Controlplane.State.{MemoryStorage}
use realy.Controlplane.Listings.{
  with_entry, visit, keep, take, is_listed, bounded_limit, list_runs, is_newer,
}
use mathlib.Core.List.{Memᴰ}

module _ {V : Type 0} where
  with_entry_cases :
      (value : V) (entry : Option V) (rest : List V)
      → Memᴰ value (with_entry entry rest)
      → (entry ≡ some value) ⊎ Memᴰ value rest
  with_entry_cases value none rest h = inr h
  with_entry_cases value (some v) rest (Memᴰ.head p) = inl (ap some (sym p))
  with_entry_cases value (some v) rest (Memᴰ.tail h) = inr h

  visit_sound :
      (value : V) (order : List String) (m : Map V)
      → Memᴰ value (visit order m)
      → (key : String) × (lookup key m ≡ some value)
  unfolding visit
  visit_sound value [] m h = elim h [ ]
  visit_sound value (key ∷ order) m h =
      elim (with_entry_cases value (lookup key m) (visit order m) h) [
        | inl e ↦ (key, e)
        | inr later ↦ visit_sound value order m later
      ]

  keep_step :
      (value first : V) (test : V → Bool) (rest : List V) (passes : Bool)
      → test first ≡ passes
      → Memᴰ value (if passes then first ∷ rest else rest)
      → ((test value ≡ true) × (value ≡ first)) ⊎ Memᴰ value rest
  keep_step value first test rest true e (Memᴰ.head p) = inl (ap test p ∙ e, p)
  keep_step value first test rest true e (Memᴰ.tail h) = inr h
  keep_step value first test rest false e h = inr h

  keep_sound :
      (value : V) (test : V → Bool) (values : List V)
      → Memᴰ value (keep test values)
      → (test value ≡ true) × Memᴰ value values
  unfolding keep
  keep_sound value test [] h = elim h [ ]
  keep_sound value test (first ∷ values) h =
      elim (keep_step value first test (keep test values) (test first) refl h) [
        | inl (passes, same) ↦ (passes, Memᴰ.head same)
        | inr later ↦
            let (passes, found) = keep_sound value test values later in (passes, Memᴰ.tail found)
      ]

  take_sound :
      (value : V) (n : ℕ) (values : List V) → Memᴰ value (take n values) → Memᴰ value values
  unfolding take
  take_sound value zero values h = elim h [ ]
  take_sound value (suc n) [] h = elim h [ ]
  take_sound value (suc n) (first ∷ values) (Memᴰ.head p) = Memᴰ.head p
  take_sound value (suc n) (first ∷ values) (Memᴰ.tail h) = Memᴰ.tail (take_sound value n values h)

  length-take : (n : ℕ) (values : List V) → length (take n values) ≤ n
  unfolding take
  length-take zero values = omega arith
  length-take (suc n) [] = omega arith
  length-take (suc n) (value ∷ values) = omega (arith, length-take n values)

  cut : ℕ → List V → List V
  cut n values = if ltb n (length values) then take n values else values

  cut_sound : (value : V) (n : ℕ) (values : List V) → Memᴰ value (cut n values) → Memᴰ value values
  unfolding cut
  cut_sound value n values h = elim (Bool-cases (ltb n (length values))) [
    | inl e ↦
        take_sound value n values
          (subst (λ b. Memᴰ value (if b then take n values else values)) e h)
    | inr e ↦ subst (λ b. Memᴰ value (if b then take n values else values)) e h
  ]

  length-cut : (n : ℕ) (values : List V) → length (cut n values) ≤ n
  unfolding cut
  length-cut n values = ground (arith, length-take n values)

bounded_limit_le : (limit : ℤ) → bounded_limit limit ≤ 200
bounded_limit_le (pos zero) = omega arith
bounded_limit_le (pos (suc n)) = ground arith
bounded_limit_le (negsuc n) = omega arith

-- Whether a run has the given tenant, project and session, where the empty text asks for none.
pub IsAsked : String → String → String → Run → Type 0
IsAsked tenant project session run =
    ((tenant ≡ "") ⊎ (run.tenant_id ≡ tenant))
    × ((project ≡ "") ⊎ (run.project_id ≡ project))
    × ((session ≡ "") ⊎ (run.session_id ≡ session))

is_listed_sound :
    (tenant project session : String) (run : Run)
    → is_listed tenant project session run ≡ true
    → IsAsked tenant project session run
unfolding IsAsked
is_listed_sound tenant project session run h = ground (
  arith,
  eq_iff tenant "",
  eq_iff project "",
  eq_iff session "",
  eq_iff run.tenant_id tenant,
  eq_iff run.project_id project,
  eq_iff run.session_id session,
)

-- ListRuns gives at most 200 runs, each of them stored and of the tenant, project and session asked
-- for, if sorting adds nothing to a list.
pub list_runs_scoped :
    (sort : (Run → Run → Bool) → List Run → List Run)
    → ((run : Run) (values : List Run) → Memᴰ run (sort is_newer values) → Memᴰ run values)
    → (order : List String) (tenant project session : String) (limit : ℤ) (s : MemoryStorage)
    → (runs : List Run) × (list_runs sort order tenant project session limit s ≡ ok runs)
      × (length runs ≤ 200)
      × ((run : Run)
          → Memᴰ run runs
          → IsAsked tenant project session run × ((key : String) × (lookup key s.runs ≡ some run)))
unfolding list_runs cut
list_runs_scoped sort keeps order tenant project session limit s =
    let kept = keep (is_listed tenant project session) (visit order s.runs) in
    let sorted = sort is_newer kept in
    (
      cut (bounded_limit limit) sorted,
      refl,
      omega (arith, length-cut (bounded_limit limit) sorted, bounded_limit_le limit),
      (λ run member.
          let (listed, found) =
            keep_sound run (is_listed tenant project session) (visit order s.runs)
              (keeps run kept (cut_sound run (bounded_limit limit) sorted member)) in
          (is_listed_sound tenant project session run listed, visit_sound run order s.runs found)),
    )
