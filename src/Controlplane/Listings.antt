-- ===== src/Controlplane/Listings.antt =====
-- controlplane/memory.go: Nodes, Artifacts, Artifact, ListRuns and Interactions. Go visits a map in
-- any order: `order` is the keys as they are visited. `sort` is sort.Slice with the given order.
use realy.Common.{
  ℕ, suc, zero, String, Bool, ◌&&◌, ◌||◌, Option, none, some, List, [], ◌∷◌, ◌==◌, if◌then◌else◌,
  ltb, length, map, ℤ, pos, negsuc,
}
use realy.Common.Maps.{Map, lookup, lookup_or}
use realy.Types.{Run, Artifact, Interaction}
use realy.Controlplane.Types.{Node, Result, ok, err, not_found}
use realy.Controlplane.State.{MemoryStorage}

module _ {V : Type 0} where
  abbrev pub with_entry : Option V → List V → List V
  with_entry none rest = rest
  with_entry (some value) rest = value ∷ rest

  -- The entries under the visited keys.
  unfoldable pub visit : List String → Map V → List V
  visit [] m = []
  visit (key ∷ order) m = with_entry (lookup key m) (visit order m)

  unfoldable pub keep : (V → Bool) → List V → List V
  keep test [] = []
  keep test (value ∷ values) =
      let rest = keep test values in if test value then value ∷ rest else rest

  -- `values[:n]`, where n is at most the length
  unfoldable pub take : ℕ → List V → List V
  take zero values = []
  take (suc n) [] = []
  take (suc n) (value ∷ values) = value ∷ take n values

unfoldable pub nodes : List String → MemoryStorage → Result (List Node)
nodes order s = ok (visit order s.nodes)

-- An artifact of the index is always stored; `blank` is Go's zero artifact.
unfoldable pub artifacts : Artifact → String → MemoryStorage → Result (List Artifact)
artifacts blank run_id s = elim (lookup run_id s.runs) [
  | none ↦ err not_found
  | some run ↦
      ok (
        map (λ (id : String). lookup_or blank id s.artifacts) (lookup_or [] run_id s.artifact_runs))
]

unfoldable pub artifact : String → MemoryStorage → Result Artifact
artifact id s = elim (lookup id s.artifacts) [ none ↦ err not_found | some value ↦ ok value ]

abbrev pub is_listed : String → String → String → Run → Bool
is_listed tenant project session run =
    (tenant == "" || run.tenant_id == tenant)
    && ((project == "" || run.project_id == project)
        && (session == "" || run.session_id == session))

-- `limit <= 0 || limit > 200` gives 50
abbrev pub bounded_limit : ℤ → ℕ
bounded_limit (pos zero) = 50
bounded_limit (pos (suc n)) = if ltb 200 (suc n) then 50 else suc n
bounded_limit (negsuc n) = 50

abbrev pub is_newer : Run → Run → Bool
is_newer a b = ltb b.created_at a.created_at

unfoldable pub list_runs :
    ((Run → Run → Bool) → List Run → List Run)
    → List String
    → String
    → String
    → String
    → ℤ
    → MemoryStorage
    → Result (List Run)
unfolding visit keep take
list_runs sort order tenant project session limit s =
    let values = sort is_newer (keep (is_listed tenant project session) (visit order s.runs)) in
    ok (
      if ltb (bounded_limit limit) (length values)
      then take (bounded_limit limit) values
      else values)

abbrev pub is_older : Interaction → Interaction → Bool
is_older a b = ltb a.created_at b.created_at

unfoldable pub interactions :
    ((Interaction → Interaction → Bool) → List Interaction → List Interaction)
    → List String
    → String
    → MemoryStorage
    → Result (List Interaction)
unfolding visit keep
interactions sort order run_id s = elim (lookup run_id s.runs) [
  | none ↦ err not_found
  | some run ↦
      ok (
        sort is_older (keep (λ (v : Interaction). v.run_id == run_id) (visit order s.interactions)))
]
