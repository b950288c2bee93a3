-- ===== src/Controlplane/Service/Naming.antt =====
-- controlplane/service.go: the loop of RegisterNode over the runtimes gives each an ID, and finds every
-- ID that two of them have.
use mathlib.Core.List.{Memᴰ}
use realy.Common.{
  sym, subst, concat, ◌≡◌, ◌≢◌, refl, ap, ◌⊎◌, inl, inr, String, some, List, [], ◌∷◌, arith, eq_iff,
  false, ◌==◌, Bool-cases, Option-cases,
}
use realy.Controlplane.Types.{Runtime}
use realy.Controlplane.Service.{
  Storage, seen_before, named_runtimes, no_runtimes, request_fault, with_runtimes, invalid,
  is_positive, parses, scoped_request, with_attempts, protocol_version, shown, is_offline,
}
use realy.Controlplane.Service

-- No two runtimes have the same ID.
pub HasDistinctIds : List Runtime → Type 0
HasDistinctIds [] = Unit {0}
HasDistinctIds (runtime ∷ rest) =
    ((other : Runtime) → Memᴰ other rest → other.id ≢ runtime.id) × HasDistinctIds rest

-- The ID with which a runtime of a node is stored.
pub IsIdOf : (String → String) → String → Runtime → String → Type 0
IsIdOf trim node_id given id =
    ((given.id ≢ "") × (id ≡ given.id))
    ⊎ ((given.id ≡ "") × (id ≡ concat (trim node_id) (concat "/" (trim given.provider))))

-- The same runtimes in the same order, only with these IDs.
pub data IsNamed (trim : String → String) (node_id : String)
    : List Runtime → List Runtime → Type 0 where
  no_more : IsNamed trim node_id [] []
  one_more :
      {given runtime : Runtime} {rest more : List Runtime}
      → IsIdOf trim node_id given runtime.id
      → runtime ≡ record given { id = runtime.id }
      → IsNamed trim node_id rest more
      → IsNamed trim node_id (given ∷ rest) (runtime ∷ more)

-- None has one of the IDs that were seen.
abbrev pub AreNew : List String → List Runtime → Type 0
AreNew seen runtimes =
    (runtime : Runtime) → Memᴰ runtime runtimes → seen_before runtime.id seen ≡ false

id_of-IsIdOf :
    (trim : String → String) (node_id : String) (given : Runtime)
    → IsIdOf trim node_id given (Service.id_of trim node_id given)
unfolding IsIdOf
id_of-IsIdOf trim node_id given = elim (Bool-cases (given.id == "")) [
  | inl e ↦ inr ((eq_iff given.id "").0 e, rw e refl)
  | inr e ↦ inl (
    λ empty. let is_empty = (eq_iff given.id "").1 empty in ground (arith, e, is_empty),
    rw e refl,
  )
]

IsIdOf-id_of :
    (trim : String → String) (node_id : String) (given : Runtime) (id : String)
    → IsIdOf trim node_id given id
    → Service.id_of trim node_id given ≡ id
unfolding IsIdOf
IsIdOf-id_of trim node_id given id (inl (filled, is)) = elim (Bool-cases (given.id == "")) [
  | inl e ↦ elim (filled ((eq_iff given.id "").0 e)) [ ]
  | inr e ↦ rw e (sym is)
]
IsIdOf-id_of trim node_id given id (inr (empty, is)) =
    let e = (eq_iff given.id "").1 empty in rw e (sym is)

pub named_runtimes-IsNamed :
    (trim : String → String) (node_id : String) (seen : List String) (given named : List Runtime)
    → named_runtimes trim node_id seen given ≡ some named
    → IsNamed trim node_id given named × AreNew seen named × HasDistinctIds named
unfolding named_runtimes HasDistinctIds seen_before
named_runtimes-IsNamed trim node_id seen [] named h =
    subst (λ l. IsNamed trim node_id [] l × AreNew seen l × HasDistinctIds l) {x = []} {y = named}
      (ground (arith, h)) (IsNamed.no_more, λ runtime m. elim m [ ], tt)
named_runtimes-IsNamed trim node_id seen (given ∷ rest) named h =
    let id = Service.id_of trim node_id given in
    elim (Bool-cases (seen_before id seen)) [
      | inl b ↦ ground (arith, rw b at h)
      | inr b ↦ elim (Option-cases (named_runtimes trim node_id (id ∷ seen) rest)) [
        | inl e ↦ ground (arith, rw e at (rw b at h))
        | inr (more, e) ↦
            let (is_named, are_new, distinct) =
              named_runtimes-IsNamed trim node_id (id ∷ seen) rest more e in
            subst (λ l. IsNamed trim node_id (given ∷ rest) l × AreNew seen l × HasDistinctIds l)
              {x = record given { id = id } ∷ more} {y = named}
              (ground (arith, rw e at (rw b at h)))
              (
                IsNamed.one_more (id_of-IsIdOf trim node_id given) refl is_named,
                cons-AreNew id seen given more b are_new,
                (
                  λ other m same.
                      let fresh = are_new other m in
                      let equal = (eq_iff id other.id).1 (sym same) in ground (arith, fresh, equal),
                  distinct,
                ),
              )
      ]
    ]
  where
    cons-AreNew :
        (id : String) (seen : List String) (given : Runtime) (more : List Runtime)
        → seen_before id seen ≡ false
        → AreNew (id ∷ seen) more
        → AreNew seen (record given { id = id } ∷ more)
    cons-AreNew id seen given more b are_new runtime (Memᴰ.head p) =
        subst (λ (r : Runtime). seen_before r.id seen ≡ false) (sym p) b
    cons-AreNew id seen given more b are_new runtime (Memᴰ.tail m) =
        let fresh = are_new runtime m in ground (arith, fresh)

unequal_seen :
    (id other : String) (seen : List String)
    → other ≢ id
    → seen_before other seen ≡ false
    → seen_before other (id ∷ seen) ≡ false
unfolding seen_before
unequal_seen id other seen differ old = elim (Bool-cases (id == other)) [
  | inl e ↦ elim (differ (sym ((eq_iff id other).0 e))) [ ]
  | inr e ↦ rw (e, old) refl
]

pub IsNamed-named_runtimes :
    (trim : String → String) (node_id : String) (seen : List String) (given named : List Runtime)
    → IsNamed trim node_id given named
    → AreNew seen named
    → HasDistinctIds named
    → named_runtimes trim node_id seen given ≡ some named
unfolding named_runtimes HasDistinctIds seen_before
IsNamed-named_runtimes trim node_id seen [] [] IsNamed.no_more are_new distinct = refl
IsNamed-named_runtimes trim node_id seen [] (runtime ∷ more) h are_new distinct = elim h [ ]
IsNamed-named_runtimes trim node_id seen (given ∷ rest) [] h are_new distinct = elim h [ ]
IsNamed-named_runtimes trim node_id seen (given ∷ rest) (runtime ∷ more)
      (IsNamed.one_more is_id same is_named) are_new distinct =
    let id = IsIdOf-id_of trim node_id given runtime.id is_id in
    let fresh = are_new runtime (Memᴰ.head refl) in
    let later =
      IsNamed-named_runtimes trim node_id (runtime.id ∷ seen) rest more is_named
        (λ other m.
          let old = are_new other (Memᴰ.tail m) in
          let differ = distinct.0 other m in unequal_seen runtime.id other.id seen differ old)
        distinct.1 in
    rw id (rw fresh (rw later (ap (λ (r : Runtime). some (r ∷ more)) (sym same))))
