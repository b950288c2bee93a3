-- ===== src/Controlplane/Service/Scoped.antt =====
-- controlplane/service.go and access.go: a caller with a tenant's or project's scope sees its own
-- runs only.
use realy.Common.{◌≡◌, refl, ap, subst, ◌⊎◌, inl, inr, String, Option, none, some, arith, eq_iff, ℤ}
use realy.Types.{Run}
use realy.Controlplane.Types.{CancelRequest, Error, Result, ok, err, not_found}
use realy.Controlplane.Access.{AccessKind, AccessScope, authorize_run_scope}
use realy.Controlplane.Service.{Storage}
use realy.Controlplane.Service

-- Who may see a run: the code inside, a node, and a host whose scope leaves the tenant and the
-- project open or names the run's.
unfoldable pub Admits : Option AccessScope → Run → Type 0
Admits none run = Unit {0}
Admits (some scope) run =
    (scope.kind ≡ AccessKind.node)
    ⊎ (((scope.tenant_id ≡ "") ⊎ (scope.tenant_id ≡ run.tenant_id))
        × ((scope.project_id ≡ "") ⊎ (scope.project_id ≡ run.project_id)))

authorize_run_scope-none :
    (scope : Option AccessScope) (run : Run)
    → authorize_run_scope scope run ≡ none
    → Admits scope run
unfolding authorize_run_scope Admits
authorize_run_scope-none none run h = tt
authorize_run_scope-none (some scope) run h = ground (
  arith,
  eq_iff scope.tenant_id "",
  eq_iff scope.tenant_id run.tenant_id,
  eq_iff scope.project_id "",
  eq_iff scope.project_id run.project_id,
)

none-authorize_run_scope :
    (scope : Option AccessScope) (run : Run)
    → Admits scope run
    → authorize_run_scope scope run ≡ none
unfolding authorize_run_scope Admits
none-authorize_run_scope none run h = refl
none-authorize_run_scope (some scope) run h = ground (
  arith,
  eq_iff scope.tenant_id "",
  eq_iff scope.tenant_id run.tenant_id,
  eq_iff scope.project_id "",
  eq_iff scope.project_id run.project_id,
)

authorize_run_scope_cases :
    (scope : Option AccessScope) (run : Run)
    → (authorize_run_scope scope run ≡ none) ⊎ (authorize_run_scope scope run ≡ some not_found)
unfolding authorize_run_scope
authorize_run_scope_cases none run = inl refl
authorize_run_scope_cases (some scope) run = ground arith

pub Result-cases :
    {A : Type 0} (r : Result A) → ((a : A) × (r ≡ ok a)) ⊎ ((e : Error) × (r ≡ err e))
Result-cases (ok a) = inl (a, refl)
Result-cases (err e) = inr (e, refl)

permit_cases :
    (scope : Option AccessScope) (found run : Run)
    → Service.permit scope found ≡ ok run
    → (found ≡ run) × (authorize_run_scope scope found ≡ none)
permit_cases scope found run h = elim (authorize_run_scope_cases scope found) [
  | inl e ↦ (ground (arith, e), e)
  | inr e ↦ ground (arith, e)
]

module _ {S : Type 0} (storage : Storage S) (scope : Option AccessScope) (run_id : String)
    (s : S) where
  -- GetRun answers with a run exactly when the storage has it and the caller's scope admits it.
  pub get_run_exact :
      (run : Run)
      → (Service.get_run storage scope run_id s ≡ ok run
          → (storage.get_run run_id s ≡ ok run) × Admits scope run)
        × ((storage.get_run run_id s ≡ ok run) × Admits scope run
            → Service.get_run storage scope run_id s ≡ ok run)
  unfolding Service.get_run
  get_run_exact run = elim (Result-cases (storage.get_run run_id s)) [
    | inl (found, e) ↦ rw e (
      (λ h.
          let (same, admitted) = permit_cases scope found run h in
          (ap ok same, subst (Admits scope) same (authorize_run_scope-none scope found admitted))),
      (λ (h, admits). ground (arith, none-authorize_run_scope scope run admits)),
    )
    | inr (e, h) ↦ rw h ((λ p. ground arith), (λ (p, admits). ground arith))
  ]

  pub get_run_foreign :
      (run : Run)
      → storage.get_run run_id s ≡ ok run
      → ¬ Admits scope run
      → Service.get_run storage scope run_id s ≡ err not_found
  unfolding Service.get_run
  get_run_foreign run h foreign = elim (authorize_run_scope_cases scope run) [
    | inl e ↦ elim (foreign (authorize_run_scope-none scope run e)) [ ]
    | inr e ↦ rw h (ground (arith, e))
  ]

  -- A run that the caller's scope does not admit is answered like one that is not stored, with
  -- ErrNotFound, by GetRun, CancelRun, Events, EventsAfter, Artifacts, Attempts and Interactions,
  -- and CancelRun changes nothing.
  pub foreign_hidden :
      (run : Run) (request : CancelRequest) (after : ℤ)
      → storage.get_run run_id s ≡ ok run
      → ¬ Admits scope run
      → (Service.get_run storage scope run_id s ≡ err not_found)
        × (Service.cancel_run storage scope run_id request s ≡ (err not_found, s))
        × (Service.events storage scope run_id s ≡ err not_found)
        × (Service.events_after storage scope run_id after s ≡ err not_found)
        × (Service.artifacts storage scope run_id s ≡ err not_found)
        × (Service.attempts storage scope run_id s ≡ err not_found)
        × (Service.interactions storage scope run_id s ≡ err not_found)
  unfolding Service.cancel_run Service.events Service.events_after Service.artifacts
      Service.attempts Service.interactions
  foreign_hidden run request after h foreign =
      rw (get_run_foreign run h foreign) (refl, refl, refl, refl, refl, refl, refl)
