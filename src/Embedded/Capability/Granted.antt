-- ===== src/Embedded/Capability/Granted.antt =====
-- capability.go: what reaches the provider is granted, and a call under a key is made once.
use realy.Common.{
  ◌≡◌, refl, sym, subst, ◌⊎◌, inl, inr, String, Bool, Option, none, some, [], ◌∷◌, ◌++◌, Bool-cases,
  if◌then◌else◌, suc, ◌==◌,
}
use realy.Common.Maps.{lookup, insert}
use realy.Types.{CapabilityGrant, CapabilityCall, CapabilityRequest, CapabilityResult}
use realy.Controlplane.Types.{CapabilityReservation, World}
use realy.Embedded.Capability.{
  CallError, CallState, Invoker, InvokerOptions, Reservations, find_grant, invoke, after_invoke,
  record_result, after_finish, told, emit,
}
use realy.Embedded.Capability.Calling.{
  call_capability, start_call, with_provider, with_grant, with_previous, after_reserve, reserved,
  ended, reserved_answer, request_of, is_other,
}
use realy.Embedded.Capability.Grants.{find_grant_sound}
use mathlib.Core.List.{Memᴰ}

-- A grant that lets a request be made: of its name, version and effect, and for its resource.
pub record Covers (grant : CapabilityGrant) (request : CapabilityRequest) : Type 0 where
  pub name : grant.name ≡ request.name
  pub version : grant.version ≡ request.version
  pub effect : grant.effect ≡ request.effect
  pub resource : (grant.resources ≡ []) ⊎ Memᴰ request.resource grant.resources

module _ {S : Type 0} where
  after_finish_invoked :
      (call : CapabilityCall) (state : CallState) (result : CapabilityResult)
      (recorded : Option String × S) (s : Invoker S)
      → (after_finish call state result recorded s).1.invoked ≡ s.invoked
  after_finish_invoked call state result (none, outside) s = refl
  after_finish_invoked call state result (some cause, outside) s = refl

  after_invoke_invoked :
      (rs : Option (Reservations S)) (call : CapabilityCall) (state : CallState)
      (reservation : CapabilityReservation) (output : String ⊎ String) (s : Invoker S)
      → (after_invoke rs call state reservation output s).1.invoked ≡ s.invoked
  after_invoke_invoked none call state reservation (inl cause) s = refl
  after_invoke_invoked (some r) call state reservation (inl cause) s = refl
  after_invoke_invoked rs call state reservation (inr output) s =
      let result : CapabilityResult = record { call_id = reservation.call_id; output = output } in
      after_finish_invoked call state result (record_result rs reservation result s.outside) s

  invoke_invoked :
      (provider : CapabilityRequest → String ⊎ String) (rs : Option (Reservations S))
      (call : CapabilityCall) (state : CallState) (request : CapabilityRequest)
      (reservation : CapabilityReservation) (s : Invoker S)
      → (invoke provider rs call state request reservation s).1.invoked
        ≡ s.invoked ++ record request { call_id = reservation.call_id } ∷ []
  unfolding invoke
  invoke_invoked provider rs call state request reservation s =
      let named = record request { call_id = reservation.call_id } in
      let kind : String = "capability.started" in
      after_invoke_invoked rs call state reservation (provider named)
        (record (emit kind (told reservation.call_id call.name "resource" call.resource) s) {
          invoked = s.invoked ++ named ∷ [];
        })

  module _ (w : World) (options : InvokerOptions S) where
    -- What one call adds to the provider's requests: nothing, or one that a grant covers.
    pub AddsGranted : Invoker S → Invoker S → Type 0
    AddsGranted s s' =
        (s'.invoked ≡ s.invoked)
        ⊎ ((request : CapabilityRequest) × (grant : CapabilityGrant) × (s'.invoked
              ≡ s.invoked ++ request ∷ [])
            × (request.run_id ≡ options.run.id)
            × Memᴰ grant options.grants
            × Covers grant request)

    after_reserve_granted :
        (provider : CapabilityRequest → String ⊎ String) (call : CapabilityCall) (state : CallState)
        (request : CapabilityRequest) (grant : CapabilityGrant)
        (answered : (String ⊎ CapabilityReservation) × S) (s : Invoker S)
        → request.run_id ≡ options.run.id
        → Memᴰ grant options.grants
        → Covers grant request
        → AddsGranted s (after_reserve w options provider call state request answered s).1
    unfolding AddsGranted
    after_reserve_granted provider call state request grant (inl cause, outside) s r m c = inl refl
    after_reserve_granted provider call state request grant (inr reservation, outside) s r m c =
        let named = record request { call_id = reservation.call_id } in
        let s' = record s { outside = outside } in
        let executed = invoke provider options.reservations call state request reservation s' in
        let ended = ended w options call state (reserved_answer reservation) s' in
        let chosen = λ (b : Bool). AddsGranted s (if b then executed else ended).1 in
        elim (Bool-cases reservation.execute) [
          | inl e ↦ subst chosen (sym e) (
              inr (
                named,
                grant,
                invoke_invoked provider options.reservations call state request reservation s',
                r,
                m,
                record {
                  name = c.name;
                  version = c.version;
                  effect = c.effect;
                  resource = c.resource;
                },
              ))
          | inr e ↦ subst chosen (sym e) (inl refl)
        ]

    start_call_granted :
        (provider : CapabilityRequest → String ⊎ String) (grant : CapabilityGrant)
        (call : CapabilityCall) (s : Invoker S)
        → Memᴰ grant options.grants
        → (grant.resources ≡ []) ⊎ Memᴰ call.resource grant.resources
        → AddsGranted s (start_call w options provider grant call s).1
    unfolding AddsGranted start_call
    start_call_granted provider grant call s m scoped =
        let state : CallState = record {
          name = call.name;
          version = grant.version;
          resource = call.resource;
          outcome = none;
        } in
        let s' = record s {
          calls = insert call.idempotency_key state s.calls;
          draws = suc s.draws;
        } in
        let request = request_of w options grant call in
        after_reserve_granted provider call state request grant
          (reserved w options options.reservations call request s) s' refl m
          (record { name = refl; version = refl; effect = refl; resource = scoped })

    with_previous_granted :
        (provider : CapabilityRequest → String ⊎ String) (grant : CapabilityGrant)
        (call : CapabilityCall) (previous : Option CallState) (s : Invoker S)
        → Memᴰ grant options.grants
        → (grant.resources ≡ []) ⊎ Memᴰ call.resource grant.resources
        → AddsGranted s (with_previous w options provider grant call previous s).1
    unfolding AddsGranted
    with_previous_granted provider grant call none s m scoped =
        start_call_granted provider grant call s m scoped
    with_previous_granted provider grant call (some previous) s m scoped =
        elim (Bool-cases (is_other previous call grant)) [
          | inl e ↦ rw e (inl refl)
          | inr e ↦ rw e (inl refl)
        ]

    with_grant_granted :
        (provider : CapabilityRequest → String ⊎ String) (found : CallError ⊎ CapabilityGrant)
        (call : CapabilityCall) (s : Invoker S)
        → find_grant options.grants call ≡ found
        → AddsGranted s (with_grant w options provider found call s).1
    unfolding AddsGranted
    with_grant_granted provider (inl e) call s h = inl refl
    with_grant_granted provider (inr grant) call s h =
        let (member, _, scoped) = find_grant_sound options.grants call grant h in
        with_previous_granted provider grant call (lookup call.idempotency_key s.calls) s member
          scoped

    with_provider_granted :
        (provider : Option (CapabilityRequest → String ⊎ String)) (call : CapabilityCall)
        (s : Invoker S)
        → AddsGranted s (with_provider w options provider call s).1
    unfolding AddsGranted
    with_provider_granted none call s = inl refl
    with_provider_granted (some provider) call s = elim (Bool-cases (call.idempotency_key == "")) [
      | inl e ↦ rw e (inl refl)
      | inr e ↦ rw e (with_grant_granted provider (find_grant options.grants call) call s refl)
    ]

    -- A capability call adds at most one request to those that the provider has been given, and
    -- only one of the invoker's own run that one of its grants covers: of the grant's name, version
    -- and effect, and for a resource that the grant lists, unless it lists none.
    pub call_granted :
        (call : CapabilityCall) (s : Invoker S) → AddsGranted s (call_capability w options call s).1
    unfolding call_capability
    call_granted call s = with_provider_granted options.provider call s
