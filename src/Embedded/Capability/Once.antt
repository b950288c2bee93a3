-- ===== src/Embedded/Capability/Once.antt =====
-- capability.go: a call that is made again.
use realy.Common.{
  ◌≡◌, refl, sym, ap, subst, ◌⊎◌, inl, inr, String, Bool, false, Option, none, some, suc, arith,
  eq_refl, Bool-cases, ◌==◌, if◌then◌else◌,
}
use realy.Common.Maps.{lookup, insert, lookup-insert_self}
use realy.Types.{CapabilityGrant, CapabilityCall, CapabilityRequest, CapabilityResult}
use realy.Controlplane.Types.{CapabilityReservation, World}
use realy.Embedded.Capability.{
  CallError, CallState, Answer, Invoker, InvokerOptions, Reservations, find_grant, invoke,
  after_invoke, after_finish, record_result,
}
use realy.Embedded.Capability.Calling.{
  call_capability, start_call, with_provider, with_grant, with_previous, after_reserve, reserved,
  ended, reserved_answer, request_of, is_other, previous_answer,
}

module _ {S : Type 0} where
  -- The call's entry holds the answer.
  IsKept : CapabilityCall → CallState → Answer × Invoker S → Type 0
  IsKept call state (outcome, s) =
      lookup call.idempotency_key s.calls ≡ some (record state { outcome = some outcome })

  after_finish-IsKept :
      (call : CapabilityCall) (state : CallState) (result : CapabilityResult)
      (recorded : Option String × S) (s : Invoker S)
      → IsKept call state (after_finish call state result recorded s)
  unfolding IsKept
  after_finish-IsKept call state result (none, outside) s = lookup-insert_self _ _ s.calls
  after_finish-IsKept call state result (some cause, outside) s = lookup-insert_self _ _ s.calls

  after_invoke-IsKept :
      (rs : Option (Reservations S)) (call : CapabilityCall) (state : CallState)
      (reservation : CapabilityReservation) (output : String ⊎ String) (s : Invoker S)
      → IsKept call state (after_invoke rs call state reservation output s)
  unfolding IsKept
  after_invoke-IsKept none call state reservation (inl cause) s = lookup-insert_self _ _ s.calls
  after_invoke-IsKept (some r) call state reservation (inl cause) s = lookup-insert_self _ _ s.calls
  after_invoke-IsKept rs call state reservation (inr output) s =
      let result : CapabilityResult = record { call_id = reservation.call_id; output = output } in
      after_finish-IsKept call state result (record_result rs reservation result s.outside) s

  module _ (w : World) (options : InvokerOptions S) where
    after_reserve-IsKept :
        (provider : CapabilityRequest → String ⊎ String) (call : CapabilityCall) (state : CallState)
        (request : CapabilityRequest) (answered : (String ⊎ CapabilityReservation) × S)
        (s : Invoker S)
        → IsKept call state (after_reserve w options provider call state request answered s)
    unfolding IsKept invoke
    after_reserve-IsKept provider call state request (inl cause, outside) s =
        lookup-insert_self _ _ s.calls
    after_reserve-IsKept provider call state request (inr reservation, outside) s =
        let named = record request { call_id = reservation.call_id } in
        let s' = record s { outside = outside } in
        let executed = invoke provider options.reservations call state request reservation s' in
        let kept = ended w options call state (reserved_answer reservation) s' in
        let chosen = λ (b : Bool). IsKept call state (if b then executed else kept) in
        elim (Bool-cases reservation.execute) [
          | inl e ↦
              subst chosen (sym e)
                (after_invoke-IsKept options.reservations call state reservation (provider named) _)
          | inr e ↦ subst chosen (sym e) (lookup-insert_self _ _ s.calls)
        ]

    -- The state is as before, or the entry answers the same call.
    IsRepeatable : CapabilityCall → CapabilityGrant → Invoker S → Answer × Invoker S → Type 0
    IsRepeatable call grant s (outcome, s') =
        (s' ≡ s)
        ⊎ ((previous : CallState) × (lookup call.idempotency_key s'.calls ≡ some previous)
            × (is_other previous call grant ≡ false)
            × (previous.outcome ≡ some outcome))

    with_previous-IsRepeatable :
        (provider : CapabilityRequest → String ⊎ String) (grant : CapabilityGrant)
        (call : CapabilityCall) (previous : Option CallState) (s : Invoker S)
        → IsRepeatable call grant s (with_previous w options provider grant call previous s)
    unfolding IsRepeatable start_call IsKept
    with_previous-IsRepeatable provider grant call none s =
        let state : CallState = record {
          name = call.name;
          version = grant.version;
          resource = call.resource;
          outcome = none;
        } in
        let s' = record s {
          calls = insert call.idempotency_key state s.calls;
          draws = suc s.draws;
        } in
        let request = request_of w options grant call in
        let answered = reserved w options options.reservations call request s in
        inr (
          record state {
            outcome = some (after_reserve w options provider call state request answered s').0;
          },
          after_reserve-IsKept provider call state request answered s',
          ground (arith, eq_refl call.name, eq_refl grant.version, eq_refl call.resource),
          refl,
        )
    with_previous-IsRepeatable provider grant call (some previous) s =
        elim (Bool-cases (is_other previous call grant)) [
          | inl e ↦ rw e (inl refl)
          | inr e ↦ rw e (inl refl)
        ]

    with_previous_again :
        (provider : CapabilityRequest → String ⊎ String) (grant : CapabilityGrant)
        (call : CapabilityCall) (previous : CallState) (outcome : Answer) (s : Invoker S)
        → lookup call.idempotency_key s.calls ≡ some previous
        → is_other previous call grant ≡ false
        → previous.outcome ≡ some outcome
        → with_previous w options provider grant call (lookup call.idempotency_key s.calls) s
          ≡ (outcome, s)
    with_previous_again provider grant call previous outcome s found same answered =
        rw found (rw same (ap (λ o. (previous_answer o, s)) answered))

    with_grant_again :
        (provider : CapabilityRequest → String ⊎ String) (found : CallError ⊎ CapabilityGrant)
        (call : CapabilityCall) (s : Invoker S)
        → with_grant w options provider found call (with_grant w options provider found call s).1
          ≡ with_grant w options provider found call s
    unfolding IsRepeatable
    with_grant_again provider (inl e) call s = refl
    with_grant_again provider (inr grant) call s =
        let first = with_grant w options provider (inr grant) call s in
        elim (with_previous-IsRepeatable provider grant call (lookup call.idempotency_key s.calls)
          s) [
            | inl same ↦
                subst (λ x. with_grant w options provider (inr grant) call x ≡ first) (sym same)
                  refl
            | inr (previous, entry, same, answered) ↦
                with_previous_again provider grant call previous first.0 first.1 entry same answered
          ]

    with_provider_again :
        (provider : Option (CapabilityRequest → String ⊎ String)) (call : CapabilityCall)
        (s : Invoker S)
        → with_provider w options provider call (with_provider w options provider call s).1
          ≡ with_provider w options provider call s
    with_provider_again none call s = refl
    with_provider_again (some provider) call s = elim (Bool-cases (call.idempotency_key == "")) [
      | inl e ↦ rw e refl
      | inr e ↦ rw e (with_grant_again provider (find_grant options.grants call) call s)
    ]

    -- A call that is made again, right after it was answered, gets the same answer, an error too,
    -- and changes nothing: the provider is not invoked again and nothing is emitted or reserved.
    pub call_again :
        (call : CapabilityCall) (s : Invoker S)
        → call_capability w options call (call_capability w options call s).1
          ≡ call_capability w options call s
    unfolding call_capability
    call_again call s = with_provider_again options.provider call s
