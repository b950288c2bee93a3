-- ===== src/Embedded/Capability/Calling.antt =====
-- capability.go: Call, from the checks of a call to its reservation.
use realy.Common.{
  suc, String, Bool, true, not, ◌||◌, Option, none, some, ◌==◌, concat, ◌⊎◌, inl, inr,
  if◌then◌else◌,
}
use realy.Common.Maps.{lookup, insert}
use realy.Types.{CapabilityGrant, CapabilityCall, CapabilityRequest, CapabilityResult}
use realy.Controlplane.Types.{CapabilityReservation, World}
use realy.Embedded.Capability.{
  CallError, CallState, Answer, Invoker, InvokerOptions, Reservations, find_grant, finish_call,
  invoke,
}

abbrev pub refusal : CallError → Answer
refusal e = Answer.failure e

-- What a reservation that does not ask to execute says of the call.
abbrev pub answer_or_pending : Option CapabilityResult → Answer
answer_or_pending none = refusal CallError.pending
answer_or_pending (some result) = Answer.answer result

abbrev pub reserved_answer : CapabilityReservation → Answer
reserved_answer reservation =
    if not (reservation.error == "")
    then refusal (CallError.caused reservation.error)
    else answer_or_pending reservation.result

abbrev pub is_other : CallState → CapabilityCall → CapabilityGrant → Bool
is_other previous call grant =
    not (previous.name == call.name)
    || (not (previous.version == grant.version) || not (previous.resource == call.resource))

abbrev pub previous_answer : Option Answer → Answer
previous_answer none = refusal CallError.still_running
previous_answer (some outcome) = outcome

module _ {S : Type 0} (w : World) (options : InvokerOptions S) where
  abbrev pub request_of : CapabilityGrant → CapabilityCall → CapabilityRequest
  request_of grant call = record {
    call_id = "";
    run_id = options.run.id;
    agent_id = options.run.agent_id;
    principal = options.principal;
    name = grant.name;
    version = grant.version;
    effect = grant.effect;
    resource = call.resource;
    input = call.input;
  }

  abbrev pub ended : CapabilityCall → CallState → Answer → Invoker S → Answer × Invoker S
  ended call state outcome s = (outcome, finish_call call state outcome s)

  abbrev pub after_reserve :
      (CapabilityRequest → String ⊎ String)
      → CapabilityCall
      → CallState
      → CapabilityRequest
      → (String ⊎ CapabilityReservation) × S
      → Invoker S
      → Answer × Invoker S
  after_reserve provider call state request (inl cause, outside) s =
      ended call state (refusal (CallError.caused cause)) (record s { outside = outside })
  after_reserve provider call state request (inr reservation, outside) s =
      let s' = record s { outside = outside } in
      if reservation.execute
      then invoke provider options.reservations call state request reservation s'
      else ended call state (reserved_answer reservation) s'

  -- The answer of the reservation; without one, the call gets an ID and is executed.
  abbrev pub reserved :
      Option (Reservations S)
      → CapabilityCall
      → CapabilityRequest
      → Invoker S
      → (String ⊎ CapabilityReservation) × S
  reserved none call request s = (
    inr record {
      call_id = concat "call" (concat "_" (w.random s.draws));
      execute = true;
      result = none;
      error = "";
    },
    s.outside,
  )
  reserved (some r) call request s =
      r.reserve call.idempotency_key (w.sha256_hex (options.encode request)) request s.outside

  unfoldable pub start_call :
      (CapabilityRequest → String ⊎ String)
      → CapabilityGrant
      → CapabilityCall
      → Invoker S
      → Answer × Invoker S
  start_call provider grant call s =
      let state : CallState = record {
        name = call.name;
        version = grant.version;
        resource = call.resource;
        outcome = none;
      } in
      let s' = record s {
        calls = insert call.idempotency_key state s.calls;
        draws = suc s.draws;
      } in
      let request = request_of grant call in
      after_reserve provider call state request (reserved options.reservations call request s) s'

  abbrev pub with_previous :
      (CapabilityRequest → String ⊎ String)
      → CapabilityGrant
      → CapabilityCall
      → Option CallState
      → Invoker S
      → Answer × Invoker S
  with_previous provider grant call none s = start_call provider grant call s
  with_previous provider grant call (some previous) s =
      if is_other previous call grant
      then (refusal CallError.conflict, s)
      else (previous_answer previous.outcome, s)

  abbrev pub with_grant :
      (CapabilityRequest → String ⊎ String)
      → CallError ⊎ CapabilityGrant
      → CapabilityCall
      → Invoker S
      → Answer × Invoker S
  with_grant provider (inl e) call s = (refusal e, s)
  with_grant provider (inr grant) call s =
      with_previous provider grant call (lookup call.idempotency_key s.calls) s

  abbrev pub with_provider :
      Option (CapabilityRequest → String ⊎ String) → CapabilityCall → Invoker S → Answer × Invoker S
  with_provider none call s = (refusal CallError.provider_missing, s)
  with_provider (some provider) call s =
      if call.idempotency_key == ""
      then (refusal CallError.key_required, s)
      else with_grant provider (find_grant options.grants call) call s

  unfoldable pub call_capability : CapabilityCall → Invoker S → Answer × Invoker S
  call_capability call s = with_provider options.provider call s
