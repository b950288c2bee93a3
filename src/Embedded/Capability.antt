-- ===== src/Embedded/Capability.antt =====
-- capability.go: the scoped capability calls of one run. The provider, and the calls that reserve
-- and record a capability call elsewhere, are arguments on a state `S` of their own; `encode` is
-- json.Marshal of the request. A call is one step here: calls under different keys share only the
-- map, and a call under a key whose first call still runs waits for it, which is `still_running`.
pub mod Calling
pub mod Grants
pub mod Granted
pub mod Once
use realy.Common.{
  ℕ, suc, String, Bool, true, false, not, ◌&&◌, ◌||◌, Option, none, some, List, [], ◌∷◌, ◌++◌, ◌==◌,
  concat, ◌⊎◌, inl, inr, if◌then◌else◌,
}
use realy.Common.Maps.{Map, lookup, insert}
use realy.Types.{
  Run, Principal, CapabilityGrant, CapabilityCall, CapabilityRequest, CapabilityResult,
}
use realy.Controlplane.Types.{CapabilityReservation, Payload, fields, text, World}

pub data CallError : Type 0 where
  provider_missing key_required not_granted out_of_scope conflict pending still_running : CallError
  caused : String → CallError

pub data Answer : Type 0 where
  answer : CapabilityResult → Answer
  failure : CallError → Answer

-- `outcome` is set when `done` is closed.
pub record CallState : Type 0 where
  pub name : String
  pub version : String
  pub resource : String
  pub outcome : Option Answer

pub record Reservations (S : Type 0) : Type 0 where
  pub reserve : String → String → CapabilityRequest → S → (String ⊎ CapabilityReservation) × S
  pub finish : CapabilityReservation → CapabilityResult → String → S → Option String × S

pub record Invoker (S : Type 0) : Type 0 where
  pub calls : Map CallState
  pub emitted : List (String × Payload)
  pub invoked : List CapabilityRequest
  pub outside : S
  pub draws : ℕ

pub record InvokerOptions (S : Type 0) : Type 0 where
  pub run : Run
  pub principal : Principal
  pub grants : List CapabilityGrant
  pub provider : Option (CapabilityRequest → String ⊎ String)
  pub reservations : Option (Reservations S)
  pub encode : CapabilityRequest → String

unfoldable pub contains : List String → String → Bool
contains [] value = false
contains (first ∷ rest) value = first == value || contains rest value

abbrev pub is_empty : List String → Bool
is_empty [] = true
is_empty (_ ∷ _) = false

abbrev pub is_skipped : CapabilityGrant → CapabilityCall → Bool
is_skipped grant call =
    not (grant.name == call.name)
    || (not (call.version == "") && not (grant.version == call.version))

abbrev pub in_scope : CapabilityGrant → CapabilityCall → CallError ⊎ CapabilityGrant
in_scope grant call =
    if not (is_empty grant.resources) && not (contains grant.resources call.resource)
    then inl CallError.out_of_scope
    else inr grant

-- The first grant of the name and version decides.
unfoldable pub find_grant : List CapabilityGrant → CapabilityCall → CallError ⊎ CapabilityGrant
unfolding contains
find_grant [] call = inl CallError.not_granted
find_grant (grant ∷ grants) call =
    let later = find_grant grants call in
    if is_skipped grant call then later else in_scope grant call

abbrev pub no_result : CapabilityResult
no_result = record { call_id = ""; output = "" }

-- The fields of an event that tells of a call.
abbrev pub told : String → String → String → String → Payload
told id name key value =
    fields (("call_id", text id) ∷ ("name", text name) ∷ (key, text value) ∷ [])

module _ {S : Type 0} where
  abbrev pub emit : String → Payload → Invoker S → Invoker S
  emit kind value s = record s { emitted = s.emitted ++ (kind, value) ∷ [] }

  abbrev pub finish_call : CapabilityCall → CallState → Answer → Invoker S → Invoker S
  finish_call call state outcome s = record s {
    calls = insert call.idempotency_key (record state { outcome = some outcome }) s.calls;
  }

  abbrev pub record_failure :
      Option (Reservations S) → CapabilityReservation → String → Invoker S → Invoker S
  record_failure none reservation cause s = s
  record_failure (some r) reservation cause s = record s {
    outside = (r.finish reservation no_result cause s.outside).1;
  }

  abbrev pub after_finish :
      CapabilityCall
      → CallState
      → CapabilityResult
      → Option String × S
      → Invoker S
      → Answer × Invoker S
  after_finish call state result (some cause, outside) s = (
    Answer.failure (CallError.caused cause),
    finish_call call state (Answer.failure (CallError.caused cause))
        (record s { outside = outside }),
  )
  after_finish call state result (none, outside) s = (
    Answer.answer result,
    emit "capability.succeeded"
        (fields (("call_id", text result.call_id) ∷ ("name", text call.name) ∷ []))
        (finish_call call state (Answer.answer result) (record s { outside = outside })),
  )

  abbrev pub record_result :
      Option (Reservations S) → CapabilityReservation → CapabilityResult → S → Option String × S
  record_result none reservation result outside = (none, outside)
  record_result (some r) reservation result outside = r.finish reservation result "" outside

  abbrev pub after_invoke :
      Option (Reservations S)
      → CapabilityCall
      → CallState
      → CapabilityReservation
      → String ⊎ String
      → Invoker S
      → Answer × Invoker S
  after_invoke rs call state reservation (inl cause) s = (
    Answer.failure (CallError.caused cause),
    finish_call call state (Answer.failure (CallError.caused cause)) (
        emit "capability.failed" (told reservation.call_id call.name "error" cause)
          (record_failure rs reservation cause s)),
  )
  after_invoke rs call state reservation (inr output) s =
      let result : CapabilityResult = record { call_id = reservation.call_id; output = output } in
      after_finish call state result (record_result rs reservation result s.outside) s

  unfoldable pub invoke :
      (CapabilityRequest → String ⊎ String)
      → Option (Reservations S)
      → CapabilityCall
      → CallState
      → CapabilityRequest
      → CapabilityReservation
      → Invoker S
      → Answer × Invoker S
  invoke provider rs call state request reservation s =
      let named = record request { call_id = reservation.call_id } in
      let s' =
        emit "capability.started" (told reservation.call_id call.name "resource" call.resource) s in
      after_invoke rs call state reservation (provider named)
        (record s' { invoked = s.invoked ++ named ∷ [] })
