-- ===== src/Node/Lease.antt =====
-- node/worker.go: keepLease, the renewals that run beside an execution, and the interactions that an
-- execution waits for. Times are nanoseconds.
pub mod Bounds
use realy.Common.{
  ℕ, ◌/◌, String, Bool, true, false, Option, none, some, List, [], ◌∷◌, ◌==◌, ltb, leb,
  if◌then◌else◌, ◌⊎◌, inl, inr,
}
use realy.Types.{Time, Interaction, InteractionRequest}
use realy.Controlplane.Types.{
  Assignment, LeaseUpdate, Error, not_found, invalid_lease, invalid_transition, other, Result, ok,
  err,
}
use realy.Node.Plane.{ControlPlane}

-- How the keeper ends: it was stopped, the lease is lost (at its deadline, or by an error), or the
-- run is to be cancelled.
pub data LeaseEnd : Type 0 where
  released : LeaseEnd
  lost : Option Error → LeaseEnd
  cancelled : (reason : String) → LeaseEnd

-- One round of the loop: when it begins, whether the keeper is stopped while it waits, whether it is
-- stopped when the renewal has been answered, and when that is.
pub record Tick : Type 0 where
  pub woken : Time
  pub stopped : Bool
  pub stopped_after : Bool
  pub answered_at : Time

-- How long a round waits: a third of what remains, at most five seconds, at least ten milliseconds.
unfoldable pub wait_of : ℕ → ℕ
wait_of remaining =
    let third = remaining / 3 in
    let short = if ltb 5000000000 third then 5000000000 else third in
    if ltb short 10000000 then 10000000 else short

abbrev pub is_lease_error : Error → Bool
is_lease_error invalid_lease = true
is_lease_error invalid_transition = true
is_lease_error not_found = true
is_lease_error _ = false

-- The keeper ends, or goes on with a deadline.
abbrev pub after_renewal : Tick → Time → Result LeaseUpdate → LeaseEnd ⊎ Time
after_renewal tick deadline (ok update) =
    if update.cancel_requested
    then inl (LeaseEnd.cancelled update.cancel_reason)
    else inr update.lease_expires_at
after_renewal tick deadline (err e) =
    if tick.stopped_after
    then inl LeaseEnd.released
    else (if is_lease_error e
        then inl (LeaseEnd.lost (some e))
        else (if ltb tick.answered_at deadline then inr deadline else inl (LeaseEnd.lost (some e))))

module _ {S : Type 0} (plane : ControlPlane S) (a : Assignment) where
  unfoldable pub keep_round : Tick → Time → S → (LeaseEnd ⊎ Time) × S
  keep_round tick deadline s =
      let (answer, s') = plane.renew a s in
      if leb deadline tick.woken
      then (inl (LeaseEnd.lost none), s)
      else (if tick.stopped
          then (inl LeaseEnd.released, s)
          else (after_renewal tick deadline answer, s'))

  -- The rounds until the keeper ends, from the deadline that it goes by.
  abbrev pub keep_on :
      (LeaseEnd ⊎ Time) × S → (Time → S → (LeaseEnd ⊎ Time) × S) → (LeaseEnd ⊎ Time) × S
  keep_on (inl end, s) next = (inl end, s)
  keep_on (inr deadline, s) next = next deadline s

  unfoldable pub keep_lease : List Tick → Time → S → (LeaseEnd ⊎ Time) × S
  keep_lease [] deadline s = (inr deadline, s)
  keep_lease (tick ∷ ticks) deadline s =
      keep_on (keep_round tick deadline s) (λ deadline' s'. keep_lease ticks deadline' s')

  -- The polls of interactionBroker.Request; `true` is a poll that finds the context done. `none` where
  -- the last poll leaves it waiting.
  abbrev pub after_poll :
      Result Interaction × S → (S → Option (Result String) × S) → Option (Result String) × S
  after_poll (err e, s) next = (some (err e), s)
  after_poll (ok value, s) next =
      if value.state == "resolved" then (some (ok value.response), s) else next s

  unfoldable pub await_response : List Bool → String → S → Option (Result String) × S
  await_response [] id s = (none, s)
  await_response (true ∷ polls) id s = (some (err (other "context done")), s)
  await_response (false ∷ polls) id s =
      after_poll (plane.get_interaction a id s) (λ s'. await_response polls id s')

  abbrev pub after_request : Result Interaction × S → List Bool → Option (Result String) × S
  after_request (err e, s) polls = (some (err e), s)
  after_request (ok value, s) polls = await_response polls value.id s

  unfoldable pub request_interaction :
      InteractionRequest → List Bool → S → Option (Result String) × S
  request_interaction request polls s = after_request (plane.create_interaction a request s) polls
