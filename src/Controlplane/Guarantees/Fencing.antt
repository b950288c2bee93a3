-- ===== src/Controlplane/Guarantees/Fencing.antt =====
-- controlplane/memory.go: a report whose attempt or lease is not the run's changes nothing.
use realy.Common.{◌≡◌, ◌∙◌, String, false, Option, some, ℤ, arith}
use realy.Common.Maps.{lookup}
use realy.Types.{Run, RunResult}
use realy.Controlplane.Types.{Assignment, invalid_lease, Payload, World, err}
use realy.Controlplane.State.{MemoryStorage}
use realy.Controlplane.Runs.{authorize, authorize_run}
use realy.Types.{Artifact, CapabilityResult, InteractionRequest}
use realy.Controlplane.Types.{CapabilityReservation}
use realy.Controlplane.Lifecycle.Authorizing.{authorize_found}
use realy.Controlplane.Reports.{
  holds_lease, start, renew, acknowledge_cancellation, append_event_call,
}
use realy.Controlplane.Completion.{complete_run, complete, fail_run, fail}
use realy.Controlplane.Records.{
  add_artifact, reserve_capability, finish_capability, create_interaction, get_interaction,
}

module _ (w : World) (a : Assignment) (run : Run) (s : MemoryStorage)
    (at : lookup a.run_id s.runs ≡ some run) (stale : holds_lease run a ≡ false) where
  stale_authorize : authorize w a.run_id a.attempt_id a.lease_token s ≡ (err invalid_lease, s)
  unfolding authorize_run
  stale_authorize = authorize_found w a.run_id a.attempt_id a.lease_token s run at ∙ ground arith

  stale_complete : (result : RunResult) → complete w a result s ≡ (err invalid_lease, s)
  unfolding complete complete_run
  stale_complete result = rw (at, complete) (rw stale)

  stale_fail : (cause : String) → fail w a cause s ≡ (err invalid_lease, s)
  unfolding fail fail_run
  stale_fail cause = rw (at, fail) (rw stale)

-- A report for a stored run is refused with ErrInvalidLease and changes nothing, not even a reading
-- of the clock, if its attempt ID is not that of the run's attempt, its lease token is empty, or
-- its lease token is not the attempt's: by each of the eleven methods that take an assignment.
pub stale_refused :
    (w : World) (a : Assignment) (run : Run) (s : MemoryStorage) (ttl : ℤ) (kind : String)
    (value : Payload) (event_id : Option String) (result : RunResult) (cause key hash id : String)
    (artifact : Artifact) (reservation : CapabilityReservation) (output : CapabilityResult)
    (request : InteractionRequest)
    → lookup a.run_id s.runs ≡ some run
    → holds_lease run a ≡ false
    → (start w a s ≡ (err invalid_lease, s))
      × (renew w a ttl s ≡ (err invalid_lease, s))
      × (acknowledge_cancellation w a s ≡ (err invalid_lease, s))
      × (append_event_call w a.run_id a.attempt_id a.lease_token kind value event_id s
          ≡ (err invalid_lease, s))
      × (complete w a result s ≡ (err invalid_lease, s))
      × (fail w a cause s ≡ (err invalid_lease, s))
      × (add_artifact w a artifact s ≡ (err invalid_lease, s))
      × (reserve_capability w a key hash s ≡ (err invalid_lease, s))
      × (finish_capability w a reservation output cause s ≡ (err invalid_lease, s))
      × (create_interaction w a request s ≡ (err invalid_lease, s))
      × (get_interaction w a id s ≡ (err invalid_lease, s))
unfolding start renew acknowledge_cancellation append_event_call add_artifact reserve_capability
    finish_capability create_interaction get_interaction
stale_refused w a run s ttl kind value event_id result cause key hash id artifact reservation output
      request at stale =
    let e = stale_authorize w a run s at stale in
    (
      rw e,
      rw e,
      rw e,
      rw e,
      stale_complete w a run s at stale result,
      stale_fail w a run s at stale cause,
      rw e,
      rw e,
      rw e,
      rw e,
      rw e,
    )
