-- ===== src/Node/Delivery.antt =====
-- node/events.go and node/final.go: the loops that report again until the control plane answers or
-- the deadline comes. Times are milliseconds. `report n` is the n-th report on a state `S`, the
-- control plane's among others: its answer, `none` for Go's nil, and the time that it takes. Where
-- the deadline and the timer come at the same moment, Go may take either; here the deadline is
-- taken.
use realy.Common.{
  ℕ, zero, suc, ◌+◌, ◌*◌, String, Bool, true, false, Option, none, some, ltb, if◌then◌else◌,
}
use realy.Controlplane.Types.{
  Error, not_found, no_assignment, invalid_lease, invalid_transition, run_cancelled,
  incompatible_protocol, idempotency_conflict, other, Payload, World,
}

-- The errors that no further report can change; `staleEvent` of node/outbox.go asks for the same.
unfoldable pub is_final : Error → Bool
is_final not_found = true
is_final no_assignment = false
is_final invalid_lease = true
is_final invalid_transition = true
is_final run_cancelled = true
is_final incompatible_protocol = false
is_final idempotency_conflict = false
is_final (other message) = false

-- How the loop ends, with the number of the report at which it does.
pub data Verdict : Type 0 where
  delivered : ℕ → Verdict
  rejected : ℕ → Error → Verdict
  expired : ℕ → Error → Verdict

abbrev pub next_delay : ℕ → ℕ
next_delay delay = if ltb delay 1000 then delay * 2 else delay

-- The error that the loop gives back: at the deadline, the last one and the context's. The loop
-- never runs out of fuel.
abbrev pub error_of : Option Verdict → Option Error
error_of none = some (other "out of fuel")
error_of (some (Verdict.delivered n)) = none
error_of (some (Verdict.rejected n e)) = some e
error_of (some (Verdict.expired n e)) = some e

module _ {S : Type 0} where
  abbrev pub settle : Option Error → Bool → ℕ → Option Verdict × S → S → Option Verdict × S
  settle none goes_on n rest s = (some (Verdict.delivered n), s)
  settle (some e) goes_on n rest s =
      if is_final e
      then (some (Verdict.rejected n e), s)
      else (if goes_on then rest else (some (Verdict.expired n e), s))

  -- One round from the given delay and elapsed time; `none` only where the fuel runs out.
  unfoldable pub retry_from :
      (limit : ℕ)
      → (ℕ → S → (Option Error × ℕ) × S)
      → (fuel n delay elapsed : ℕ) → S
      → Option Verdict × S
  retry_from limit report zero n delay elapsed s = (none, s)
  retry_from limit report (suc fuel) n delay elapsed s =
      let ((answer, took), s') = report n s in
      let resumed = elapsed + took + delay in
      settle answer (ltb resumed limit) n
        (retry_from limit report fuel (suc n) (next_delay delay) resumed s') s'

  -- The time goes on by at least 100 in each round, so one round for each millisecond is enough.
  unfoldable pub retry : (limit : ℕ) → (ℕ → S → (Option Error × ℕ) × S) → S → Option Verdict × S
  retry limit report s = retry_from limit report (suc limit) 0 100 0 s

  unfoldable pub retry_final_report : (ℕ → S → (Option Error × ℕ) × S) → S → Option Error × S
  retry_final_report report s = let (v, s') = retry 10000 report s in (error_of v, s')

  abbrev pub deliver_payload :
      (size_of : String → ℕ)
      → Option String
      → (String → ℕ → S → (Option Error × ℕ) × S)
      → S
      → Option Error × S
  deliver_payload size_of none append s = (some (other "json"), s)
  deliver_payload size_of (some payload) append s =
      let (v, s') = retry 5000 (append payload) s in
      if ltb 1048576 (size_of payload)
      then (some (other "event payload exceeds 1 MiB"), s)
      else (error_of v, s')

  -- `append` is AppendEvent with the encoded payload, and `size_of` the number of a text's bytes.
  unfoldable pub deliver_event :
      World
      → (size_of : String → ℕ) → (String → ℕ → S → (Option Error × ℕ) × S)
      → Payload
      → S
      → Option Error × S
  deliver_event w size_of append value s = deliver_payload size_of (w.marshal value) append s
