-- ===== src/Http/Stream.antt =====
-- transport/httpapi: the stream of a run's events, streamEvents of handler.go and StreamEvents of
-- client.go. The stream is its lines, as bufio.Scanner gives them: encoded JSON has no line break.
pub mod Reading
pub mod Following
pub mod Finished
mod Tests
use realy.Common.{
  ℕ, String, Bool, true, false, not, ◌||◌, Option, none, some, List, [], ◌∷◌, ◌++◌, ◌==◌, ℤ, pos,
  negsuc, ltb, leb, is_some, if◌then◌else◌, concat, strip_prefix, ◌⊎◌, inl, inr,
}
use realy.Types.{Event, Run, RunStatus}
use realy.Controlplane.Types.{Error, other, Result, ok, err}
use realy.Http.Wire.{Response, Codec, Wiring}
use realy.Http.Handler.{write_error, write_message}

-- What a round of the server's loop waits for: the request ends, a keepalive or a poll is due.
pub data Beat : Type 0 where
  ended keepalive poll : Beat

-- A round: the state at GetRun, what comes, and the state at EventsAfter.
pub record Round (S : Type 0) : Type 0 where
  pub seen : S
  pub beat : Beat
  pub later : S

abbrev pub stream_terminal : RunStatus → Bool
stream_terminal RunStatus.succeeded = true
stream_terminal RunStatus.failed = true
stream_terminal RunStatus.cancelled = true
stream_terminal _ = false

-- The lines that were written, the last number, and whether all could be encoded.
pub record Written : Type 0 where
  pub lines : List String
  pub after : ℕ
  pub complete : Bool

module _ (codec : Codec Event) (decimal : ℕ → String) where
  abbrev pub frame : Event → String → List String
  frame event encoded =
      concat "id: " (decimal event.sequence)
      ∷ "event: relay.event"
      ∷ concat "data:" (concat " " encoded)
      ∷ ""
      ∷ []

  abbrev pub write_encoded : ℕ → Event → Option String → Written → Written
  write_encoded after event none rest = record { lines = []; after = after; complete = false }
  write_encoded after event (some encoded) rest = record rest {
    lines = frame event encoded ++ rest.lines;
  }

  unfoldable pub write_events : ℕ → List Event → Written
  write_events after [] = record { lines = []; after = after; complete = true }
  write_events after (event ∷ events) =
      let skipped = write_events after events in
      let rest = write_events event.sequence events in
      if leb event.sequence after
      then skipped
      else write_encoded after event (codec.encode event) rest

  module _ {S : Type 0} (get_run : S → Result Run)
      (events_after : ℕ → S → Result (List Event)) where
    abbrev pub last_lines : ℕ → Result (List Event) → List String
    last_lines after (err e) = []
    last_lines after (ok values) = (write_events after values).lines

    abbrev pub poll_lines : ℕ → Result (List Event) → (ℕ → List String) → List String
    poll_lines after (err e) next = []
    poll_lines after (ok values) next =
        let written = write_events after values in
        if written.complete then written.lines ++ next written.after else written.lines

    abbrev pub beat_lines : ℕ → Beat → S → (ℕ → List String) → List String
    beat_lines after Beat.ended s next = []
    beat_lines after Beat.keepalive s next = ": keepalive" ∷ "" ∷ next after
    beat_lines after Beat.poll s next = poll_lines after (events_after after s) next

    abbrev pub round_lines : ℕ → Result Run → Beat → S → (ℕ → List String) → List String
    round_lines after (err e) beat s next = []
    round_lines after (ok run) beat s next =
        if stream_terminal run.status
        then last_lines after (events_after after s)
        else beat_lines after beat s next

    -- The rounds of the server's loop; the list may end before the loop does.
    unfoldable pub loop_lines : List (Round S) → ℕ → List String
    loop_lines [] after = []
    loop_lines (round ∷ rounds) after =
        round_lines after (get_run round.seen) round.beat round.later (loop_lines rounds)

    abbrev pub opened_stream :
        Wiring → ℕ → Result (List Event) → List (Round S) → Response ⊎ List String
    opened_stream wiring after (err e) rounds = inl (write_error wiring e)
    opened_stream wiring after (ok values) rounds =
        inr (poll_lines after (ok values) (loop_lines rounds))

    -- The number that is asked for: the query's, else the header's, and zero without either.
    abbrev pub start_stream : Wiring → Option ℤ → S → List (Round S) → Response ⊎ List String
    start_stream wiring none s rounds =
        inl (write_message wiring 400 "after must be a non-negative event sequence")
    start_stream wiring (some (negsuc n)) s rounds =
        inl (write_message wiring 400 "after must be a non-negative event sequence")
    start_stream wiring (some (pos after)) s rounds =
        opened_stream wiring after (events_after after s) rounds

    unfoldable pub stream_events :
        Wiring
        → (atoi : String → Option ℤ) → (query header : String) → S
        → List (Round S)
        → Response ⊎ List String
    stream_events wiring atoi query header s rounds =
        let value = if query == "" then header else query in
        start_stream wiring (if value == "" then some (pos 0) else atoi value) s rounds

-- What the client has read: the data of the event that it is in, the last number, whether an event
-- that ends a run has come, the events that were handled, and the error that ended it.
pub record Reader : Type 0 where
  pub buffer : String
  pub after : ℕ
  pub terminal : Bool
  pub handled : List Event
  pub failure : Option Error

abbrev pub ends_run : Event → Bool
ends_run event =
    event.type_name == "run.succeeded"
    || (event.type_name == "run.failed" || event.type_name == "run.cancelled")

-- `size_of` is the number of a text's bytes.
module _ (codec : Codec Event) (trim : String → String) (handle : Event → Option Error)
    (size_of : String → ℕ) where
  abbrev pub after_handle : Event → Option Error → Reader → Reader
  after_handle event (some e) r = record r { failure = some e }
  after_handle event none r = record r { terminal = r.terminal || ends_run event }

  abbrev pub read_event : Option Event → Reader → Reader
  read_event none r = record r { failure = some (other "decode Relay event stream") }
  read_event (some event) r =
      if ltb r.after event.sequence
      then after_handle event (handle event)
          (record r { buffer = ""; after = event.sequence; handled = r.handled ++ event ∷ [] })
      else record r { buffer = "" }

  abbrev pub read_field : Option String → Reader → Reader
  read_field none r = r
  read_field (some value) r = record r {
    buffer = concat (if r.buffer == "" then "" else concat r.buffer "\n") (trim value);
  }

  -- The scanner's buffer has 2 MiB, for a line with its line break: its error ends the loop.
  abbrev pub read_line : Reader → String → Reader
  read_line r line =
      if leb 2097152 (size_of line)
      then record r { failure = some (other "bufio.Scanner: token too long") }
      else (if line == ""
          then (if r.buffer == "" then r else read_event (codec.decode r.buffer) r)
          else read_field (strip_prefix "data:" line) r)

  abbrev pub read_on : Reader → Reader → Reader
  read_on r rest = if is_some r.failure then r else rest

  unfoldable pub read_lines : List String → Reader → Reader
  read_lines [] r = r
  read_lines (line ∷ lines) r = let next = read_line r line in read_on next (read_lines lines next)

  -- How StreamEvents ends once the response has ended, with the error of reading it, if there is one:
  -- scanner.Err gives that one or the line's that was too long.
  abbrev pub stream_result : Option Error → Reader → Option Error
  stream_result broken r =
      if is_some r.failure
      then r.failure
      else (if is_some broken
          then broken
          else (if r.terminal
              then none
              else some (other "relay HTTP: event stream ended before a terminal event")))
