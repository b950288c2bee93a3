-- ===== src/Http/Stream/Following.antt =====
-- transport/httpapi: what StreamEvents of client.go handles of the whole stream that streamEvents of
-- handler.go writes.
use realy.Common.{
  subst, pos, ℤ, ℕ, String, Bool, true, false, ◌||◌, Option, none, some, List, [], ◌∷◌, ◌++◌, ◌==◌,
  ◌≡◌, refl, ◌∙◌, arith, ltb, leb, concat, Bool-cases, inl, inr,
}
use mathlib.Core.List.{append-nil, append_assoc}
use realy.Types.{Event, Run}
use realy.Controlplane.Types.{Error, Result, ok, err}
use realy.Http.Wire.{Codec}
use realy.Http.Stream.{
  opened_stream, Wiring, stream_events, stream_terminal, beat_lines, Round, round_lines, loop_lines,
  Beat, last_lines, poll_lines, frame, write_encoded, write_events, read_lines, ends_run, Written,
}
use realy.Http.Stream.Reading.{
  idle, any_ends, or_false, or_assoc, any_ends-append, Rising, Rising-append, AllOf, read_step,
  frame_read, keepalive_line, empty_line, AreShort, FrameIsShort,
}

module _ (codec : Codec Event) (decimal : ℕ → String) (trim : String → String)
    (handle : Event → Option Error) (size_of : String → ℕ) (P : Event → Type 0) where
  -- The scanner has room for the lines of all events with the property, below 2 MiB. Encoded, these
  -- are texts that are read back, and that strings.TrimSpace gives back of the line.
  unfoldable pub IsFaithful : Type 0
  IsFaithful =
      AreShort size_of
      × ((event : Event) (text : String)
          → P event
          → codec.encode event ≡ some text
          → FrameIsShort size_of decimal event.sequence text
            × ((text == "") ≡ false)
            × (trim (concat " " text) ≡ text)
            × (codec.decode text ≡ some event))

  -- A reader that comes to these lines handles these events, whatever lines follow.
  pub record Handles (after : ℕ) (lines : List String) (m : ℕ) : Type 0 where
    pub events : List Event
    pub rising : Rising P after events m
    pub reads :
        (terminal : Bool) (handled : List Event) (rest : List String)
        → read_lines codec trim handle size_of (lines ++ rest) (idle after terminal handled)
          ≡ read_lines codec trim handle size_of rest
              (idle m (terminal || any_ends events) (handled ++ events))

  Handles-nil : (after : ℕ) → Handles after [] after
  Handles-nil after = record {
    events = [];
    rising = Rising.still;
    reads = λ terminal handled rest. rw (append-nil handled) (rw (or_false terminal) refl);
  }

  Handles-append :
      (after m k : ℕ) (first second : List String)
      → Handles after first m
      → Handles m second k
      → Handles after (first ++ second) k
  Handles-append after m k first second g h = record {
    events = g.events ++ h.events;
    rising = Rising-append P after m k g.events h.events g.rising h.rising;
    reads = λ terminal handled rest. rw (append_assoc first second rest) (
        g.reads terminal handled (second ++ rest)
        ∙ (h.reads (terminal || any_ends g.events) (handled ++ g.events) rest
            ∙ rw
                (any_ends-append terminal g.events h.events, append_assoc handled g.events h.events)
                refl));
  }

  -- An event that is written, and what is written after it.
  write_encoded-Handles :
      (after : ℕ) (event : Event) (encoded : Option String) (rest : Written)
      → IsFaithful
      → handle event ≡ none
      → P event
      → ltb after event.sequence ≡ true
      → codec.encode event ≡ encoded
      → Handles event.sequence rest.lines rest.after
      → let written = write_encoded codec decimal after event encoded rest in
        Handles after written.lines written.after
  unfolding IsFaithful
  write_encoded-Handles after event none rest faithful accepted holds newer e h = Handles-nil after
  write_encoded-Handles after event (some text) rest faithful accepted holds newer e h =
      let (short, filled, trimmed, decoded) = faithful.1 event text holds e in
      record {
        events = event ∷ h.events;
        rising = Rising.rise newer holds h.rising;
        reads = λ terminal handled more.
            rw (append_assoc (frame codec decimal event text) rest.lines more) (
              frame_read codec decimal trim handle size_of event text after terminal handled
                (rest.lines ++ more) faithful.0 short filled trimmed decoded accepted newer
              ∙ (h.reads (terminal || ends_run event) (handled ++ event ∷ []) more
                  ∙ rw
                      (
                        or_assoc terminal (ends_run event) (any_ends h.events),
                        append_assoc handled (event ∷ []) h.events,
                      )
                      refl));
      }

  write_events-Handles :
      (after : ℕ) (values : List Event)
      → IsFaithful
      → ((event : Event) → handle event ≡ none)
      → AllOf P values
      → Handles after
          (write_events codec decimal after values).lines
          (write_events codec decimal after values).after
  unfolding write_events AllOf
  write_events-Handles after [] faithful accepted all = Handles-nil after
  write_events-Handles after (event ∷ events) faithful accepted (holds, all) =
      elim (Bool-cases (leb event.sequence after)) [
        | inl e ↦ rw e (write_events-Handles after events faithful accepted all)
        | inr e ↦ rw e (
            write_encoded-Handles after event (codec.encode event)
              (write_events codec decimal event.sequence events) faithful (accepted event) holds
              (ground (arith, e)) refl
              (write_events-Handles event.sequence events faithful accepted all))
      ]

  module _ {S : Type 0} (get_run : S → Result Run)
      (events_after : ℕ → S → Result (List Event)) where
    -- Every event that EventsAfter gives has the property.
    unfoldable pub Gives : Type 0
    Gives =
        (after : ℕ) (s : S) (values : List Event)
        → events_after after s ≡ ok values
        → AllOf P values

    -- Some number ends what is handled.
    Follows : ℕ → List String → Type 0
    Follows after lines = (m : ℕ) × Handles after lines m

    poll_lines-Follows :
        (after : ℕ) (s : S) (answer : Result (List Event)) (next : ℕ → List String)
        → IsFaithful
        → ((event : Event) → handle event ≡ none)
        → Gives
        → events_after after s ≡ answer
        → ((n : ℕ) → Follows n (next n))
        → Follows after (poll_lines codec decimal get_run events_after after answer next)
    unfolding Follows Gives
    poll_lines-Follows after s (err e) next faithful accepted gives at follows =
        (after, Handles-nil after)
    poll_lines-Follows after s (ok values) next faithful accepted gives at follows =
        let h = write_events-Handles after values faithful accepted (gives after s values at) in
        let (m, more) = follows (write_events codec decimal after values).after in
        elim (Bool-cases (write_events codec decimal after values).complete) [
          | inl e ↦ rw e (m, Handles-append after _ m _ _ h more)
          | inr e ↦ rw e (_, h)
        ]

    keepalive-Handles :
        (after m : ℕ) (lines : List String)
        → AreShort size_of
        → Handles after lines m
        → Handles after (": keepalive" ∷ "" ∷ lines) m
    keepalive-Handles after m lines short h = record {
      events = h.events;
      rising = h.rising;
      reads = λ terminal handled rest.
          read_step codec decimal trim handle size_of _ _ _ _
            (keepalive_line codec decimal trim handle size_of after terminal handled short) refl
          ∙ (read_step codec decimal trim handle size_of _ _ _ _
                (empty_line codec decimal trim handle size_of after terminal handled short) refl
              ∙ h.reads terminal handled rest);
    }

    beat_lines-Follows :
        (after : ℕ) (beat : Beat) (s : S) (next : ℕ → List String)
        → IsFaithful
        → ((event : Event) → handle event ≡ none)
        → Gives
        → ((n : ℕ) → Follows n (next n))
        → Follows after (beat_lines codec decimal get_run events_after after beat s next)
    unfolding Follows IsFaithful
    beat_lines-Follows after Beat.ended s next faithful accepted gives follows =
        (after, Handles-nil after)
    beat_lines-Follows after Beat.keepalive s next faithful accepted gives follows =
        let (m, h) = follows after in (m, keepalive-Handles after m (next after) faithful.0 h)
    beat_lines-Follows after Beat.poll s next faithful accepted gives follows =
        poll_lines-Follows after s (events_after after s) next faithful accepted gives refl follows

    last_lines-Follows :
        (after : ℕ) (s : S) (answer : Result (List Event))
        → IsFaithful
        → ((event : Event) → handle event ≡ none)
        → Gives
        → events_after after s ≡ answer
        → Follows after (last_lines codec decimal get_run events_after after answer)
    unfolding Follows Gives
    last_lines-Follows after s (err e) faithful accepted gives at = (after, Handles-nil after)
    last_lines-Follows after s (ok values) faithful accepted gives at =
        (_, write_events-Handles after values faithful accepted (gives after s values at))

    round_lines-Follows :
        (after : ℕ) (found : Result Run) (beat : Beat) (s : S) (next : ℕ → List String)
        → IsFaithful
        → ((event : Event) → handle event ≡ none)
        → Gives
        → ((n : ℕ) → Follows n (next n))
        → Follows after (round_lines codec decimal get_run events_after after found beat s next)
    unfolding Follows
    round_lines-Follows after (err e) beat s next faithful accepted gives follows =
        (after, Handles-nil after)
    round_lines-Follows after (ok run) beat s next faithful accepted gives follows =
        elim (Bool-cases (stream_terminal run.status)) [
          | inl e ↦
              rw e (last_lines-Follows after s (events_after after s) faithful accepted gives refl)
          | inr e ↦ rw e (beat_lines-Follows after beat s next faithful accepted gives follows)
        ]

    loop_lines-Follows :
        (rounds : List (Round S)) (after : ℕ)
        → IsFaithful
        → ((event : Event) → handle event ≡ none)
        → Gives
        → Follows after (loop_lines codec decimal get_run events_after rounds after)
    unfolding loop_lines Follows
    loop_lines-Follows [] after faithful accepted gives = (after, Handles-nil after)
    loop_lines-Follows (round ∷ rounds) after faithful accepted gives =
        round_lines-Follows after (get_run round.seen) round.beat round.later
          (loop_lines codec decimal get_run events_after rounds) faithful accepted gives
          (λ n. loop_lines-Follows rounds n faithful accepted gives)

    -- What a reader makes of all lines of a stream.
    pub IsStreamed : ℕ → List String → Type 0
    IsStreamed after lines =
        (events : List Event) × (m : ℕ) × Rising P after events m
        × (read_lines codec trim handle size_of lines (idle after false [])
            ≡ idle m (any_ends events) events)

    opened_stream-IsStreamed :
        (wiring : Wiring) (after : ℕ) (s : S) (answer : Result (List Event))
        (rounds : List (Round S)) (lines : List String)
        → IsFaithful
        → ((event : Event) → handle event ≡ none)
        → Gives
        → events_after after s ≡ answer
        → opened_stream codec decimal get_run events_after wiring after answer rounds ≡ inr lines
        → IsStreamed after lines
    unfolding Follows IsStreamed read_lines
    opened_stream-IsStreamed wiring after s (err e) rounds lines faithful accepted gives at opened =
        ground (arith, opened)
    opened_stream-IsStreamed wiring after s (ok values) rounds lines faithful accepted gives at
          opened =
        let (m, h) =
          poll_lines-Follows after s (ok values)
            (loop_lines codec decimal get_run events_after rounds) faithful accepted gives at
            (λ n. loop_lines-Follows rounds n faithful accepted gives) in
        let written =
          poll_lines codec decimal get_run events_after after (ok values)
            (loop_lines codec decimal get_run events_after rounds) in
        (
          h.events,
          m,
          h.rising,
          subst
              (λ l.
                read_lines codec trim handle size_of l (idle after false [])
                ≡ idle m (any_ends h.events) h.events)
              {y = lines} (append-nil written ∙ ground (arith, opened)) (h.reads false [] []),
        )

    -- A client that reads all that the server has written of a stream, from the number that it asked
    -- for, where no line of an event is of 2 MiB or more: it handles events with rising numbers above that, each of them given by EventsAfter and so
    -- with the property that all of those have, its number is then that of the last one, nothing of
    -- an event is left over, no error has come, and it has seen the end of the run just when one of
    -- them ends a run.
    pub stream_events-IsStreamed :
        (wiring : Wiring) (atoi : String → Option ℤ) (query header : String) (s : S)
        (rounds : List (Round S)) (after : ℕ) (lines : List String)
        → IsFaithful
        → ((event : Event) → handle event ≡ none)
        → Gives
        → (query == "") ≡ false
        → atoi query ≡ some (pos after)
        → stream_events codec decimal get_run events_after wiring atoi query header s rounds
          ≡ inr lines
        → IsStreamed after lines
    unfolding stream_events
    stream_events-IsStreamed wiring atoi query header s rounds after lines faithful accepted gives
          filled number opened =
        opened_stream-IsStreamed wiring after s (events_after after s) rounds lines faithful
          accepted gives refl (rw filled at (rw number at (rw filled at opened)))
