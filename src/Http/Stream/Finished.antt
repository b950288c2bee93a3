-- ===== src/Http/Stream/Finished.antt =====
-- transport/httpapi: the stream of a run that is over.
use realy.Common.{
  ℤ, pos, ℕ, ◌≤◌, String, Bool, true, false, ◌||◌, Option, none, some, List, [], ◌∷◌, ◌++◌, ◌==◌,
  ◌≡◌, refl, sym, ◌∙◌, arith, ltb, leb, is_some, if◌then◌else◌, Bool-cases, inl, inr, subst,
}
use mathlib.Core.List.{append-nil, append_assoc}
use realy.Types.{Event, Run}
use realy.Controlplane.Types.{Error, Result, ok}
use realy.Http.Wire.{Codec}
use realy.Http.Stream.{
  Wiring, stream_events, ends_run, Round, Written, frame, write_encoded, write_events, loop_lines,
  read_lines, stream_terminal,
}
use realy.Http.Stream.Reading.{idle, any_ends, or_false, or_assoc, frame_read, Rising}
use realy.Http.Stream.Following.{IsFaithful}

-- The events with numbers above the one given.
unfoldable pub above : ℕ → List Event → List Event
above after [] = []
above after (event ∷ events) =
    let rest = above after events in if leb event.sequence after then rest else event ∷ rest

module _ (P : Event → Type 0) where
  Rising-le : (n m : ℕ) (events : List Event) → Rising P n events m → n ≤ m
  Rising-le n m events Rising.still = omega arith
  Rising-le n m (event ∷ events) (Rising.rise newer holds rest) =
      ground (arith, Rising-le event.sequence m events rest)

  -- None is above the last, and all are above what is at most the first.
  above_last :
      (n m after : ℕ) (events : List Event)
      → Rising P n events m
      → m ≤ after
      → above after events ≡ []
  unfolding above
  above_last n m after [] Rising.still h = refl
  above_last n m after (event ∷ events) (Rising.rise newer holds rest) h =
      let low = Rising-le event.sequence m events rest in
      ground (arith, low, above_last event.sequence m after events rest h)

  above_first :
      (n m after : ℕ) (events : List Event)
      → Rising P n events m
      → after ≤ n
      → above after events ≡ events
  unfolding above
  above_first n m after [] Rising.still h = refl
  above_first n m after (event ∷ events) (Rising.rise newer holds rest) h =
      ground (arith, above_first event.sequence m after events rest (ground arith))

  -- The later events rise from the number given.
  Rising-above :
      (n m after : ℕ) (events : List Event)
      → Rising P n events m
      → n ≤ after
      → after ≤ m
      → Rising P after (above after events) m
  unfolding above
  Rising-above n m after [] Rising.still h g =
      subst (λ k. Rising P k [] n) (ground (arith, h, g)) Rising.still
  Rising-above n m after (event ∷ events) (Rising.rise newer holds rest) h g =
      elim (Bool-cases (leb event.sequence after)) [
        | inl e ↦ rw e (Rising-above event.sequence m after events rest (ground (arith, e)) g)
        | inr e ↦ rw e (
            Rising.rise (ground (arith, e)) holds
              (rw (above_first event.sequence m after events rest (ground (arith, e))) rest))
      ]

module _ (codec : Codec Event) (decimal : ℕ → String) (trim : String → String)
    (handle : Event → Option Error) (size_of : String → ℕ) (P : Event → Type 0) where
  -- Lines that a reader takes as exactly these events, and what else was written with them.
  IsSentAs : ℕ → List Event → ℕ → Written → Type 0
  IsSentAs after events m written =
      ((terminal : Bool) (handled : List Event) (rest : List String)
        → read_lines codec trim handle size_of (written.lines ++ rest) (idle after terminal handled)
          ≡ read_lines codec trim handle size_of rest
              (idle m (terminal || any_ends events) (handled ++ events)))
      × (written.after ≡ m)
      × (written.complete ≡ true)

  write_encoded-IsSentAs :
      (after m : ℕ) (event : Event) (events : List Event) (encoded : Option String) (rest : Written)
      → IsFaithful codec decimal trim handle size_of P
      → handle event ≡ none
      → P event
      → ltb after event.sequence ≡ true
      → is_some encoded ≡ true
      → codec.encode event ≡ encoded
      → IsSentAs event.sequence events m rest
      → IsSentAs after (event ∷ events) m (write_encoded codec decimal after event encoded rest)
  unfolding IsSentAs IsFaithful
  write_encoded-IsSentAs after m event events none rest faithful accepted holds newer is e h =
      ground (arith, is)
  write_encoded-IsSentAs after m event events (some text) rest faithful accepted holds newer is e
        (reads, last, complete) =
      let (short, filled, trimmed, decoded) = faithful.1 event text holds e in
      (
        λ terminal handled more.
            rw (append_assoc (frame codec decimal event text) rest.lines more) (
              frame_read codec decimal trim handle size_of event text after terminal handled
                (rest.lines ++ more) faithful.0 short filled trimmed decoded accepted newer
              ∙ (reads (terminal || ends_run event) (handled ++ event ∷ []) more
                  ∙ rw
                      (
                        or_assoc terminal (ends_run event) (any_ends events),
                        append_assoc handled (event ∷ []) events,
                      )
                      refl)),
        last,
        complete,
      )

  nothing-IsSentAs :
      (after : ℕ) → IsSentAs after [] after (record { lines = []; after = after; complete = true })
  unfolding IsSentAs
  nothing-IsSentAs after =
      (λ terminal handled rest. rw (append-nil handled) (rw (or_false terminal) refl), refl, refl)

  -- Events whose numbers rise are all written, where all can be encoded.
  write_events-IsSentAs :
      (after m : ℕ) (events : List Event)
      → IsFaithful codec decimal trim handle size_of P
      → ((event : Event) → handle event ≡ none)
      → ((event : Event) → P event → is_some (codec.encode event) ≡ true)
      → Rising P after events m
      → IsSentAs after events m (write_events codec decimal after events)
  unfolding write_events
  write_events-IsSentAs after m [] faithful accepted encodes Rising.still = nothing-IsSentAs after
  write_events-IsSentAs after m (event ∷ events) faithful accepted encodes
        (Rising.rise newer holds rest) =
      subst
        (λ b. IsSentAs after (event ∷ events) m (
          if b
          then write_events codec decimal after events
          else write_encoded codec decimal after event (codec.encode event)
              (write_events codec decimal event.sequence events)))
        {x = false} {y = leb event.sequence after} (ground (arith, newer))
        (write_encoded-IsSentAs after m event events (codec.encode event)
          (write_events codec decimal event.sequence events) faithful (accepted event) holds newer
          (encodes event holds) refl
          (write_events-IsSentAs event.sequence m events faithful accepted encodes rest))

  module _ {S : Type 0} (get_run : S → Result Run)
      (events_after : ℕ → S → Result (List Event)) where
    -- Both writes of a stream that finds the run over at once.
    written_twice :
        (after m : ℕ) (events : List Event) (first last : Written)
        → IsSentAs after events m first
        → IsSentAs m [] m last
        → read_lines codec trim handle size_of (first.lines ++ last.lines) (idle after false [])
          ≡ idle m (any_ends events) events
    unfolding IsSentAs read_lines
    written_twice after m events first last (reads, a, c) (reads', a', c') =
        reads false [] last.lines
        ∙ (rw (sym (append-nil last.lines)) (
            reads' (any_ends events) events []
            ∙ rw (append-nil events, or_false (any_ends events)) refl))

    -- A client that follows a run that is over, whose numbered events can all be encoded in lines
    -- below 2 MiB and are given by EventsAfter, reads from the stream exactly the events above the number that it asked
    -- for, whatever comes after the server's first round.
    pub stream_events-above :
        (wiring : Wiring) (atoi : String → Option ℤ) (query header : String) (s : S)
        (round : Round S) (rounds : List (Round S)) (n after m : ℕ) (log : List Event) (run : Run)
        → IsFaithful codec decimal trim handle size_of P
        → ((event : Event) → handle event ≡ none)
        → ((event : Event) → P event → is_some (codec.encode event) ≡ true)
        → Rising P n log m
        → n ≤ after
        → after ≤ m
        → ((k : ℕ) (t : S) → events_after k t ≡ ok (above k log))
        → get_run round.seen ≡ ok run
        → stream_terminal run.status ≡ true
        → (query == "") ≡ false
        → atoi query ≡ some (pos after)
        → (lines : List String) × (stream_events codec decimal get_run events_after wiring atoi
              query header s
              (round ∷ rounds)
            ≡ inr lines)
          × (read_lines codec trim handle size_of lines (idle after false [])
              ≡ idle m (any_ends (above after log)) (above after log))
    unfolding stream_events loop_lines IsSentAs
    stream_events-above wiring atoi query header s round rounds n after m log run faithful accepted
          encodes rising low high gives found over filled number =
        let first = write_events codec decimal after (above after log) in
        let h =
          write_events-IsSentAs after m (above after log) faithful accepted encodes
            (Rising-above P n m after log rising low high) in
        let last = write_events codec decimal m (above m log) in
        let rest =
          subst (λ (l : List Event). IsSentAs m [] m (write_events codec decimal m l))
            (sym (above_last P n m m log rising (omega arith)))
            (write_events-IsSentAs m m [] faithful accepted encodes Rising.still) in
        (
          first.lines ++ last.lines,
          rw filled (
              rw filled (
                rw number (
                  rw (gives after s)
                    (rw h.2 (rw h.1 (rw found (rw over (rw (gives m round.later) refl)))))))),
          written_twice after m (above after log) first last h rest,
        )
