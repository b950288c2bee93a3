-- ===== src/Http/Stream/Tests.antt =====
-- The stream of a run with two events, over a round with a keepalive, one with a poll and one that
-- finds the run succeeded.
use realy.Common.{
  concat, ℕ, String, Bool, true, false, Option, none, some, List, [], ◌∷◌, ◌==◌, ◌≡◌, refl, ap, pos,
  ◌⊎◌, inl, inr, arith, if◌then◌else◌, sym, subst, ◌∙◌,
}
use realy.Types.{Event, Run}
use realy.Controlplane.Types.{Error, Result, ok}
use realy.Controlplane.Fixture.{begun_run, completed_run}
use realy.Http.Wire.{Codec}
use realy.Http.Tests.{wiring}
use realy.Http.Stream.{read_lines, Round, Beat, stream_events, loop_lines, write_events}
use realy.Http.Stream.Reading.{FrameIsShort, any_ends, idle, Rising, AllOf}
use realy.Http.Stream.Finished.{above, stream_events-above}
use realy.Http.Stream.Following.{IsFaithful, Gives, IsStreamed, stream_events-IsStreamed}

abbrev numbered_event : String → ℕ → String → Event
numbered_event id n kind = record {
  id = id;
  run_id = "run_";
  attempt_id = "attempt_x";
  sequence = n;
  type_name = kind;
  payload = "{}";
  created_at = 0;
}

abbrev first : Event
first = numbered_event "e1" 1 "run.created"

abbrev second : Event
second = numbered_event "e2" 2 "run.succeeded"

abbrev codec : Codec Event
codec = record {
  encode = λ event. some event.id;
  decode = λ text. if text == "e1" then some first else some second;
  zero_value = first;
}

abbrev IsKnown : Event → Type 0
IsKnown event = (event ≡ first) ⊎ (event ≡ second)

abbrev trim_known : String → String
trim_known text = if text == " e1" then "e1" else "e2"

abbrev decimal : ℕ → String
decimal n = "n"

abbrev accept : Event → Option Error
accept event = none

-- The state is whether the run has ended.
abbrev run_at : Bool → Result Run
run_at false = ok begun_run
run_at true = ok completed_run

abbrev news : ℕ → Bool → Result (List Event)
news after false = ok (first ∷ [])
news after true = ok (first ∷ second ∷ [])

abbrev rounds : List (Round Bool)
rounds =
    record { seen = false; beat = Beat.keepalive; later = false }
    ∷ record { seen = false; beat = Beat.poll; later = false }
    ∷ record { seen = true; beat = Beat.poll; later = true }
    ∷ []

abbrev lines : List String
lines =
    "id: n" ∷ "event: relay.event" ∷ "data: e1" ∷ "" ∷ ": keepalive" ∷ "" ∷ "id: n"
    ∷ "event: relay.event" ∷ "data: e2" ∷ "" ∷ []

abbrev size_of : String → ℕ
size_of text = 40

abbrev Reads : Event → String → Type 0
Reads event text =
    FrameIsShort size_of decimal event.sequence text
    × ((text == "") ≡ false)
    × (trim_known (concat " " text) ≡ text)
    × (codec.decode text ≡ some event)

same_text : (event : Event) (text : String) → codec.encode event ≡ some text → event.id ≡ text
same_text event text h = ground (arith, h)

codec-Reads :
    (event : Event) (text : String)
    → IsKnown event
    → codec.encode event ≡ some text
    → Reads event text
codec-Reads event text (inl e) h =
    subst (Reads event) (ap (λ (x : Event). x.id) (sym e) ∙ same_text event text h)
      ((omega arith, omega arith), refl, refl, ap some (sym e))
codec-Reads event text (inr e) h =
    subst (Reads event) (ap (λ (x : Event). x.id) (sym e) ∙ same_text event text h)
      ((omega arith, omega arith), refl, refl, ap some (sym e))

faithful : IsFaithful codec decimal trim_known accept size_of IsKnown
unfolding IsFaithful
faithful =
    (record { empty = omega arith; kind = omega arith; keepalive = omega arith }, codec-Reads)

given : Gives codec decimal trim_known accept size_of IsKnown run_at news
unfolding Gives AllOf
given after false values h =
    subst (AllOf IsKnown) {x = first ∷ []} {y = values} (ground (arith, h)) (inl refl, tt)
given after true values h =
    subst (AllOf IsKnown) {x = first ∷ second ∷ []} {y = values} (ground (arith, h))
      (inl refl, (inr refl, tt))

opened_lines :
    stream_events codec decimal run_at news wiring (λ text. some (pos 0)) "0" "" false rounds
    ≡ inr lines
unfolding stream_events loop_lines write_events
opened_lines = refl

stream_events-IsStreamed_example :
    IsStreamed codec decimal trim_known accept size_of IsKnown run_at news 0 lines
stream_events-IsStreamed_example =
    stream_events-IsStreamed codec decimal trim_known accept size_of IsKnown run_at news wiring
      (λ text. some (pos 0)) "0" "" false rounds 0 lines faithful (λ event. refl) given refl refl
      opened_lines

abbrev log : List Event
log = first ∷ second ∷ []

abbrev logged : ℕ → Bool → Result (List Event)
logged after s = ok (above after log)

log-Rising : Rising IsKnown 0 log 2
log-Rising = Rising.rise refl (inl refl) (Rising.rise refl (inr refl) Rising.still)

abbrev final_round : Round Bool
final_round = record { seen = true; beat = Beat.ended; later = true }

stream_events-above_example :
    (lines : List String) × (stream_events codec decimal run_at logged wiring
        (λ text. some (pos 1))
        "1"
        ""
        true
        (final_round ∷ [])
      ≡ inr lines)
    × (read_lines codec trim_known accept size_of lines (idle 1 false [])
        ≡ idle 2 (any_ends (above 1 log)) (above 1 log))
stream_events-above_example =
    stream_events-above codec decimal trim_known accept size_of IsKnown run_at logged wiring
      (λ text. some (pos 1)) "1" "" true final_round [] 0 1 2 log completed_run faithful
      (λ event. refl) (λ event known. refl) log-Rising (omega arith) (omega arith) (λ k t. refl)
      refl refl refl refl
