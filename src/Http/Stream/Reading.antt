-- ===== src/Http/Stream/Reading.antt =====
-- transport/httpapi: what StreamEvents of client.go handles of the lines of events.
use realy.Common.{
  arith, ◌<◌, leb, ℕ, String, Bool, true, false, ◌||◌, Option, none, some, List, [], ◌∷◌, ◌++◌,
  ◌==◌, ◌≡◌, refl, ap, ◌∙◌, ltb, concat, strip_prefix, strip_prefix-concat, strip_prefix_other,
  cons-concat_filled, Bool-cases, inl, inr,
}
use text.Mathlib.TextLemmas.{nil-append}
use realy.Types.{Event}
use realy.Controlplane.Types.{Error}
use realy.Http.Wire.{Codec}
use realy.Http.Stream.{Reader, frame, read_lines, read_line, ends_run}

-- A reader between two events, without an error.
abbrev pub idle : ℕ → Bool → List Event → Reader
idle after terminal handled = record {
  buffer = "";
  after = after;
  terminal = terminal;
  handled = handled;
  failure = none;
}

-- A line for which the scanner has room.
abbrev pub IsShort : (String → ℕ) → String → Type 0
IsShort size_of line = size_of line < 2097152

-- The lines that are the same for all events.
pub record AreShort (size_of : String → ℕ) : Type 0 where
  pub empty : IsShort size_of ""
  pub kind : IsShort size_of "event: relay.event"
  pub keepalive : IsShort size_of ": keepalive"

-- The lines of an event that hold its number and its text.
abbrev pub FrameIsShort : (String → ℕ) → (ℕ → String) → ℕ → String → Type 0
FrameIsShort size_of decimal number text =
    IsShort size_of (concat "id: " (decimal number))
    × IsShort size_of (concat "data:" (concat " " text))

IsShort-leb :
    (size_of : String → ℕ) (line : String)
    → IsShort size_of line
    → leb 2097152 (size_of line) ≡ false
IsShort-leb size_of line h = ground (arith, h)

module _ (codec : Codec Event) (decimal : ℕ → String) (trim : String → String)
    (handle : Event → Option Error) (size_of : String → ℕ) where
  pub read_step :
      (line : String) (lines : List String) (r next : Reader)
      → read_line codec trim handle size_of r line ≡ next
      → next.failure ≡ none
      → read_lines codec trim handle size_of (line ∷ lines) r
        ≡ read_lines codec trim handle size_of lines next
  unfolding read_lines
  read_step line lines r next e sound = rw e (rw sound refl)

  id_line :
      (number : String) (after : ℕ) (terminal : Bool) (handled : List Event)
      → IsShort size_of (concat "id: " number)
      → read_line codec trim handle size_of (idle after terminal handled) (concat "id: " number)
        ≡ idle after terminal handled
  id_line number after terminal handled short =
      rw (IsShort-leb size_of (concat "id: " number) short) (
        rw (cons-concat_filled "i" "d: " number)
          (rw (strip_prefix_other "d" "i" "ata:" "d: " number refl) refl))

  event_line :
      (after : ℕ) (terminal : Bool) (handled : List Event)
      → AreShort size_of
      → read_line codec trim handle size_of (idle after terminal handled) "event: relay.event"
        ≡ idle after terminal handled
  unfolding strip_prefix
  event_line after terminal handled short = rw (IsShort-leb size_of _ short.kind) refl

  pub empty_line :
      (after : ℕ) (terminal : Bool) (handled : List Event)
      → AreShort size_of
      → read_line codec trim handle size_of (idle after terminal handled) ""
        ≡ idle after terminal handled
  empty_line after terminal handled short = rw (IsShort-leb size_of _ short.empty) refl

  pub keepalive_line :
      (after : ℕ) (terminal : Bool) (handled : List Event)
      → AreShort size_of
      → read_line codec trim handle size_of (idle after terminal handled) ": keepalive"
        ≡ idle after terminal handled
  unfolding strip_prefix
  keepalive_line after terminal handled short = rw (IsShort-leb size_of _ short.keepalive) refl

  -- A reader in an event.
  abbrev holding : String → ℕ → Bool → List Event → Reader
  holding text after terminal handled = record (idle after terminal handled) { buffer = text }

  data_line :
      (text : String) (after : ℕ) (terminal : Bool) (handled : List Event)
      → IsShort size_of (concat "data:" (concat " " text))
      → trim (concat " " text) ≡ text
      → read_line codec trim handle size_of
          (idle after terminal handled)
          (concat "data:" (concat " " text))
        ≡ holding text after terminal handled
  data_line text after terminal handled short trimmed =
      rw (IsShort-leb size_of (concat "data:" (concat " " text)) short) (
        rw (cons-concat_filled "d" "ata:" (concat " " text)) (
          rw (strip_prefix-concat "data:" (concat " " text))
            (rw trimmed (ap (λ buffer. holding buffer after terminal handled) (nil-append text)))))

  end_line :
      (event : Event) (text : String) (after : ℕ) (terminal : Bool) (handled : List Event)
      → AreShort size_of
      → (text == "") ≡ false
      → codec.decode text ≡ some event
      → handle event ≡ none
      → ltb after event.sequence ≡ true
      → read_line codec trim handle size_of (holding text after terminal handled) ""
        ≡ idle event.sequence (terminal || ends_run event) (handled ++ event ∷ [])
  end_line event text after terminal handled short filled decoded accepted newer =
      rw (IsShort-leb size_of "" short.empty) (rw filled (rw decoded (rw newer (rw accepted refl))))

  pub frame_read :
      (event : Event) (text : String) (after : ℕ) (terminal : Bool) (handled : List Event)
      (rest : List String)
      → AreShort size_of
      → FrameIsShort size_of decimal event.sequence text
      → (text == "") ≡ false
      → trim (concat " " text) ≡ text
      → codec.decode text ≡ some event
      → handle event ≡ none
      → ltb after event.sequence ≡ true
      → read_lines codec trim handle size_of
          (frame codec decimal event text ++ rest)
          (idle after terminal handled)
        ≡ read_lines codec trim handle size_of rest
            (idle event.sequence (terminal || ends_run event) (handled ++ event ∷ []))
  frame_read event text after terminal handled rest short (numbered, held) filled trimmed decoded
        accepted newer =
      read_step _ _ _ _ (id_line (decimal event.sequence) after terminal handled numbered) refl
      ∙ (read_step _ _ _ _ (event_line after terminal handled short) refl
          ∙ (read_step _ _ _ _ (data_line text after terminal handled held trimmed) refl
              ∙ read_step _ _ _ _
                  (end_line event text after terminal handled short filled decoded accepted newer)
                  refl))

abbrev pub any_ends : List Event → Bool
any_ends [] = false
any_ends (event ∷ events) = ends_run event || any_ends events

pub or_false : (b : Bool) → (b || false) ≡ b
or_false true = refl
or_false false = refl

pub or_assoc : (a b c : Bool) → ((a || b) || c) ≡ (a || (b || c))
or_assoc true b c = refl
or_assoc false b c = refl

pub any_ends-append :
    (terminal : Bool) (first second : List Event)
    → (terminal || any_ends (first ++ second)) ≡ ((terminal || any_ends first) || any_ends second)
any_ends-append true first second = refl
any_ends-append false [] second = refl
any_ends-append false (event ∷ first) second = elim (Bool-cases (ends_run event)) [
  | inl e ↦ rw e refl
  | inr e ↦ rw e (any_ends-append false first second)
]

-- Events with rising numbers above the first one given, to the last one given, and a property.
pub data Rising (P : Event → Type 0) : ℕ → List Event → ℕ → Type 0 where
  still : {n : ℕ} → Rising P n [] n
  rise :
      {n m : ℕ} {event : Event} {events : List Event}
      → ltb n event.sequence ≡ true
      → P event
      → Rising P event.sequence events m
      → Rising P n (event ∷ events) m

pub Rising-append :
    (P : Event → Type 0) (n m k : ℕ) (first second : List Event)
    → Rising P n first m
    → Rising P m second k
    → Rising P n (first ++ second) k
Rising-append P n m k first second Rising.still h = h
Rising-append P n m k (event ∷ first) second (Rising.rise newer holds g) h =
    Rising.rise newer holds (Rising-append P event.sequence m k first second g h)

unfoldable pub AllOf : (Event → Type 0) → List Event → Type 0
AllOf P [] = Unit
AllOf P (event ∷ events) = P event × AllOf P events
