-- ===== src/Common/Text.antt =====
-- Texts put together, as the code writes `a + "\x00" + b`, and strings.TrimPrefix of a text that has
-- the prefix.
use Prim.Native.Char.{Char, code}
use Prim.Native.Nat.{ℕ}
use Prim.Native.String
use Prim.Native.String.{String, [], ◌∷◌}
use mathlib.Core.Path.{◌≡◌, refl, sym, ap, ◌∙◌}
use mathlib.Core.Bool.{true, false}
use mathlib.Core.Option.{Option, none, some}
use text.Mathlib.Text.{◌==◌}
use text.Mathlib.TextEquality.{eq_iff}
use text.Mathlib.TextPositions.{compare_self}
use text.Mathlib.TextLemmas.{cons-append, nil-append, cons-ne-nil}
use realy.Common.Tests.{eqb, if◌then◌else◌, Bool-cases}
use mathlib.Core.Logic.{inl, inr}

abbrev pub concat : String → String → String
concat a b = String.◌++◌ a b

abbrev pub join_nul : String → String → String
join_nul a b = concat a (concat "\0" b)

-- `none` where the text has another beginning.
unfoldable pub strip_prefix : String → String → Option String
strip_prefix [] text = some text
strip_prefix (c ∷ p) [] = none
strip_prefix (c ∷ p) (d ∷ text) =
    let rest = strip_prefix p text in if eqb (code c) (code d) then rest else none

eqb_self : (n : ℕ) → eqb n n ≡ true
eqb_self n = rw (compare_self n, eqb) refl

pub strip_prefix-concat : (p text : String) → strip_prefix p (concat p text) ≡ some text
unfolding strip_prefix
strip_prefix-concat [] text = rw (nil-append text) refl
strip_prefix-concat (c ∷ p) text = rw (cons-append c p text) (
    ap (λ b. if b then strip_prefix p (concat p text) else none) (eqb_self (code c))
    ∙ strip_prefix-concat p text)

-- Texts that begin with different characters.
pub strip_prefix_other :
    (c d : Char) (p q text : String)
    → eqb (code c) (code d) ≡ false
    → strip_prefix (c ∷ p) (concat (d ∷ q) text) ≡ none
unfolding strip_prefix
strip_prefix_other c d p q text h = rw (cons-append d q text) (rw h refl)

pub cons-concat_filled : (c : Char) (p text : String) → (concat (c ∷ p) text == "") ≡ false
cons-concat_filled c p text = elim (Bool-cases (concat (c ∷ p) text == "")) [
  | inl e ↦
      elim (cons-ne-nil c (concat p text)
        (sym (cons-append c p text) ∙ (eq_iff (concat (c ∷ p) text) "").0 e)) [ ]
  | inr e ↦ e
]
