-- ===== src/Http/Exchange.antt =====
-- transport/httpapi: what the client makes of the handler's answers.
use realy.Common.{
  ℕ, String, Bool, true, false, Option, none, some, ◌==◌, ◌≡◌, refl, arith, eqb, inl,
}
use realy.Controlplane.Types.{
  Assignment, Error, not_found, no_assignment, invalid_lease, invalid_transition, run_cancelled,
  incompatible_protocol, idempotency_conflict, other, Result, ok, err,
}
use realy.Http.Wire.{Response, Codec, Wiring, text_of, status_of, line_of, limited, is_large}
use realy.Http.Handler.{write_error, respond, respond_empty, respond_claim, decoded}
use realy.Http.Client.{protocol_error, is_success, received, output, answered}

-- The errors that go over the wire as themselves.
abbrev pub kind_of : Error → Option Error
kind_of no_assignment = none
kind_of idempotency_conflict = none
kind_of (other message) = none
kind_of e = some e

-- Both without an error, or with errors of the same kind.
pub SameError : Option Error → Option Error → Type 0
SameError none none = Unit
SameError (some e) (some f) = kind_of e ≡ kind_of f
SameError _ _ = ⊥

pub SameResult : {A : Type 0} → Result A → Result A → Type 0
SameResult (ok x) (ok y) = x ≡ y
SameResult (err e) (err f) = kind_of e ≡ kind_of f
SameResult _ _ = ⊥

-- What a claim's answer becomes: one without an assignment stays one.
pub IsClaimed : Result Assignment → Result Assignment → Type 0
IsClaimed answer claimed =
    SameResult answer claimed × (answer ≡ err no_assignment → claimed ≡ err no_assignment)

abbrev refusal : Error → Result Assignment
refusal e = err e

module _ (wiring : Wiring) where
  -- A failure's body is read back to its message, for the messages of the errors that have a kind.
  unfoldable pub TellsErrors : Type 0
  TellsErrors =
      (e : Error)
      → kind_of e ≡ some e
      → wiring.message.decode (limited wiring (line_of (wiring.message.encode (text_of e))))
        ≡ some (text_of e)

  -- A value's body is read back to the value.
  pub record IsWritten {A : Type 0} (codec : Codec A) (value : A) : Type 0 where
    pub filled : (limited wiring (line_of (codec.encode value)) == "") ≡ false
    pub read : codec.decode (limited wiring (line_of (codec.encode value))) ≡ some value

  -- A request's body is at most 8 MiB and is read back to the value.
  pub record IsSent {A : Type 0} (codec : Codec A) (value : A) : Type 0 where
    pub text : String
    pub encoded : codec.encode value ≡ some text
    pub short : is_large wiring text ≡ false
    pub read : codec.decode text ≡ some value

  received_error :
      TellsErrors
      → (is_claim : Bool) (e : Error)
      → (f : Error) × (received wiring is_claim (write_error wiring e) ≡ inl f)
        × (kind_of e ≡ kind_of f)
  unfolding TellsErrors write_error protocol_error status_of text_of
  received_error tells is_claim not_found = (not_found, rw (tells not_found refl) refl, refl)
  received_error tells is_claim no_assignment = (_, refl, refl)
  received_error tells is_claim invalid_lease =
      (invalid_lease, rw (tells invalid_lease refl) refl, refl)
  received_error tells is_claim invalid_transition =
      (invalid_transition, rw (tells invalid_transition refl) refl, refl)
  received_error tells is_claim run_cancelled =
      (run_cancelled, rw (tells run_cancelled refl) refl, refl)
  received_error tells is_claim incompatible_protocol =
      (incompatible_protocol, rw (tells incompatible_protocol refl) refl, refl)
  received_error tells is_claim idempotency_conflict = (_, refl, refl)
  received_error tells is_claim (other message) = (_, refl, refl)

  claim_refused :
      (e : Error)
      → TellsErrors
      → (refusal e ≡ err no_assignment → ⊥)
      → IsClaimed
          (err e)
          (output wiring wiring.assignment (received wiring true (write_error wiring e)))
  unfolding IsClaimed SameResult
  claim_refused e tells differs =
      let (f, at, same) = received_error tells true e in (rw at same, λ h. elim (differs h) [ ])

  module _ {S : Type 0} where
    -- A report's answer after the server and the client, with the state.
    pub answered-respond_empty :
        TellsErrors
        → (answer : Option Error × S)
        → let (r, s) = respond_empty wiring answer in
          SameError answer.0 (answered wiring (received wiring false r)) × (s ≡ answer.1)
    unfolding SameError
    answered-respond_empty tells (none, s) = (tt, refl)
    answered-respond_empty tells (some e, s) =
        let (f, at, same) = received_error tells false e in (rw at same, refl)

    -- A status of success but 204.
    pub output-respond :
        {A : Type 0} (codec : Codec A) (status : ℕ) (is_claim : Bool) (answer : Result A × S)
        → TellsErrors
        → eqb status 204 ≡ false
        → is_success status ≡ true
        → ((value : A) → answer.0 ≡ ok value → IsWritten codec value)
        → let (r, s) = respond wiring codec status answer in
          SameResult answer.0 (output wiring codec (received wiring is_claim r)) × (s ≡ answer.1)
    unfolding SameResult
    output-respond codec status is_claim (ok value, s) tells content success written =
        let h = written value refl in (rw content (rw success (rw h.filled (rw h.read refl))), refl)
    output-respond codec status is_claim (err e, s) tells content success written =
        let (f, at, same) = received_error tells is_claim e in (rw at same, refl)

    pub output-respond_claim :
        (answer : Result Assignment × S)
        → TellsErrors
        → ((value : Assignment) → answer.0 ≡ ok value → IsWritten wiring.assignment value)
        → let (r, s) = respond_claim wiring wiring.assignment answer in
          IsClaimed answer.0 (output wiring wiring.assignment (received wiring true r))
          × (s ≡ answer.1)
    unfolding IsClaimed SameResult
    output-respond_claim (err no_assignment, s) tells written = ((refl, λ h. refl), refl)
    output-respond_claim (ok value, s) tells written =
        let h = written value refl in ((rw h.filled (rw h.read refl), λ e. ground (arith, e)), refl)
    output-respond_claim (err not_found, s) tells written =
        (claim_refused not_found tells (λ h. ground (arith, h)), refl)
    output-respond_claim (err invalid_lease, s) tells written =
        (claim_refused invalid_lease tells (λ h. ground (arith, h)), refl)
    output-respond_claim (err invalid_transition, s) tells written =
        (claim_refused invalid_transition tells (λ h. ground (arith, h)), refl)
    output-respond_claim (err run_cancelled, s) tells written =
        (claim_refused run_cancelled tells (λ h. ground (arith, h)), refl)
    output-respond_claim (err incompatible_protocol, s) tells written =
        (claim_refused incompatible_protocol tells (λ h. ground (arith, h)), refl)
    output-respond_claim (err idempotency_conflict, s) tells written =
        (claim_refused idempotency_conflict tells (λ h. ground (arith, h)), refl)
    output-respond_claim (err (other message), s) tells written =
        (claim_refused (other message) tells (λ h. ground (arith, h)), refl)

    -- A body that was sent reaches the handler as the value that it encodes.
    pub decoded_sent :
        {A : Type 0} (codec : Codec A) (value : A) (h : IsSent codec value)
        (next : A → S → Response × S) (s : S)
        → decoded wiring codec h.text next s ≡ next value s
    decoded_sent codec value h next s = rw h.short (rw h.read refl)
