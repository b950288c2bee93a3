-- ===== src/Node/Retrying.antt =====
-- node/events.go and node/final.go: the loops end, and how.
use realy.Common.{
  ap, ◌⊎◌, ℕ, zero, suc, ◌+◌, ◌≤◌, ◌<◌, ◌≡◌, refl, true, false, Option, none, some, arith,
  Bool-cases, ltb, inl, inr,
}
use realy.Controlplane.Types.{
  Error, not_found, no_assignment, invalid_lease, invalid_transition, run_cancelled,
  incompatible_protocol, idempotency_conflict, other,
}
use realy.Node.Delivery.{Verdict, is_final, next_delay, settle, retry_from, retry, error_of}

-- The errors after which a report is not tried again.
pub IsFinal : Error → Type 0
IsFinal e =
    (e ≡ not_found) ⊎ ((e ≡ invalid_lease) ⊎ ((e ≡ invalid_transition) ⊎ (e ≡ run_cancelled)))

is_final_sound : (e : Error) → is_final e ≡ true → IsFinal e
unfolding is_final IsFinal
is_final_sound not_found h = inl refl
is_final_sound no_assignment h = ground (arith, h)
is_final_sound invalid_lease h = inr (inl refl)
is_final_sound invalid_transition h = inr (inr (inl refl))
is_final_sound run_cancelled h = inr (inr (inr refl))
is_final_sound incompatible_protocol h = ground (arith, h)
is_final_sound idempotency_conflict h = ground (arith, h)
is_final_sound (other message) h = ground (arith, h)

is_final_complete : (e : Error) → IsFinal e → is_final e ≡ true
unfolding is_final IsFinal
is_final_complete e (inl h) = ap is_final h
is_final_complete e (inr (inl h)) = ap is_final h
is_final_complete e (inr (inr (inl h))) = ap is_final h
is_final_complete e (inr (inr (inr h))) = ap is_final h

other-IsFinal : (e : Error) → is_final e ≡ false → ¬ IsFinal e
other-IsFinal e h final = let h' = is_final_complete e final in ground (arith, h, h')

-- The delay after a delay: twice as long, up to the first one that is at least a second.
pub IsNextDelay : ℕ → ℕ → Type 0
IsNextDelay delay next =
    ((delay < 1000) × (next ≡ delay + delay)) ⊎ ((1000 ≤ delay) × (next ≡ delay))

next_delay-IsNextDelay : (delay : ℕ) → IsNextDelay delay (next_delay delay)
unfolding IsNextDelay
next_delay-IsNextDelay delay = elim (Bool-cases (ltb delay 1000)) [
  | inl e ↦ inl (ground (arith, e), rw e (omega arith))
  | inr e ↦ inr (ground (arith, e), rw e refl)
]

module _ {S : Type 0} (limit : ℕ) (report : ℕ → S → (Option Error × ℕ) × S) where
  -- Reports from the n-th on, with the delay before the next one and the time that has passed, from a
  -- state to the state after the last: those before the last are answered with errors that are not
  -- final, and the next one comes before the deadline.
  pub data Tries : (n delay elapsed : ℕ) → S → Verdict → S → Type 0 where
    succeed :
        {n delay elapsed : ℕ} {s : S}
        → (report n s).0.0 ≡ none
        → Tries n delay elapsed s (Verdict.delivered n) (report n s).1
    give_up :
        {n delay elapsed : ℕ} {s : S} {e : Error}
        → (report n s).0.0 ≡ some e
        → IsFinal e
        → Tries n delay elapsed s (Verdict.rejected n e) (report n s).1
    expire :
        {n delay elapsed : ℕ} {s : S} {e : Error}
        → (report n s).0.0 ≡ some e
        → ¬ IsFinal e
        → limit ≤ elapsed + (report n s).0.1 + delay
        → Tries n delay elapsed s (Verdict.expired n e) (report n s).1
    again :
        {n delay elapsed next : ℕ} {s s' : S} {v : Verdict} {e : Error}
        → (report n s).0.0 ≡ some e
        → ¬ IsFinal e
        → elapsed + (report n s).0.1 + delay < limit
        → IsNextDelay delay next
        → Tries (suc n) next (elapsed + (report n s).0.1 + delay) (report n s).1 v s'
        → Tries n delay elapsed s v s'

  -- What a loop gives: a verdict, and the reports that led to it.
  Ends : (n delay elapsed : ℕ) → S → Option Verdict × S → Type 0
  Ends n delay elapsed s after =
      (v : Verdict) × (s' : S) × (after ≡ (some v, s')) × Tries n delay elapsed s v s'

  settle-Ends :
      (answer : Option Error) (n delay elapsed : ℕ) (s : S) (rest : Option Verdict × S)
      → (report n s).0.0 ≡ answer
      → let resumed = elapsed + (report n s).0.1 + delay in
        (resumed < limit → Ends (suc n) (next_delay delay) resumed (report n s).1 rest)
        → Ends n delay elapsed s (settle answer (ltb resumed limit) n rest (report n s).1)
  unfolding Ends
  settle-Ends none n delay elapsed s rest a h =
      (Verdict.delivered n, (report n s).1, refl, Tries.succeed a)
  settle-Ends (some e) n delay elapsed s rest a h =
      let resumed = elapsed + (report n s).0.1 + delay in
      elim (Bool-cases (is_final e)) [
        | inl f ↦
            (Verdict.rejected n e, (report n s).1, rw f refl, Tries.give_up a (is_final_sound e f))
        | inr f ↦ elim (Bool-cases (ltb resumed limit)) [
          | inl g ↦
              let early : resumed < limit = ground (arith, g) in
              let (v, s', p, tries) = h early in
              (
                v,
                s',
                rw f (rw g p),
                Tries.again a (other-IsFinal e f) early (next_delay-IsNextDelay delay) tries,
              )
          | inr g ↦ (
            Verdict.expired n e,
            (report n s).1,
            rw f (rw g refl),
            Tries.expire a (other-IsFinal e f) (ground (arith, g)),
          )
        ]
      ]

  retry_from-Ends :
      (fuel n delay elapsed : ℕ) (s : S)
      → 1 ≤ delay
      → limit < fuel + elapsed
      → elapsed ≤ limit
      → Ends n delay elapsed s (retry_from limit report fuel n delay elapsed s)
  unfolding retry_from
  retry_from-Ends zero n delay elapsed s d enough within = ground arith
  retry_from-Ends (suc fuel) n delay elapsed s d enough within =
      let resumed = elapsed + (report n s).0.1 + delay in
      let s' = (report n s).1 in
      let rest = retry_from limit report fuel (suc n) (next_delay delay) resumed s' in
      settle-Ends (report n s).0.0 n delay elapsed s rest refl (λ early.
        retry_from-Ends fuel (suc n) (next_delay delay) resumed s' (ground arith)
          (ground (arith, early)) (ground (arith, early)))

  -- The report loop always ends, whatever the answers and the time that they take. It goes on after a
  -- report exactly where the answer is an error that is not final and the delay ends before the
  -- deadline, with the time of the report and of the delay passed; the first delay is of 100
  -- milliseconds, and each is doubled up to the first that is a second or more. So it ends with a
  -- success, with a final error (no such run, a lost lease, an invalid transition or a cancelled run),
  -- which is not tried again, or, after an error that is not final, only because the next report would
  -- be at the deadline or later.
  pub retry_ends :
      (s : S)
      → (v : Verdict) × (s' : S) × (retry limit report s ≡ (some v, s')) × Tries 0 100 0 s v s'
  unfolding retry Ends
  retry_ends s = retry_from-Ends (suc limit) 0 100 0 s (omega arith) (omega arith) (omega arith)

  -- A report loop without an error ends with a report that was accepted.
  pub accepted_report :
      (n delay elapsed : ℕ) (s s' : S) (v : Verdict)
      → Tries n delay elapsed s v s'
      → error_of (some v) ≡ none
      → (m : ℕ) × (t : S) × ((report m t).0.0 ≡ none) × (s' ≡ (report m t).1)
  accepted_report n delay elapsed s s' v (Tries.succeed a) h = (n, s, a, refl)
  accepted_report n delay elapsed s s' v (Tries.give_up a f) h = ground (arith, h)
  accepted_report n delay elapsed s s' v (Tries.expire a f late) h = ground (arith, h)
  accepted_report n delay elapsed s s' v (Tries.again a f early next rest) h =
      accepted_report (suc n) _ _ (report n s).1 s' v rest h
