-- ===== src/Node/Lease/Bounds.antt =====
-- node/worker.go: how long keepLease waits between two renewals, in nanoseconds.
use realy.Common.{ℕ, ◌*◌, ◌/◌, ◌≤◌, ◌≡◌, refl, arith, ltb, Bool-cases, ◌⊎◌, inl, inr}
use realy.Node.Lease.{wait_of}

-- A renewal is tried at the earliest after ten milliseconds and at the latest after five seconds, and
-- a third of what remains of the lease is enough for the wait unless it is the ten milliseconds.
pub wait_of_bounded :
    (remaining : ℕ)
    → (10000000 ≤ wait_of remaining)
      × (wait_of remaining ≤ 5000000000)
      × ((3 * wait_of remaining ≤ remaining) ⊎ (wait_of remaining ≡ 10000000))
unfolding wait_of
wait_of_bounded remaining = elim (Bool-cases (ltb 5000000000 (remaining / 3))) [
  | inl e ↦ rw e (omega arith, omega arith, inl (ground (arith, e)))
  | inr e ↦ rw e (elim (Bool-cases (ltb (remaining / 3) 10000000)) [
    | inl f ↦ rw f (omega arith, omega arith, inr refl)
    | inr f ↦ rw f (ground (arith, f), ground (arith, e), inl (ground arith))
  ])
]
