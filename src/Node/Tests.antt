-- ===== src/Node/Tests.antt =====
-- The report loop against a control plane that fails once and then answers, and the wait before the
-- renewal of a lease that has a minute left.
use realy.Common.{◌≤◌, ◌*◌, ◌⊎◌, ℕ, zero, suc, ◌≡◌, Option, none, some}
use realy.Controlplane.Types.{Error, other}
use realy.Node.Lease.{wait_of}
use realy.Node.Lease.Bounds.{wait_of_bounded}
use realy.Node.Delivery.{Verdict, retry}
use realy.Node.Retrying.{Tries, retry_ends}

-- The state is how many reports have come.
abbrev second_answers : ℕ → ℕ → (Option Error × ℕ) × ℕ
second_answers n zero = ((some (other "connection refused"), 3), 1)
second_answers n (suc seen) = ((none, 3), suc (suc seen))

retry_ends_example :
    (v : Verdict) × (s' : ℕ) × (retry 10000 second_answers 0 ≡ (some v, s'))
    × Tries 10000 second_answers 0 100 0 0 v s'
retry_ends_example = retry_ends 10000 second_answers 0

wait_of_bounded_example :
    (10000000 ≤ wait_of 60000000000)
    × (wait_of 60000000000 ≤ 5000000000)
    × ((3 * wait_of 60000000000 ≤ 60000000000) ⊎ (wait_of 60000000000 ≡ 10000000))
wait_of_bounded_example = wait_of_bounded 60000000000
