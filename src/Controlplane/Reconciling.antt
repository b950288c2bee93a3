-- ===== src/Controlplane/Reconciling.antt =====
-- controlplane/memory.go: Reconcile, with the orders of its two loops as for Claim.
use realy.Common.{
  ℕ, suc, ◌+◌, String, Bool, not, ◌&&◌, ◌||◌, none, some, List, [], ◌∷◌, ◌++◌, if◌then◌else◌,
  is_some, ℤ, le_nat,
}
use realy.Common.Maps.{lookup, lookup_or, insert}
use realy.Types.{
  Time, add_duration, Run, RunStatus, Attempt, AttemptStatus, is_status, in_state, Request,
}
use realy.Controlplane.Types.{Result, ok, fields, text, number, time, World}
use realy.Controlplane.State.{
  MemoryStorage, save_run, new_id, draw, append_event, release_node, retry_backoff,
}
use realy.Controlplane.Runs.{past, terminal_run, finalize_cancellation, cancel_run_locked}
use realy.Controlplane.Claiming.{timeout_request}

-- `history[len(history)-1] = attempt`. A stored run has a history; where it had none Go panics.
abbrev pub set_last : Attempt → List Attempt → List Attempt
set_last attempt [] = []
set_last attempt (x ∷ []) = attempt ∷ []
set_last attempt (x ∷ y ∷ xs) = x ∷ set_last attempt (y ∷ xs)

abbrev pub lost_run : Run → Time → Run
lost_run run t = record run {
  attempt = record (run.attempt) { status = AttemptStatus.lost; completed_at = some t };
}

abbrev pub exhausted_run : Run → Time → Run
exhausted_run run t = record run {
  status = RunStatus.failed;
  error = "attempt lease expired";
  completed_at = some t;
}

abbrev pub retried_run : Run → String → Time → Run
retried_run run attempt_id available = record run {
  attempt = record {
    id = attempt_id;
    number = run.attempt.number + 1;
    node_id = "";
    lease_token = "";
    lease_expires_at = none;
    available_at = some available;
    status = AttemptStatus.queued;
    started_at = none;
    completed_at = none;
  };
  status = RunStatus.queued;
  error = "";
  started_at = none;
  completed_at = none;
}

unfoldable pub is_abandoned : Run → Time → Bool
is_abandoned run t =
    (is_status run.status RunStatus.running || is_status run.status RunStatus.cancelling)
    && ((in_state run.attempt.status AttemptStatus.running
          || (is_status run.status RunStatus.cancelling
              && in_state run.attempt.status AttemptStatus.leased))
        && past run.attempt.lease_expires_at t)

module _ (w : World) where
  -- A lost attempt is tried again until the request's attempts are used up.
  unfoldable pub retry_run : Run → Request → Time → MemoryStorage → MemoryStorage
  retry_run run request t s =
      let next = add_duration t (retry_backoff w request.retry) in
      let history = set_last run.attempt (lookup_or [] run.id s.attempt_history) in
      let run' = retried_run run (new_id w "attempt" s) next in
      append_event w run' "attempt.queued"
        (fields (
          ("number", number run'.attempt.number)
          ∷ ("available_at", time next)
          ∷ ("reason", text "retry")
          ∷ []))
        (save_run run' (record (draw w s) {
          attempt_history = insert run.id (history ++ run'.attempt ∷ []) s.attempt_history;
        }))

  unfoldable pub exhaust_run : Run → Time → MemoryStorage → MemoryStorage
  exhaust_run run t s =
      let run' = exhausted_run run t in
      append_event w run' "run.failed" (fields (("error", text run'.error) ∷ [])) (save_run run' s)

  unfoldable pub lose_attempt : Run → Request → Time → MemoryStorage → MemoryStorage
  unfolding retry_run exhaust_run
  lose_attempt run request t s =
      let run' = lost_run run t in
      let s' =
        append_event w run' "attempt.lost"
          (fields (("node_id", text run.attempt.node_id) ∷ ("reason", text "lease_expired") ∷ []))
          (save_run run' (release_node run.attempt.node_id s)) in
      if le_nat request.retry.max_attempts run.attempt.number
      then exhaust_run run' t s'
      else retry_run run' request t s'

  -- The loops count the runs that they changed and do nothing more once `limit` is reached.
  unfoldable pub expire_run : Run → Time → ℤ → ℕ × MemoryStorage → ℕ × MemoryStorage
  expire_run run t limit (n, s) =
      if past run.deadline_at t
        && (not (terminal_run run.status) && not (is_some run.cancel_requested_at))
      then (suc n, (cancel_run_locked w run timeout_request t s).1)
      else (n, s)

  unfoldable pub expire_all : List String → Time → ℤ → ℕ × MemoryStorage → ℕ × MemoryStorage
  unfolding expire_run
  expire_all [] t limit (n, s) = (n, s)
  expire_all (id ∷ ids) t limit (n, s) =
      let next : ℕ × MemoryStorage = elim (lookup id s.runs) [
        | none ↦ (n, s)
        | some run ↦ expire_run run t limit (n, s)
      ] in
      let rest = expire_all ids t limit next in if le_nat limit n then (n, s) else rest

  unfoldable pub recover_run : Run → Request → Time → ℤ → ℕ × MemoryStorage → ℕ × MemoryStorage
  recover_run run blank t limit (n, s) =
      if le_nat limit n || not (is_abandoned run t)
      then (n, s)
      else (if is_status run.status RunStatus.cancelling
          then (suc n, (finalize_cancellation w run t s).1)
          else (suc n, lose_attempt run (lookup_or blank run.id s.requests) t s))

  unfoldable pub recover_all :
      List String → Request → Time → ℤ → ℕ × MemoryStorage → ℕ × MemoryStorage
  unfolding recover_run
  recover_all [] blank t limit (n, s) = (n, s)
  recover_all (id ∷ ids) blank t limit (n, s) =
      let next : ℕ × MemoryStorage = elim (lookup id s.runs) [
        | none ↦ (n, s)
        | some run ↦ recover_run run blank t limit (n, s)
      ] in
      recover_all ids blank t limit next

  unfoldable pub reconcile :
      List String → List String → Request → Time → ℤ → MemoryStorage → Result ℕ × MemoryStorage
  reconcile order₁ order₂ blank t limit s =
      let (n, s') = recover_all order₂ blank t limit (expire_all order₁ t limit (0, s)) in
      (ok n, s')
