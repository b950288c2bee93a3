-- ===== src/Controlplane/Runs.antt =====
-- controlplane/memory.go: the changes of one run that several methods share. Each takes what the
-- code's `run` points to and gives back what it points to afterwards, with the new state.
use realy.Common.{
  String, Bool, true, false, not, ◌||◌, Option, none, some, [], ◌∷◌, leb, if◌then◌else◌, is_some,
  ◌==◌,
}
use realy.Common.Maps.{lookup}
use realy.Types.{Time, Run, RunStatus, AttemptStatus, is_status, in_state}
use realy.Controlplane.Types.{
  CancelRequest, not_found, invalid_lease, Result, ok, err, fields, of_cancel, text, World,
}
use realy.Controlplane.State.{MemoryStorage, save_run, now, tick, append_event, release_node}

-- `expires == nil || !now.Before(*expires)` and `expires != nil && !now.Before(*expires)`
abbrev pub missing_or_past : Option Time → Time → Bool
missing_or_past none t = true
missing_or_past (some expires) t = leb expires t

abbrev pub past : Option Time → Time → Bool
past none t = false
past (some expires) t = leb expires t

unfoldable pub terminal_run : RunStatus → Bool
terminal_run status =
    is_status status RunStatus.succeeded
    || is_status status RunStatus.failed
    || is_status status RunStatus.cancelled

abbrev pub requeued : Run → Run
requeued run = record run {
  attempt = record (run.attempt) {
    status = AttemptStatus.queued;
    node_id = "";
    lease_token = "";
    lease_expires_at = none;
  };
}

abbrev pub cancelled : Run → Time → Run
cancelled run t = record run {
  attempt = record (run.attempt) { status = AttemptStatus.cancelled; completed_at = some t };
  status = RunStatus.cancelled;
  cancelled_at = some t;
  completed_at = some t;
}

abbrev pub cancel_requested : Run → CancelRequest → Time → Run
cancel_requested run request t = record run {
  cancel_requested_at = some t;
  cancel_reason = request.reason;
}

module _ (w : World) where
  unfoldable pub requeue_expired : Run → Time → MemoryStorage → Run × MemoryStorage
  requeue_expired run t s =
      if not (in_state run.attempt.status AttemptStatus.leased)
        || not (past run.attempt.lease_expires_at t)
      then (run, s)
      else (
        requeued run,
        save_run (requeued run) (
            append_event w run "attempt.lease_expired"
              (fields (("node_id", text run.attempt.node_id) ∷ []))
              (release_node run.attempt.node_id s)),
      )

  unfoldable pub finalize_cancellation : Run → Time → MemoryStorage → Run × MemoryStorage
  finalize_cancellation run t s =
      let run' = cancelled run t in
      let reason = fields (("reason", text run.cancel_reason) ∷ []) in
      if is_status run.status RunStatus.cancelled then (run, s) else (
        run',
        append_event w run' "run.cancelled" reason (
            append_event w run' "attempt.cancelled" reason
              (save_run run' (release_node run.attempt.node_id s))),
      )

  unfoldable pub cancel_run_locked :
      Run → CancelRequest → Time → MemoryStorage → Run × MemoryStorage
  cancel_run_locked run request t s =
      let run' = cancel_requested run request t in
      let s' = append_event w run' "run.cancel_requested" (of_cancel request) (save_run run' s) in
      let cancelling = record run' { status = RunStatus.cancelling } in
      if terminal_run run.status || is_some run.cancel_requested_at
      then (run, s)
      else (if in_state run.attempt.status AttemptStatus.queued
          then finalize_cancellation run' t s'
          else (cancelling, save_run cancelling s'))

  -- The test of a lease reads the clock where the lease has an end.
  abbrev pub test_lease : Option Time → MemoryStorage → MemoryStorage
  test_lease none s = s
  test_lease (some expires) s = tick w s

  abbrev pub refuse_expired : Run → MemoryStorage → Result Run × MemoryStorage
  refuse_expired run s = (err invalid_lease, (requeue_expired run (now w s) (tick w s)).1)

  -- The lease is matched and has not run out; where it has, a leased attempt is queued again.
  unfoldable pub authorize_run : Run → String → String → MemoryStorage → Result Run × MemoryStorage
  authorize_run run attempt_id lease s =
      if not (run.attempt.id == attempt_id) || lease == "" || not (run.attempt.lease_token == lease)
      then (err invalid_lease, s)
      else (if missing_or_past run.attempt.lease_expires_at (now w s)
          then refuse_expired run (test_lease run.attempt.lease_expires_at s)
          else (ok run, tick w s))

  unfoldable pub authorize : String → String → String → MemoryStorage → Result Run × MemoryStorage
  unfolding authorize_run
  authorize run_id attempt_id lease s = elim (lookup run_id s.runs) [
    | none ↦ (err not_found, s)
    | some run ↦ authorize_run run attempt_id lease s
  ]
