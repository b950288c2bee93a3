-- ===== src/Controlplane/Reports.antt =====
-- controlplane/memory.go: what a node reports of its assignment (Start, Renew, AppendEvent,
-- Complete, Fail, AcknowledgeCancellation), and CancelRun.
use realy.Common.{
  String, Bool, not, ◌&&◌, ◌||◌, Option, none, some, List, [], ◌∷◌, if◌then◌else◌, is_some, ◌==◌, ℤ,
}
use realy.Common.Maps.{lookup, insert}
use realy.Types.{
  Time, add_duration, Run, RunStatus, AttemptStatus, is_status, in_state, Event, RunResult,
}
use realy.Controlplane.Types.{
  Assignment, LeaseUpdate, CancelRequest, Error, not_found, invalid_lease, invalid_transition,
  run_cancelled, other, Result, ok, err, Payload, nil, fields, text, World,
}
use realy.Controlplane.State.{MemoryStorage, save_run, now, tick, append_event, events_of}
use realy.Controlplane.Runs.{
  past, missing_or_past, requeue_expired, finalize_cancellation, cancel_run_locked, authorize,
}
use realy.Controlplane.Identity.{event_identity, same_event}

-- The reply of a method that returns only an error.
abbrev pub Reply : Type 0
Reply = Result (Unit {0}) × MemoryStorage

abbrev pub done : MemoryStorage → Reply
done s = (ok tt, s)

abbrev pub refuse : {A : Type 0} → Error → MemoryStorage → Result A × MemoryStorage
refuse e s = (err e, s)

-- Goes on with the authorized run, or hands the error on with what was changed before it.
abbrev pub with_run :
    {A : Type 0}
    → Result Run × MemoryStorage
    → (Run → MemoryStorage → Result A × MemoryStorage)
    → Result A × MemoryStorage
with_run (ok run, s) next = next run s
with_run (err e, s) next = (err e, s)

abbrev pub authorize_assignment : World → Assignment → MemoryStorage → Result Run × MemoryStorage
authorize_assignment w a s = authorize w a.run_id a.attempt_id a.lease_token s

-- The lease check of Complete and Fail, which leaves an expired lease as it is.
abbrev pub holds_lease : Run → Assignment → Bool
holds_lease run a = not (
    not (run.attempt.id == a.attempt_id)
    || a.lease_token == ""
    || not (run.attempt.lease_token == a.lease_token))

abbrev pub started_run : Run → Time → Run
started_run run t = record run {
  status = RunStatus.running;
  started_at = some t;
  attempt = record (run.attempt) { status = AttemptStatus.running; started_at = some t };
}

abbrev pub succeeded_run : Run → RunResult → Time → Run
succeeded_run run result t = record run {
  status = RunStatus.succeeded;
  result = some result;
  completed_at = some t;
  attempt = record (run.attempt) { status = AttemptStatus.succeeded; completed_at = some t };
}

abbrev pub failed_run : Run → String → Time → Run
failed_run run cause t = record run {
  status = RunStatus.failed;
  error = cause;
  completed_at = some t;
  attempt = record (run.attempt) { status = AttemptStatus.failed; completed_at = some t };
}

-- The stored event with a producer's identity, if there is one.
unfoldable pub find_event : String → List Event → Option Event
find_event id [] = none
find_event id (event ∷ events) = if event.id == id then some event else find_event id events

-- `events[len-1].ID = id`
unfoldable pub name_last : String → List Event → List Event
name_last id [] = []
name_last id (event ∷ []) = record event { id = id } ∷ []
name_last id (event ∷ next ∷ events) = event ∷ name_last id (next ∷ events)

unfoldable pub same_or_refuse : Option Error → MemoryStorage → Reply
same_or_refuse none s = done s
same_or_refuse (some e) s = refuse e s

module _ (w : World) where
  unfoldable pub renew_run : ℤ → Run → MemoryStorage → Result LeaseUpdate × MemoryStorage
  renew_run ttl run s =
      let t = now w s in
      let expires = add_duration t ttl in
      let run' = record run {
        attempt = record (run.attempt) { lease_expires_at = some expires };
      } in
      if not (in_state run.attempt.status AttemptStatus.leased)
        && not (in_state run.attempt.status AttemptStatus.running)
      then refuse invalid_transition s
      else (if missing_or_past run.attempt.lease_expires_at t
          then refuse invalid_lease (tick w s)
          else (
            ok (record {
              lease_expires_at = expires;
              cancel_requested = is_some run.cancel_requested_at;
              cancel_reason = run.cancel_reason;
            }),
            save_run run' (tick w s),
          ))

  unfoldable pub renew : Assignment → ℤ → MemoryStorage → Result LeaseUpdate × MemoryStorage
  renew a ttl s = with_run (authorize_assignment w a s) (renew_run ttl)

  unfoldable pub cancel_run : String → CancelRequest → MemoryStorage → Result Run × MemoryStorage
  cancel_run run_id request s = elim (lookup run_id s.runs) [
    | none ↦ refuse not_found s
    | some run ↦
        let (run', s') = cancel_run_locked w run request (now w s) (tick w s) in (ok run', s')
  ]

  unfoldable pub acknowledge_run : Run → MemoryStorage → Reply
  acknowledge_run run s =
      if is_status run.status RunStatus.cancelled
      then done s
      else (if not (is_status run.status RunStatus.cancelling)
          then refuse invalid_transition s
          else done (finalize_cancellation w run (now w s) (tick w s)).1)

  unfoldable pub acknowledge_cancellation : Assignment → MemoryStorage → Reply
  acknowledge_cancellation a s = with_run (authorize_assignment w a s) acknowledge_run

  unfoldable pub begin_run : Run → Time → MemoryStorage → Reply
  begin_run run t s =
      let run' = started_run run t in
      done (
        append_event w run' "run.started" nil (
          append_event w run' "attempt.started"
            (fields (("node_id", text run'.attempt.node_id) ∷ [])) (save_run run' s)))

  -- Every call of `time.Now` is a reading of its own: the second test of the lease can fail.
  unfoldable pub start_checked : Run → MemoryStorage → Reply
  unfolding begin_run
  start_checked run s =
      if is_some run.attempt.lease_expires_at && past run.attempt.lease_expires_at (now w s)
      then refuse invalid_lease (requeue_expired w run (now w (tick w s)) (tick w (tick w s))).1
      else (let s' = if is_some run.attempt.lease_expires_at then tick w s else s in
          begin_run run (now w s') (tick w s'))

  unfoldable pub start_run : Run → MemoryStorage → Reply
  unfolding start_checked
  start_run run s =
      if not (in_state run.attempt.status AttemptStatus.leased)
      then refuse invalid_transition s
      else (if is_status run.status RunStatus.cancelling
          then refuse run_cancelled (finalize_cancellation w run (now w s) (tick w s)).1
          else start_checked run s)

  unfoldable pub start : Assignment → MemoryStorage → Reply
  start a s = with_run (authorize_assignment w a s) start_run

  unfoldable pub report_event : Run → String → String → Payload → MemoryStorage → Reply
  report_event run id kind value s =
      let s' = append_event w run kind value s in
      let named = record s' {
        events = insert run.id (name_last id (events_of run.id s')) s'.events;
      } in
      elim (w.marshal value) [
        | none ↦ refuse (other "json") s
        | some _ ↦ done (if id == "" then s' else named)
      ]

  unfoldable pub append_run_event : String → String → Payload → Run → MemoryStorage → Reply
  unfolding report_event same_or_refuse
  append_run_event id kind value run s =
      let previous = if id == "" then none else find_event id (events_of run.id s) in
      if not (in_state run.attempt.status AttemptStatus.running)
      then refuse invalid_transition s
      else elim previous [
        | none ↦ report_event run id kind value s
        | some event ↦ same_or_refuse (same_event w event.type_name event.payload kind value) s
      ]

  unfoldable pub append_event_call :
      String → String → String → String → Payload → Option String → MemoryStorage → Reply
  append_event_call run_id attempt_id lease kind value event_id s =
      with_run (authorize w run_id attempt_id lease s)
        (append_run_event (event_identity w attempt_id lease event_id) kind value)
