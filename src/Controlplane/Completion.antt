-- ===== src/Controlplane/Completion.antt =====
-- controlplane/memory.go: Complete and Fail, the two final reports of a node.
use realy.Common.{String, not, ◌&&◌, none, some, [], ◌∷◌, if◌then◌else◌, is_some, ◌==◌}
use realy.Common.Maps.{lookup}
use realy.Types.{Time, Run, RunStatus, AttemptStatus, is_status, in_state, RunResult}
use realy.Controlplane.Types.{
  Assignment, not_found, invalid_lease, invalid_transition, run_cancelled, nil, fields, of_result,
  text, World,
}
use realy.Controlplane.State.{MemoryStorage, save_run, now, tick, append_event, release_node}
use realy.Controlplane.Runs.{missing_or_past, finalize_cancellation}
use realy.Controlplane.Identity.{same_result}
use realy.Controlplane.Reports.{Reply, done, refuse, holds_lease, succeeded_run, failed_run}

module _ (w : World) where
  -- A completion that was already committed is accepted again with the same result only.
  unfoldable pub repeat_completion : Run → RunResult → MemoryStorage → Reply
  repeat_completion run result s = elim run.result [
    | none ↦ refuse invalid_transition s
    | some committed ↦
        if same_result w committed result then done s else refuse invalid_transition s
  ]

  unfoldable pub commit_completion : Run → RunResult → Time → MemoryStorage → Reply
  commit_completion run result t s =
      let run' = succeeded_run run result t in
      done (
        append_event w run' "run.succeeded" (of_result result) (
          append_event w run' "attempt.succeeded" nil
            (release_node run'.attempt.node_id (save_run run' s))))

  unfoldable pub complete_run : Assignment → RunResult → Run → MemoryStorage → Reply
  unfolding repeat_completion commit_completion
  complete_run a result run s =
      let s' = if is_some run.attempt.lease_expires_at then tick w s else s in
      if not (holds_lease run a)
      then refuse invalid_lease s
      else (if is_status run.status RunStatus.succeeded
            && in_state run.attempt.status AttemptStatus.succeeded
          then repeat_completion run result s
          else (if missing_or_past run.attempt.lease_expires_at (now w s)
              then refuse invalid_lease s'
              else (if not (in_state run.attempt.status AttemptStatus.running)
                  then refuse invalid_transition s'
                  else (if is_status run.status RunStatus.cancelling
                      then refuse run_cancelled s'
                      else commit_completion run result (now w s') (tick w s')))))

  unfoldable pub complete : Assignment → RunResult → MemoryStorage → Reply
  complete a result s = elim (lookup a.run_id s.runs) [
    | none ↦ refuse not_found s
    | some run ↦ complete_run a result run s
  ]

  unfoldable pub commit_failure : Run → String → Time → MemoryStorage → Reply
  commit_failure run cause t s =
      let run' = failed_run run cause t in
      let data' = fields (("error", text cause) ∷ []) in
      done (
        append_event w run' "run.failed" data' (
          append_event w run' "attempt.failed" data'
            (release_node run'.attempt.node_id (save_run run' s))))

  unfoldable pub fail_run : Assignment → String → Run → MemoryStorage → Reply
  unfolding commit_failure
  fail_run a cause run s =
      let s' = if is_some run.attempt.lease_expires_at then tick w s else s in
      if not (holds_lease run a)
      then refuse invalid_lease s
      else (if is_status run.status RunStatus.failed
            && in_state run.attempt.status AttemptStatus.failed
          then (if run.error == cause then done s else refuse invalid_transition s)
          else (if missing_or_past run.attempt.lease_expires_at (now w s)
              then refuse invalid_lease s'
              else (if not (in_state run.attempt.status AttemptStatus.running)
                    && not (in_state run.attempt.status AttemptStatus.leased)
                  then refuse invalid_transition s'
                  else (if is_status run.status RunStatus.cancelling
                      then refuse run_cancelled
                          (finalize_cancellation w run (now w s') (tick w s')).1
                      else commit_failure run cause (now w s') (tick w s')))))

  unfoldable pub fail : Assignment → String → MemoryStorage → Reply
  fail a cause s = elim (lookup a.run_id s.runs) [
    | none ↦ refuse not_found s
    | some run ↦ fail_run a cause run s
  ]
