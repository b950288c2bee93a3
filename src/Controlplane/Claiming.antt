-- ===== src/Controlplane/Claiming.antt =====
-- controlplane/memory.go: Claim. Go visits a map in an order of its own choice: the two loops over
-- `s.runs` take theirs as lists of run IDs, and a listed ID that is not stored is passed over.
use realy.Common.{
  ◌+◌, String, Bool, false, not, ◌&&◌, ◌||◌, Option, none, some, List, [], ◌∷◌, ltb, if◌then◌else◌,
  is_some, ℤ, le_nat,
}
use realy.Common.Maps.{lookup, lookup_or, insert}
use realy.Types.{Time, add_duration, Run, RunStatus, AttemptStatus, is_status, in_state, Request}
use realy.Controlplane.Types.{
  Node, Assignment, CancelRequest, not_found, no_assignment, Result, ok, err, fields, text, time,
  World,
}
use realy.Controlplane.State.{MemoryStorage, save_run, now, tick, new_id, draw, append_event}
use realy.Controlplane.Runs.{past, requeue_expired, finalize_cancellation, cancel_run_locked}
use realy.Controlplane.Matching.{node_matches}

abbrev pub timeout_request : CancelRequest
timeout_request = record { reason = "run timeout exceeded"; requested_by = "relay" }

unfoldable pub is_claimable : Run → Time → Bool
is_claimable run t =
    is_status run.status RunStatus.queued
    && (in_state run.attempt.status AttemptStatus.queued
        && not (elim run.attempt.available_at [ none ↦ false | some at ↦ ltb t at ]))

abbrev pub leased_run : Run → String → String → Time → Run
leased_run run node_id token expires = record run {
  attempt = record (run.attempt) {
    status = AttemptStatus.leased;
    node_id = node_id;
    lease_token = token;
    lease_expires_at = some expires;
  };
}

abbrev pub occupied : Node → Node
occupied node = record node { active = node.active + 1 }

module _ (w : World) where
  -- The body of the first loop: a run past its deadline is cancelled, a cancelling run whose lease
  -- ran out is cancelled for good, and a leased attempt whose lease ran out is queued again.
  unfoldable pub sweep_timeout : Run → Time → MemoryStorage → Run × MemoryStorage
  sweep_timeout run t s =
      if past run.deadline_at t && not (is_some run.cancel_requested_at)
      then cancel_run_locked w run timeout_request t s
      else (run, s)

  unfoldable pub sweep_lease : Run → Time → MemoryStorage → Run × MemoryStorage
  sweep_lease run t s =
      if is_status run.status RunStatus.cancelling
        && ((in_state run.attempt.status AttemptStatus.leased
              || in_state run.attempt.status AttemptStatus.running)
            && past run.attempt.lease_expires_at t)
      then finalize_cancellation w run t s
      else requeue_expired w run t s

  unfoldable pub sweep_run : Run → Time → MemoryStorage → MemoryStorage
  sweep_run run t s = let (run', s') = sweep_timeout run t s in (sweep_lease run' t s').1

  unfoldable pub sweep : List String → Time → MemoryStorage → MemoryStorage
  sweep [] t s = s
  sweep (id ∷ ids) t s =
      let s' : MemoryStorage = elim (lookup id s.runs) [
        | none ↦ s
        | some run ↦ sweep_run run t s
      ] in
      sweep ids t s'

  -- The lease of a chosen run, and the event that records it.
  unfoldable pub lease_run :
      Run → Request → String → Node → Time → ℤ → MemoryStorage → Assignment × MemoryStorage
  lease_run run request node_id node t ttl s =
      let token = new_id w "lease" s in
      let expires = add_duration t ttl in
      let run' = leased_run run node_id token expires in
      let s1 = record (draw w s) { nodes = insert node_id (occupied node) s.nodes } in
      (
        record {
          run_id = run.id;
          attempt_id = run.attempt.id;
          lease_token = token;
          lease_expires_at = expires;
          request = request;
        },
        append_event w run' "attempt.leased"
            (fields (("node_id", text node_id) ∷ ("lease_expires_at", time expires) ∷ []))
            (save_run run' s1),
      )

  -- The second loop, up to the first run that the node can take. `blank` is Go's zero request.
  unfoldable pub pick : Node → Time → List String → Request → MemoryStorage → Option (Run × Request)
  pick node t [] blank s = none
  pick node t (id ∷ ids) blank s =
      let rest = pick node t ids blank s in
      elim (lookup id s.runs) [
        | none ↦ rest
        | some run ↦
            let request = lookup_or blank run.id s.requests in
            if not (is_claimable run t)
            then rest
            else (if not (node_matches w node request) then rest else some (run, request))
      ]

  unfoldable pub claim_swept :
      String
      → Node
      → Time
      → ℤ
      → List String
      → Request
      → MemoryStorage
      → Result Assignment × MemoryStorage
  claim_swept node_id node t ttl order blank s = elim (pick node t order blank s) [
    | none ↦ (err no_assignment, s)
    | some (run, request) ↦ let (a, s') = lease_run run request node_id node t ttl s in (ok a, s')
  ]

  -- The sweep may free a slot of this node, which the pointer `node` shows: it is read again.
  unfoldable pub claim :
      List String
      → List String
      → Request
      → String
      → ℤ
      → MemoryStorage
      → Result Assignment × MemoryStorage
  unfolding claim_swept
  claim order₁ order₂ blank node_id ttl s = elim (lookup node_id s.nodes) [
    | none ↦ (err not_found, s)
    | some node ↦
        let t = now w s in
        let s1 = sweep order₁ t (tick w s) in
        if le_nat node.registration.capacity node.active
        then (err no_assignment, s)
        else elim (lookup node_id s1.nodes) [
          | none ↦ (err not_found, s1)
          | some node' ↦ claim_swept node_id node' t ttl order₂ blank s1
        ]
  ]
