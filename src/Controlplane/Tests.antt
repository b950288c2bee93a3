-- ===== src/Controlplane/Tests.antt =====
-- The storage's theorems at the states of the fixture.
use realy.Common.{◌≡◌, ◌≢◌, refl, String, true, none, some, List, [], ◌∷◌, eq_iff, arith}
use realy.Common.Maps.{lookup}
use realy.Controlplane.Types.{Assignment, invalid_lease, nil, ok, err}
use realy.Controlplane.State.{MemoryStorage, events_of}
use realy.Controlplane.Runs.{requeued, terminal_run}
use realy.Controlplane.Lifecycle.{Logged, Steps}
use realy.Controlplane.Lifecycle.Invariant.{Inv, LivesOn}
use realy.Common.{pos}
use realy.Types.{InteractionKind}
use realy.Controlplane.State.{new_memory_storage}
use realy.Controlplane.Calls.{Call, perform, perform_all}
use realy.Controlplane.Calls.History.{
  AllDrawFresh, perform-Steps, perform_all-Inv, history-Inv, history-LivesOn, history_terminal,
  history_stranded, history-Logged,
}
use realy.Controlplane.Calls.Stranding.{IsOverdue, overdue_renew_strands}
use realy.Controlplane.Completion.{complete}
use realy.Controlplane.Submission.{submit}
use realy.Controlplane.Records.{events_after}
use realy.Controlplane.Guarantees.Fencing.{stale_refused}
use realy.Controlplane.Guarantees.Repeating.{complete_repeat, submit_again}
use realy.Controlplane.Guarantees.Answers.{newer, events_after_exact, Fits, node_matches_iff}
use realy.Controlplane.Fixture.{
  opened, world, request, registration, run_id, assignment, result, claimed, claimed_state,
  cancel_request, cancelling_state, cancelling_run, late_state, started_state, begun_run,
  started_stored, completed_state, completed_run, completed_stored,
}

claimed-Inv : Inv claimed_state
unfolding opened
claimed-Inv = history-Inv world claimed (tt, (refl, (tt, tt)))

cancelling-Inv : Inv cancelling_state
unfolding opened
cancelling-Inv =
    perform_all-Inv world (Call.cancel_run run_id cancel_request ∷ []) claimed_state claimed-Inv
      (tt, tt)

late-Inv : Inv late_state
late-Inv = record {
  keyed = cancelling-Inv.keyed;
  coherent = cancelling-Inv.coherent;
  numbered = cancelling-Inv.numbered;
  balanced = cancelling-Inv.balanced;
}

started-Inv : Inv started_state
unfolding opened
started-Inv = perform_all-Inv world (Call.start assignment ∷ []) claimed_state claimed-Inv (tt, tt)

completed-Inv : Inv completed_state
unfolding opened
completed-Inv =
    perform_all-Inv world (Call.complete assignment result ∷ []) started_state started-Inv (tt, tt)

history-Inv_example : Inv (perform_all world claimed new_memory_storage)
unfolding opened
history-Inv_example = history-Inv world claimed (tt, (refl, (tt, tt)))

perform-Steps_example : Steps claimed_state (perform world (Call.start assignment) claimed_state)
perform-Steps_example = perform-Steps world (Call.start assignment) claimed_state claimed-Inv tt

-- The run is completed, submitted again, and the node is heard of.
abbrev later : List Call
later = Call.complete assignment result ∷ Call.submit request ∷ Call.heartbeat "n1" ∷ []

later_fresh : AllDrawFresh world later started_state
unfolding opened
later_fresh = (tt, (refl, (tt, tt)))

history-LivesOn_example : LivesOn run_id begun_run (perform_all world later started_state)
history-LivesOn_example =
    history-LivesOn world later started_state run_id begun_run started-Inv later_fresh
      started_stored

history-Logged_example : Logged started_state (perform_all world later started_state)
history-Logged_example = history-Logged world later started_state started-Inv later_fresh

-- A cancellation and a failure come after the end of the run.
abbrev afterwards : List Call
afterwards = Call.cancel_run run_id cancel_request ∷ Call.fail assignment "late" ∷ []

history_terminal_example :
    lookup run_id (perform_all world afterwards completed_state).runs ≡ some completed_run
unfolding terminal_run
history_terminal_example =
    history_terminal world afterwards completed_state run_id completed_run completed-Inv
      (tt, (tt, tt)) completed_stored refl

overdue : IsOverdue world assignment cancelling_run late_state
unfolding opened
overdue = record {
  at = refl;
  cancelling = refl;
  leased = refl;
  attempt = refl;
  token = refl;
  nonempty = λ e. absurd (lease_nonempty e);
  late = refl;
  later = refl;
}
  where
    lease_nonempty : ◌≢◌ {A = String} "lease_xxxx" ""
    lease_nonempty = ground (arith, eq_iff "lease_xxxx" "")

-- Claim, Reconcile and another cancellation.
abbrev attempts_to_end : List Call
attempts_to_end =
    Call.claim (run_id ∷ []) (run_id ∷ []) request "n1" (pos 1000)
    ∷ Call.reconcile (run_id ∷ []) (run_id ∷ []) request 9000 (pos 10)
    ∷ Call.cancel_run run_id cancel_request
    ∷ []

overdue_renew_strands_example :
    lookup run_id
      (perform_all world (Call.renew assignment (pos 1000) ∷ attempts_to_end) late_state).runs
    ≡ some (requeued cancelling_run)
overdue_renew_strands_example =
    overdue_renew_strands world assignment (pos 1000) cancelling_run attempts_to_end late_state
      late-Inv overdue (tt, (tt, (tt, tt)))

abbrev stranded_state : MemoryStorage
stranded_state = perform world (Call.renew assignment (pos 1000)) late_state

stranded-Inv : Inv stranded_state
unfolding opened
stranded-Inv =
    perform_all-Inv world (Call.renew assignment (pos 1000) ∷ []) late_state late-Inv (tt, tt)

history_stranded_example :
    lookup run_id (perform_all world attempts_to_end stranded_state).runs
    ≡ some (requeued cancelling_run)
unfolding opened
history_stranded_example =
    history_stranded world attempts_to_end stranded_state run_id (requeued cancelling_run)
      stranded-Inv (tt, (tt, (tt, tt))) refl refl refl

abbrev stale : Assignment
stale = record assignment { lease_token = "lease_x" }

stale_refused_example :
    complete world stale result started_state ≡ (err invalid_lease, started_state)
unfolding opened
stale_refused_example =
    (stale_refused world stale begun_run started_state (pos 1) "log" nil none result "cause" "key"
      "hash" "id"
      (record {
        id = "a";
        run_id = run_id;
        type_name = "";
        ref = "";
        name = "";
        content_type = "";
        size = 0;
        sha256 = "";
      })
      (record { call_id = "c"; execute = true; result = none; error = "" })
      (record { call_id = "c"; output = "" })
      (record { kind = InteractionKind.input; prompt = ""; payload = "" }) started_stored refl).4

complete_repeat_example :
    complete world assignment result completed_state ≡ (ok tt, completed_state)
unfolding opened
complete_repeat_example =
    complete_repeat world assignment result begun_run started_state started_stored refl refl refl

submit_again_example :
    let first = submit world request claimed_state in
    submit world (record request { agent_id = "other" }) first.1 ≡ first
submit_again_example =
    submit_again world request (record request { agent_id = "other" }) claimed_state refl refl refl

events_after_exact_example :
    events_after run_id (pos 2) started_state ≡ ok (newer (pos 2) (events_of run_id started_state))
events_after_exact_example =
    events_after_exact run_id (pos 2) begun_run started_state started-Inv started_stored

node_matches_iff_example :
    Fits world
      (record { registration = registration; active = 0; last_seen = 0; state = "" })
      request
unfolding opened
node_matches_iff_example =
    (node_matches_iff world
        (record { registration = registration; active = 0; last_seen = 0; state = "" }) request).0
      refl
