-- ===== src/Controlplane/Calls/History.antt =====
-- What every history of calls on the storage keeps and what it can do to a run.
use realy.Common.{◌≡◌, refl, ap, ◌∙◌, subst, String, true, some, List, [], ◌∷◌}
use realy.Common.Maps.{lookup}
use realy.Types.{Run, RunStatus, AttemptStatus}
use realy.Controlplane.Types.{World}
use realy.Controlplane.State.{MemoryStorage}
use realy.Controlplane.Runs.{terminal_run}
use realy.Controlplane.Lifecycle.{
  Transition, Logged, Step, Steps, quiet, move, add, stay, more, Reach, here, next,
}
use realy.Controlplane.Lifecycle.Invariant.{
  Inv, IsCoherent, Transition-IsCoherent, Transition-terminal, Transition-stranded, Steps-append,
  Steps-Inv, Steps-LivesOn, LivesOn,
}
use realy.Controlplane.Lifecycle.Moving.{Logged-refl, Logged-trans}
use realy.Controlplane.Lifecycle.Reporting.{
  renew-Steps, start-Steps, acknowledge_cancellation-Steps, cancel_run-Steps,
}
use realy.Controlplane.Lifecycle.Completing.{complete-Steps, fail-Steps}
use realy.Controlplane.Lifecycle.Recording.{
  append_event_call-Steps, add_artifact-Steps, reserve_capability-Steps, finish_capability-Steps,
  create_interaction-Steps, get_interaction-Steps, resolve_interaction-Steps,
}
use realy.Controlplane.Lifecycle.Scheduling.{
  register_node-Steps, heartbeat-Steps, IsUnused, submit-Steps,
}
use realy.Controlplane.Lifecycle.Claims.{claim-Steps}
use realy.Controlplane.Lifecycle.Recovery.{reconcile-Steps}
use realy.Controlplane.Lifecycle.Invariant.{new_memory_storage-Inv}
use realy.Controlplane.State.{new_memory_storage}
use realy.Controlplane.Calls.{Call, perform, perform_all}

-- The random source repeats no run ID: what a submission draws next names no stored run.
abbrev pub DrawsFresh : World → Call → MemoryStorage → Type 0
DrawsFresh w (Call.submit request) s = IsUnused w s
DrawsFresh w _ s = Unit {0}

abbrev pub AllDrawFresh : World → List Call → MemoryStorage → Type 0
AllDrawFresh w [] s = Unit {0}
AllDrawFresh w (call ∷ calls) s = DrawsFresh w call s × AllDrawFresh w calls (perform w call s)

-- Every call changes the state by transitions of the lifecycle, where the state meets the
-- invariant and the random draws that a submission makes are fresh.
pub perform-Steps :
    (w : World) (call : Call) (s : MemoryStorage)
    → Inv s
    → DrawsFresh w call s
    → Steps s (perform w call s)
unfolding perform
perform-Steps w (Call.register_node registration) s inv f = register_node-Steps w registration s
perform-Steps w (Call.heartbeat node_id) s inv f = heartbeat-Steps w node_id s
perform-Steps w (Call.submit request) s inv f = submit-Steps w request s f
perform-Steps w (Call.claim order₁ order₂ blank node_id ttl) s inv f =
    claim-Steps w order₁ order₂ blank node_id ttl s inv
perform-Steps w (Call.renew a ttl) s inv f = renew-Steps w a s inv ttl
perform-Steps w (Call.reconcile order₁ order₂ blank t limit) s inv f =
    reconcile-Steps w order₁ order₂ blank t limit s inv
perform-Steps w (Call.cancel_run run_id request) s inv f = cancel_run-Steps w run_id request s inv
perform-Steps w (Call.acknowledge_cancellation a) s inv f = acknowledge_cancellation-Steps w a s inv
perform-Steps w (Call.start a) s inv f = start-Steps w a s inv
perform-Steps w (Call.append_event run_id attempt_id lease kind value id) s inv f =
    append_event_call-Steps w run_id attempt_id lease kind value id s inv
perform-Steps w (Call.complete a result) s inv f = complete-Steps w a s inv result
perform-Steps w (Call.fail a cause) s inv f = fail-Steps w a s inv cause
perform-Steps w (Call.add_artifact a artifact) s inv f = add_artifact-Steps w a s inv artifact
perform-Steps w (Call.reserve_capability a key hash) s inv f =
    reserve_capability-Steps w a s inv key hash
perform-Steps w (Call.finish_capability a reservation result cause) s inv f =
    finish_capability-Steps w a s inv reservation result cause
perform-Steps w (Call.create_interaction a request) s inv f =
    create_interaction-Steps w a s inv request
perform-Steps w (Call.get_interaction a id) s inv f = get_interaction-Steps w a s inv id
perform-Steps w (Call.resolve_interaction id response tenant project) s inv f =
    resolve_interaction-Steps w id response tenant project s

pub perform_all-Steps :
    (w : World) (calls : List Call) (s : MemoryStorage)
    → Inv s
    → AllDrawFresh w calls s
    → Steps s (perform_all w calls s)
unfolding perform_all
perform_all-Steps w [] s inv f = stay
perform_all-Steps w (call ∷ calls) s inv f =
    let first = perform-Steps w call s inv f.0 in
    Steps-append first (perform_all-Steps w calls (perform w call s) (Steps-Inv first inv) f.1)

pub perform_all-Inv :
    (w : World) (calls : List Call) (s : MemoryStorage)
    → Inv s
    → AllDrawFresh w calls s
    → Inv (perform_all w calls s)
perform_all-Inv w calls s inv f = Steps-Inv (perform_all-Steps w calls s inv f) inv

-- Every history of calls from the empty storage ends in a state where each stored run stands under
-- its own ID in a state that goes with its attempt's, each run's events are numbered 1, 2, 3 and so
-- on, and each node's active count (of a node whose ID is not empty) is the number of stored runs
-- whose leased or running attempt is on that node, provided that no drawn run ID names a stored run.
pub history-Inv :
    (w : World) (calls : List Call)
    → AllDrawFresh w calls new_memory_storage
    → Inv (perform_all w calls new_memory_storage)
history-Inv w calls f = perform_all-Inv w calls new_memory_storage new_memory_storage-Inv f

-- From a state that satisfies the invariant, every history of calls whose drawn run IDs name no
-- stored run keeps each stored run stored under its ID, and what the run has become is reached from
-- what it was by the transitions of the lifecycle.
pub history-LivesOn :
    (w : World) (calls : List Call) (s : MemoryStorage) (id : String) (run : Run)
    → Inv s
    → AllDrawFresh w calls s
    → lookup id s.runs ≡ some run
    → LivesOn id run (perform_all w calls s)
history-LivesOn w calls s id run inv f at =
    Steps-LivesOn id run inv (perform_all-Steps w calls s inv f) at

Reach-IsCoherent : {run run' : Run} → Reach run run' → IsCoherent run → IsCoherent run'
Reach-IsCoherent here c = c
Reach-IsCoherent (next reach t) c = Transition-IsCoherent t (Reach-IsCoherent reach c)

-- Where the first step is impossible, a run stays what it is.
Reach-stuck :
    {run run' : Run} → ((last : Run) → Transition run last → ⊥) → Reach run run' → run' ≡ run
Reach-stuck none_leaves here = refl
Reach-stuck {run} none_leaves (next {middle = m} {last = l} reach t) =
    absurd (none_leaves l (subst (λ x. Transition x l) (Reach-stuck none_leaves reach) t))

-- A run that has succeeded, failed or been cancelled is never changed again, in no field, by any
-- history of calls whose drawn run IDs name no stored run, from a state with the invariant.
pub history_terminal :
    (w : World) (calls : List Call) (s : MemoryStorage) (id : String) (run : Run)
    → Inv s
    → AllDrawFresh w calls s
    → lookup id s.runs ≡ some run
    → terminal_run run.status ≡ true
    → lookup id (perform_all w calls s).runs ≡ some run
history_terminal w calls s id run inv f at done =
    let (run', at', reach) = history-LivesOn w calls s id run inv f at in
    at'
    ∙ ap (λ (r : Run). some r)
        (Reach-stuck (λ last t. cc (Transition-terminal t (inv.coherent id run at))) reach)

-- A cancelling run whose attempt is queued is never changed again either: from a state with the
-- invariant, no history of calls whose drawn run IDs name no stored run ends its cancellation.
pub history_stranded :
    (w : World) (calls : List Call) (s : MemoryStorage) (id : String) (run : Run)
    → Inv s
    → AllDrawFresh w calls s
    → lookup id s.runs ≡ some run
    → run.status ≡ RunStatus.cancelling
    → run.attempt.status ≡ AttemptStatus.queued
    → lookup id (perform_all w calls s).runs ≡ some run
history_stranded w calls s id run inv f at c q =
    let (run', at', reach) = history-LivesOn w calls s id run inv f at in
    at'
    ∙ ap (λ (r : Run). some r)
        (Reach-stuck (λ last t. Transition-stranded t (inv.coherent id run at) c q) reach)

Step-Logged : {s s' : MemoryStorage} → Step s s' → Logged s s'
Step-Logged (quiet q) = q.log
Step-Logged (move run run' at t moves) = moves.log
Step-Logged (add run at fresh runs nodes log) = log

Steps-Logged : {s s' : MemoryStorage} → Steps s s' → Logged s s'
Steps-Logged {s} stay = Logged-refl s s refl
Steps-Logged {s} (more {s' = m} {s'' = l} steps step) =
    Logged-trans s m l (Steps-Logged steps) (Step-Logged step)

-- From a state with the invariant, every history of calls whose drawn run IDs name no stored run
-- only adds to the events of each run: those from before stand first, unchanged, and the new ones
-- go on with the next numbers.
pub history-Logged :
    (w : World) (calls : List Call) (s : MemoryStorage)
    → Inv s
    → AllDrawFresh w calls s
    → Logged s (perform_all w calls s)
history-Logged w calls s inv f = Steps-Logged (perform_all-Steps w calls s inv f)
