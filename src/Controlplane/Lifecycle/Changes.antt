-- ===== src/Controlplane/Lifecycle/Changes.antt =====
-- What the shared functions of controlplane/memory.go do to the run they are given: requeueExpired,
-- finalizeCancellation, cancelRunLocked and authorize as steps of the run's life.
use realy.Common.{
  ◌≡◌, ◌≢◌, ◌⊎◌, inl, inr, refl, sym, ap, ◌∙◌, subst, String, true, false, not, ◌||◌, none, some,
  [], ◌∷◌, is_some, arith, Bool-cases,
}
use realy.Common.Maps.{Map, lookup, insert, lookup-insert_self}
use realy.Types.{Time, Run, RunStatus, AttemptStatus, is_status, in_state}
use realy.Controlplane.Types.{CancelRequest, Payload, World, fields, text, of_cancel}
use realy.Controlplane.State.{MemoryStorage, save_run, tick, append_event, release_node}
use realy.Controlplane.Runs.{
  past, requeued, cancelled, cancel_requested, requeue_expired, finalize_cancellation,
  cancel_run_locked, terminal_run,
}
use realy.Controlplane.Lifecycle.{
  is_active, Transition, holds, Quiet, Moves, Steps, quiet, move, stay, more,
}
use realy.Controlplane.Lifecycle.Invariant.{IsCoherent, Transition-id}
use realy.Controlplane.Lifecycle.Moving.{
  Quiet-same, append_event-Quiet, save-Moves, free-Moves, Moves-Quiet, Moves-trans,
}

abbrev pub IsStored : Run → MemoryStorage → Type 0
IsStored run s = lookup run.id s.runs ≡ some run

-- The run and the state that a function gives back are reached by steps, and agree.
abbrev pub Follows : MemoryStorage → Run × MemoryStorage → Type 0
Follows s out = Steps s out.1 × IsStored out.0 out.1

stored-insert :
    (id : String) (run : Run) (runs : Map Run)
    → run.id ≡ id
    → lookup run.id (insert id run runs) ≡ some run
stored-insert id run runs e =
    ap (λ (k : String). lookup run.id (insert k run runs)) (sym e)
    ∙ lookup-insert_self run.id run runs

pub step_of-Moves :
    (run run' : Run) (s s' : MemoryStorage)
    → IsStored run s
    → Transition run run'
    → Moves run run' s s'
    → Follows s (run', s')
step_of-Moves run run' s s' at t moves = (
  more stay (move run run' at t moves),
  ap (lookup run'.id) moves.runs ∙ stored-insert run.id run' s.runs (Transition-id t),
)

pub Quiet-step : {s s' : MemoryStorage} → Quiet s s' → Steps s s'
Quiet-step q = more stay (quiet q)

pub tick-Quiet : (w : World) (s : MemoryStorage) → Quiet s (tick w s)
tick-Quiet w s = Quiet-same s (tick w s) refl refl refl

-- An attempt that is queued has no node, and any other of a cancellable run is on one.
pub OnNode : Run → Type 0
OnNode run = (is_active run.attempt.status ≡ true) ⊎ (run.attempt.node_id ≡ "")

module _ (w : World) (run : Run) (t : Time) (s : MemoryStorage) where
  requeue-Moves :
      (kind : String) (value : Payload)
      → run.attempt.status ≡ AttemptStatus.leased
      → Moves run (requeued run) s (
          save_run
            (requeued run)
            (append_event w run kind value (release_node run.attempt.node_id s)))
  unfolding append_event
  requeue-Moves kind value h =
      Moves-Quiet run (requeued run) s
        (save_run (requeued run) (release_node run.attempt.node_id s)) _
        (free-Moves run (requeued run) s refl refl (ground arith))
        (append_event-Quiet w run kind value
          (save_run (requeued run) (release_node run.attempt.node_id s)))

  pub requeue_expired-Follows : IsStored run s → Follows s (requeue_expired w run t s)
  unfolding requeue_expired
  requeue_expired-Follows at =
      elim (Bool-cases (
        not (in_state run.attempt.status AttemptStatus.leased)
        || not (past run.attempt.lease_expires_at t))) [
          | inl e ↦ rw e (stay, at)
          | inr e ↦ rw e (
              step_of-Moves run (requeued run) s _ at (Transition.requeue (ground arith))
                (requeue-Moves _ _ (ground arith)))
        ]

  pub finalize-Moves :
      is_status run.status RunStatus.cancelled ≡ false
      → OnNode run
      → ((finalize_cancellation w run t s).0 ≡ cancelled run t)
        × Moves run (cancelled run t) s (finalize_cancellation w run t s).1
  unfolding finalize_cancellation OnNode
  finalize-Moves h was = rw h (
    refl,
    (let c = cancelled run t in
        let s1 = save_run c (release_node run.attempt.node_id s) in
        let s2 =
          append_event w c "attempt.cancelled" (fields (("reason", text run.cancel_reason) ∷ []))
            s1 in
        Moves-Quiet run c s s2 _
          (Moves-Quiet run c s s1 s2 (free-Moves run c s refl refl was)
            (append_event-Quiet w c _ _ s1))
          (append_event-Quiet w c _ _ s2)),
  )

  pub finalize-Follows :
      IsStored run s
      → run.status ≡ RunStatus.cancelling
      → is_active run.attempt.status ≡ true
      → Follows s (finalize_cancellation w run t s)
  unfolding OnNode
  finalize-Follows at p q =
      let (e, moves) = finalize-Moves (rw p refl) (inl q) in
      subst (λ r. Follows s (r, (finalize_cancellation w run t s).1)) (sym e)
        (step_of-Moves run (cancelled run t) s _ at (Transition.cancel t p q) moves)

IsCoherent-OnNode : (run : Run) → IsCoherent run → terminal_run run.status ≡ false → OnNode run
unfolding OnNode terminal_run
IsCoherent-OnNode run c h = ground arith

module _ (w : World) (run : Run) (request : CancelRequest) (t : Time) (s : MemoryStorage) where
  noted : MemoryStorage
  noted =
      append_event w (cancel_requested run request t) "run.cancel_requested" (of_cancel request)
        (save_run (cancel_requested run request t) s)

  noted-Moves : Moves run (cancel_requested run request t) s noted
  unfolding noted holds
  noted-Moves =
      let run' = cancel_requested run request t in
      Moves-Quiet run run' s (save_run run' s) _ (save-Moves run run' s refl (λ m h. refl))
        (append_event-Quiet w run' _ _ (save_run run' s))

  drop-Follows :
      IsStored run s
      → IsCoherent run
      → terminal_run run.status ≡ false
      → run.cancel_requested_at ≡ none
      → run.attempt.status ≡ AttemptStatus.queued
      → Follows s (finalize_cancellation w (cancel_requested run request t) t noted)
  unfolding OnNode terminal_run holds
  drop-Follows at c live unasked q =
      let run' = cancel_requested run request t in
      let (e, moves) = finalize-Moves w run' t noted (ground arith) (inr (c.idle q).0) in
      subst (λ r. Follows s (r, (finalize_cancellation w run' t noted).1)) (sym e)
        (step_of-Moves run (cancelled run' t) s _ at (Transition.drop request t live unasked q) (
          Moves-trans run run' (cancelled run' t) s noted _ refl (λ m h. inl refl) noted-Moves
            moves))

  ask-Follows :
      IsStored run s
      → terminal_run run.status ≡ false
      → run.cancel_requested_at ≡ none
      → run.attempt.status ≢ AttemptStatus.queued
      → let cancelling = record (cancel_requested run request t) {
        status = RunStatus.cancelling;
      } in
        Follows s (cancelling, save_run cancelling noted)
  unfolding holds
  ask-Follows at live unasked q =
      let run' = cancel_requested run request t in
      let last = record run' { status = RunStatus.cancelling } in
      step_of-Moves run last s _ at (Transition.ask request t live unasked q) (
        Moves-trans run run' last s noted _ refl (λ m h. inl refl) noted-Moves
          (save-Moves run' last noted refl (λ m h. refl)))

  -- A cancellation is asked for once, and takes a queued run at once.
  pub cancel_run_locked-Follows :
      IsStored run s → IsCoherent run → Follows s (cancel_run_locked w run request t s)
  unfolding cancel_run_locked noted
  cancel_run_locked-Follows at c =
      elim (Bool-cases (terminal_run run.status || is_some run.cancel_requested_at)) [
        | inl e ↦ rw e (stay, at)
        | inr e ↦ elim (Bool-cases (in_state run.attempt.status AttemptStatus.queued)) [
          | inl q ↦ rw (e, q) (drop-Follows at c (ground arith) (ground arith) (ground arith))
          | inr q ↦ rw (e, q) (ask-Follows at (ground arith) (ground arith) (ground arith))
        ]
      ]
