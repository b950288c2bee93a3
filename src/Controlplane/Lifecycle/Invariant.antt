-- ===== src/Controlplane/Lifecycle/Invariant.antt =====
-- What holds of the stored runs, nodes and events between two methods, kept by every step.
use realy.Common.{
  ◌≡◌, ◌≢◌, ◌⊎◌, inl, inr, refl, sym, ap, ◌∙◌, String, Bool, true, false, none, some, is_some, ◌==◌,
  eq_iff, arith, subst, Bool-cases,
}
use realy.Common.Maps.{
  lookup, lookup_or, insert, total, lookup-insert, lookup-insert_cases, total-insert,
  total-insert_new,
}
use realy.Types.{Run, RunStatus, AttemptStatus}
use realy.Controlplane.State.{MemoryStorage, events_of, new_memory_storage}
use realy.Controlplane.Runs.{terminal_run}
use realy.Controlplane.Lifecycle.{
  is_active, Transition, active_of, holds, NumberedFrom, Logged, Quiet, Moves, IsFresh, Step, quiet,
  move, add, Steps, stay, more, Reach, here, next,
}
use realy.Controlplane.Lifecycle.Moving.{NumberedFrom-append}

-- The states of a run and of its attempt that go together. A cancelling run with a queued attempt
-- is among them: `authorize` makes it of a cancelling run whose leased attempt ran out.
abbrev pub paired : RunStatus → AttemptStatus → Bool
paired RunStatus.queued AttemptStatus.queued = true
paired RunStatus.queued AttemptStatus.leased = true
paired RunStatus.running AttemptStatus.running = true
paired RunStatus.cancelling AttemptStatus.queued = true
paired RunStatus.cancelling AttemptStatus.leased = true
paired RunStatus.cancelling AttemptStatus.running = true
paired RunStatus.cancelled AttemptStatus.cancelled = true
paired RunStatus.succeeded AttemptStatus.succeeded = true
paired RunStatus.failed AttemptStatus.failed = true
paired RunStatus.failed AttemptStatus.lost = true
paired _ _ = false

-- A queued attempt belongs to no node and has no lease.
abbrev pub IsIdle : Run → Type 0
IsIdle run =
    (run.attempt.node_id ≡ "")
    × (run.attempt.lease_token ≡ "")
    × (run.attempt.lease_expires_at ≡ none)

pub record IsCoherent (run : Run) : Type 0 where
  pub states : paired run.status run.attempt.status ≡ true
  pub idle : run.attempt.status ≡ AttemptStatus.queued → IsIdle run
  pub held : is_active run.attempt.status ≡ true → is_some run.attempt.lease_expires_at ≡ true
  pub asked : run.status ≡ RunStatus.cancelling → is_some run.cancel_requested_at ≡ true

-- A step keeps a run coherent.
pub Transition-IsCoherent :
    {run run' : Run} → Transition run run' → IsCoherent run → IsCoherent run'
unfolding terminal_run
Transition-IsCoherent (Transition.lease node token t p q) c = ground arith
Transition-IsCoherent (Transition.renew t p) c = ground arith
Transition-IsCoherent (Transition.requeue p) c = ground arith
Transition-IsCoherent (Transition.begin t p q) c = ground arith
Transition-IsCoherent (Transition.succeed result t p q) c = ground arith
Transition-IsCoherent (Transition.fail cause t p q) c = ground arith
Transition-IsCoherent (Transition.ask request t p q h) c = ground arith
Transition-IsCoherent (Transition.drop request t p q h) c = ground arith
Transition-IsCoherent (Transition.cancel t p q) c = ground arith
Transition-IsCoherent (Transition.exhaust t p q) c = ground arith
Transition-IsCoherent (Transition.retry id t p q) c = ground arith

IsFresh-IsCoherent : {run : Run} → IsFresh run → IsCoherent run
IsFresh-IsCoherent f = ground arith

-- No step leaves a terminal run.
pub Transition-terminal :
    {run run' : Run} → Transition run run' → IsCoherent run → terminal_run run.status ≡ false
unfolding terminal_run
Transition-terminal (Transition.lease node token t p q) c = ground arith
Transition-terminal (Transition.renew t p) c = ground arith
Transition-terminal (Transition.requeue p) c = ground arith
Transition-terminal (Transition.begin t p q) c = ground arith
Transition-terminal (Transition.succeed result t p q) c = ground arith
Transition-terminal (Transition.fail cause t p q) c = ground arith
Transition-terminal (Transition.ask request t p q h) c = ground arith
Transition-terminal (Transition.drop request t p q h) c = ground arith
Transition-terminal (Transition.cancel t p q) c = ground arith
Transition-terminal (Transition.exhaust t p q) c = ground arith
Transition-terminal (Transition.retry id t p q) c = ground arith

-- Nor a cancelling run whose attempt is queued.
pub Transition-stranded :
    {run run' : Run}
    → Transition run run'
    → IsCoherent run
    → run.status ≡ RunStatus.cancelling
    → run.attempt.status ≢ AttemptStatus.queued
Transition-stranded (Transition.lease node token t p q) c e = ground arith
Transition-stranded (Transition.renew t p) c e = ground arith
Transition-stranded (Transition.requeue p) c e = ground arith
Transition-stranded (Transition.begin t p q) c e = ground arith
Transition-stranded (Transition.succeed result t p q) c e = ground arith
Transition-stranded (Transition.fail cause t p q) c e = ground arith
Transition-stranded (Transition.ask request t p q h) c e = ground arith
Transition-stranded (Transition.drop request t p q h) c e = ground arith
Transition-stranded (Transition.cancel t p q) c e = ground arith
Transition-stranded (Transition.exhaust t p q) c e = ground arith
Transition-stranded (Transition.retry id t p q) c e = ground arith

pub Transition-id : {run run' : Run} → Transition run run' → run'.id ≡ run.id
Transition-id (Transition.lease node token t p q) = refl
Transition-id (Transition.renew t p) = refl
Transition-id (Transition.requeue p) = refl
Transition-id (Transition.begin t p q) = refl
Transition-id (Transition.succeed result t p q) = refl
Transition-id (Transition.fail cause t p q) = refl
Transition-id (Transition.ask request t p q h) = refl
Transition-id (Transition.drop request t p q h) = refl
Transition-id (Transition.cancel t p q) = refl
Transition-id (Transition.exhaust t p q) = refl
Transition-id (Transition.retry id t p q) = refl

pub record Inv (s : MemoryStorage) : Type 0 where
  pub keyed : (id : String) (run : Run) → lookup id s.runs ≡ some run → run.id ≡ id
  pub coherent : (id : String) (run : Run) → lookup id s.runs ≡ some run → IsCoherent run
  pub numbered : (id : String) → NumberedFrom 0 (events_of id s)
  -- a node's count is the number of runs whose attempt it works on
  pub balanced : (m : String) → m ≢ "" → active_of m s.nodes ≡ total (holds m) s.runs

pub new_memory_storage-Inv : Inv new_memory_storage
unfolding new_memory_storage lookup active_of total lookup_or
new_memory_storage-Inv = record {
  keyed = λ id run h. cc;
  coherent = λ id run h. cc;
  numbered = λ id. tt;
  balanced = λ m h. refl;
}

log-numbered :
    (s s' : MemoryStorage) → Inv s → Logged s s' → (id : String) → NumberedFrom 0 (events_of id s')
log-numbered s s' inv log id =
    let (new, e, n) = log id in
    subst (NumberedFrom 0) (sym e) (
      NumberedFrom-append 0 (events_of id s) new (inv.numbered id)
        (subst (λ k. NumberedFrom k new) (omega arith) n))

module _ {s s' : MemoryStorage} (inv : Inv s) where
  Quiet-Inv : Quiet s s' → Inv s'
  Quiet-Inv q = record {
    keyed = λ id run h. inv.keyed id run (rw (← q.runs) h);
    coherent = λ id run h. inv.coherent id run (rw (← q.runs) h);
    numbered = log-numbered s s' inv q.log;
    balanced = λ m h. rw q.runs (q.nodes m h ∙ inv.balanced m h);
  }

  move-Inv :
      (run run' : Run)
      → lookup run.id s.runs ≡ some run
      → Transition run run'
      → Moves run run' s s'
      → Inv s'
  move-Inv run run' at step moves = record {
    keyed = λ id r h. elim (lookup-insert_cases run.id id run' r s.runs (rw moves.runs at h)) [
      | inl (p, q) ↦ ap (λ (x : Run). x.id) (sym q) ∙ Transition-id step ∙ p
      | inr old ↦ inv.keyed id r old
    ];
    coherent = λ id r h. elim (lookup-insert_cases run.id id run' r s.runs (rw moves.runs at h)) [
      | inl (p, q) ↦ subst IsCoherent q (Transition-IsCoherent step (inv.coherent run.id run at))
      | inr old ↦ inv.coherent id r old
    ];
    numbered = log-numbered s s' inv moves.log;
    balanced = λ m h. rw moves.runs (
        omega (
          arith,
          moves.nodes m h,
          inv.balanced m h,
          total-insert (holds m) run.id run run' s.runs at,
        ));
  }

  add-Inv :
      (run : Run)
      → lookup run.id s.runs ≡ none
      → IsFresh run
      → s'.runs ≡ insert run.id run s.runs
      → ((m : String) → m ≢ "" → active_of m s'.nodes ≡ active_of m s.nodes)
      → Logged s s'
      → Inv s'
  unfolding holds
  add-Inv run at fresh runs nodes log = record {
    keyed = λ id r h. elim (lookup-insert_cases run.id id run r s.runs (rw runs at h)) [
      | inl (p, q) ↦ ap (λ (x : Run). x.id) (sym q) ∙ p
      | inr old ↦ inv.keyed id r old
    ];
    coherent = λ id r h. elim (lookup-insert_cases run.id id run r s.runs (rw runs at h)) [
      | inl (p, q) ↦ subst IsCoherent q (IsFresh-IsCoherent fresh)
      | inr old ↦ inv.coherent id r old
    ];
    numbered = log-numbered s s' inv log;
    balanced = λ m h. rw runs (
        ground
          (arith, nodes m h, inv.balanced m h, total-insert_new (holds m) run.id run s.runs at));
  }

-- A step keeps the invariant.
pub Step-Inv : {s s' : MemoryStorage} → Step s s' → Inv s → Inv s'
Step-Inv (quiet q) inv = Quiet-Inv inv q
Step-Inv (move run run' at step moves) inv = move-Inv inv run run' at step moves
Step-Inv (add run at fresh runs nodes log) inv = add-Inv inv run at fresh runs nodes log

pub Steps-Inv : {s s' : MemoryStorage} → Steps s s' → Inv s → Inv s'
Steps-Inv stay inv = inv
Steps-Inv (more steps step) inv = Step-Inv step (Steps-Inv steps inv)

pub Steps-append : {s s' s'' : MemoryStorage} → Steps s s' → Steps s' s'' → Steps s s''
Steps-append first stay = first
Steps-append first (more steps step) = more (Steps-append first steps) step

-- A stored run stays stored, and lives on by transitions.
abbrev pub LivesOn : String → Run → MemoryStorage → Type 0
LivesOn id run s = (run' : Run) × (lookup id s.runs ≡ some run') × Reach run run'

Step-LivesOn :
    {s s' : MemoryStorage} (id : String) (run : Run)
    → Inv s
    → Step s s'
    → lookup id s.runs ≡ some run
    → (run' : Run) × (lookup id s'.runs ≡ some run') × ((run' ≡ run) ⊎ Transition run run')
Step-LivesOn id run inv (quiet q) h = (run, rw q.runs h, inl refl)
Step-LivesOn {s} id run inv (move r r' at step moves) h = elim (Bool-cases (r.id == id)) [
  | inl e ↦ (
    r',
    rw (moves.runs, lookup-insert r.id id r' s.runs, e) refl,
    inr (subst (λ x. Transition x r') (ground (arith, eq_iff r.id id)) step),
  )
  | inr e ↦ (run, rw (moves.runs, lookup-insert r.id id r' s.runs, e) h, inl refl)
]
Step-LivesOn {s} id run inv (add r at fresh runs nodes log) h = elim (Bool-cases (r.id == id)) [
  | inl e ↦ absurd (ground (arith, eq_iff r.id id))
  | inr e ↦ (run, rw (runs, lookup-insert r.id id r s.runs, e) h, inl refl)
]

-- Every run that is stored stays stored, and what becomes of it is reached by transitions.
pub Steps-LivesOn :
    {s s' : MemoryStorage} (id : String) (run : Run)
    → Inv s
    → Steps s s'
    → lookup id s.runs ≡ some run
    → LivesOn id run s'
Steps-LivesOn id run inv stay h = (run, h, here)
Steps-LivesOn id run inv (more steps step) h =
    let (r, at, reach) = Steps-LivesOn id run inv steps h in
    let (r', at', change) = Step-LivesOn id r (Steps-Inv steps inv) step at in
    (r', at', elim change [ inl same ↦ subst (Reach run) (sym same) reach | inr t ↦ next reach t ])
