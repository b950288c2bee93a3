-- ===== src/Controlplane/Lifecycle/Moving.antt =====
-- The shared steps of controlplane/memory.go as moves: appending an event, releasing a node and
-- writing a run, and how moves are put together.
use realy.Common.{
  ℕ, suc, ◌+◌, ◌-◌, ◌≡◌, ◌≢◌, ◌⊎◌, inl, inr, refl, sym, ap, ◌∙◌, subst, String, true, false, List,
  [], ◌∷◌, ◌++◌, if◌then◌else◌, ◌==◌, eq_iff, length, length-append, arith, Bool-cases,
  Option-cases,
}
use realy.Common.Maps.{Map, lookup, lookup_or, insert, lookup-insert, insert-insert}
use realy.Types.{Run, Event}
use realy.Controlplane.Types.{Payload, World}
use realy.Controlplane.State.{
  MemoryStorage, save_run, append_event, release_node, released, events_of, next_event,
}
use realy.Controlplane.Lifecycle.{is_active, active_of, holds, NumberedFrom, Logged, Quiet, Moves}
use mathlib.Core.List.{append-nil, append_assoc}

pub Logged-refl : (s s' : MemoryStorage) → s'.events ≡ s.events → Logged s s'
Logged-refl s s' e id =
    ([], ap (λ (m : Map (List Event)). lookup_or [] id m) e ∙ sym (append-nil (events_of id s)), tt)

pub NumberedFrom-append :
    (n : ℕ) (old new : List Event)
    → NumberedFrom n old
    → NumberedFrom (n + length old) new
    → NumberedFrom n (old ++ new)
NumberedFrom-append n [] new p q = subst (λ k. NumberedFrom k new) (omega arith) q
NumberedFrom-append n (event ∷ old) new p q =
    (p.0, NumberedFrom-append (suc n) old new p.1 (subst (λ k. NumberedFrom k new) (omega arith) q))

pub Logged-trans : (s s' s'' : MemoryStorage) → Logged s s' → Logged s' s'' → Logged s s''
Logged-trans s s' s'' first second id =
    let (old, e, p) = first id in
    let (new, f, q) = second id in
    (
      old ++ new,
      f ∙ ap (λ (l : List Event). l ++ new) e ∙ append_assoc (events_of id s) old new,
      NumberedFrom-append (length (events_of id s)) old new p
          (subst (λ k. NumberedFrom k new) (ap length e ∙ length-append (events_of id s) old) q),
    )

pub Quiet-trans : (s s' s'' : MemoryStorage) → Quiet s s' → Quiet s' s'' → Quiet s s''
Quiet-trans s s' s'' p q = record {
  runs = q.runs ∙ p.runs;
  nodes = λ m h. q.nodes m h ∙ p.nodes m h;
  log = Logged-trans s s' s'' p.log q.log;
}

-- Changes of the other fields alone.
pub Quiet-same :
    (s s' : MemoryStorage)
    → s'.runs ≡ s.runs
    → s'.nodes ≡ s.nodes
    → s'.events ≡ s.events
    → Quiet s s'
Quiet-same s s' r n e = record {
  runs = r;
  nodes = λ m h. ap (active_of m) n;
  log = Logged-refl s s' e;
}

module _ (w : World) where
  append_event-Logged :
      (run : Run) (kind : String) (value : Payload) (s : MemoryStorage)
      → Logged s (append_event w run kind value s)
  unfolding append_event lookup_or
  append_event-Logged run kind value s id = elim (Bool-cases (run.id == id)) [
    | inl e ↦ (
      next_event w run kind value s ∷ [],
      ground (
        arith,
        eq_iff run.id id,
        lookup-insert run.id id (events_of run.id s ++ next_event w run kind value s ∷ []) s.events,
      ),
      (ground (arith, eq_iff run.id id), tt),
    )
    | inr e ↦ (
      [],
      ground (
        arith,
        lookup-insert run.id id (events_of run.id s ++ next_event w run kind value s ∷ []) s.events,
        append-nil (events_of id s),
      ),
      tt,
    )
  ]

  pub append_event-Quiet :
      (run : Run) (kind : String) (value : Payload) (s : MemoryStorage)
      → Quiet s (append_event w run kind value s)
  unfolding append_event
  append_event-Quiet run kind value s = record {
    runs = refl;
    nodes = λ m h. refl;
    log = append_event-Logged run kind value s;
  }

pub release_node_runs : (n : String) (s : MemoryStorage) → (release_node n s).runs ≡ s.runs
unfolding release_node
release_node_runs n s = ground arith

pub release_node_events : (n : String) (s : MemoryStorage) → (release_node n s).events ≡ s.events
unfolding release_node
release_node_events n s = ground arith

-- Releasing takes one from the node's count, and nothing from another's.
pub active-release :
    (n m : String) (s : MemoryStorage)
    → active_of m (release_node n s).nodes ≡ active_of m s.nodes - (if n == m then 1 else 0)
unfolding release_node active_of
active-release n m s = elim (Option-cases (lookup n s.nodes)) [
  | inl e ↦ ground (arith, eq_iff n m)
  | inr (node, e) ↦ ground (arith, eq_iff n m, lookup-insert n m (released node) s.nodes)
]

-- Writing a run whose node is the same.
pub save-Moves :
    (run run' : Run) (s : MemoryStorage)
    → run'.id ≡ run.id
    → ((m : String) → m ≢ "" → holds m run' ≡ holds m run)
    → Moves run run' s (save_run run' s)
save-Moves run run' s same same_node = record {
  runs = ap (λ (k : String). insert k run' s.runs) same;
  nodes = λ m h. omega (arith, same_node m h);
  log = Logged-refl s (save_run run' s) refl;
}

-- Writing a run that gives its node back.
pub free-Moves :
    (run run' : Run) (s : MemoryStorage)
    → run'.id ≡ run.id
    → is_active run'.attempt.status ≡ false
    → (is_active run.attempt.status ≡ true) ⊎ (run.attempt.node_id ≡ "")
    → Moves run run' s (save_run run' (release_node run.attempt.node_id s))
unfolding holds
free-Moves run run' s same gone was = record {
  runs =
      ap (λ (k : String). insert k run' (release_node run.attempt.node_id s).runs) same
      ∙ ap (insert run.id run') (release_node_runs run.attempt.node_id s);
  nodes =
      λ m h. ground (arith, active-release run.attempt.node_id m s, eq_iff run.attempt.node_id m);
  log =
      Logged-refl s (save_run run' (release_node run.attempt.node_id s))
        (release_node_events run.attempt.node_id s);
}

pub Moves-Quiet :
    (run run' : Run) (s s' s'' : MemoryStorage)
    → Moves run run' s s'
    → Quiet s' s''
    → Moves run run' s s''
Moves-Quiet run run' s s' s'' moves q = record {
  runs = q.runs ∙ moves.runs;
  nodes = λ m h. q.nodes m h ∙ moves.nodes m h;
  log = Logged-trans s s' s'' moves.log q.log;
}

pub Quiet-Moves :
    (run run' : Run) (s s' s'' : MemoryStorage)
    → Quiet s s'
    → Moves run run' s' s''
    → Moves run run' s s''
Quiet-Moves run run' s s' s'' q moves = record {
  runs = moves.runs ∙ ap (λ (m : Map Run). insert run.id run' m) q.runs;
  nodes = λ m h. rw (← q.nodes m h) (moves.nodes m h);
  log = Logged-trans s s' s'' q.log moves.log;
}

-- Two writes of one run, of which one leaves it on its node.
pub Moves-trans :
    (run middle last : Run) (s s' s'' : MemoryStorage)
    → middle.id ≡ run.id
    → ((m : String) → m ≢ "" → (holds m middle ≡ holds m run) ⊎ (holds m last ≡ holds m middle))
    → Moves run middle s s'
    → Moves middle last s' s''
    → Moves run last s s''
Moves-trans run middle last s s' s'' same one p q = record {
  runs =
      q.runs
      ∙ ap (λ (m : Map Run). insert middle.id last m) p.runs
      ∙ ap (λ (k : String). insert k last (insert run.id middle s.runs)) same
      ∙ insert-insert run.id middle last s.runs;
  nodes = λ m h. omega (arith, one m h, p.nodes m h, q.nodes m h);
  log = Logged-trans s s' s'' p.log q.log;
}

release-save :
    (n : String) (run : Run) (s : MemoryStorage)
    → release_node n (save_run run s) ≡ save_run run (release_node n s)
unfolding release_node
release-save n run s = ground arith

pub save_free-Moves :
    (run run' : Run) (s : MemoryStorage)
    → run'.id ≡ run.id
    → is_active run'.attempt.status ≡ false
    → (is_active run.attempt.status ≡ true) ⊎ (run.attempt.node_id ≡ "")
    → Moves run run' s (release_node run.attempt.node_id (save_run run' s))
save_free-Moves run run' s same gone was =
    subst (Moves run run' s) (sym (release-save run.attempt.node_id run' s))
      (free-Moves run run' s same gone was)
