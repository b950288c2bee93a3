-- ===== src/Controlplane/Lifecycle/Recording.antt =====
-- controlplane/memory.go: AppendEvent, AddArtifact, ReserveCapability, FinishCapability and the
-- methods of interactions change no run and only add to its events.
use realy.Common.{
  suc, ◌≡◌, inl, inr, refl, sym, ap, ◌∙◌, subst, String, not, ◌||◌, ◌&&◌, Option, none, some, List,
  [], ◌∷◌, ◌++◌, ◌==◌, eq_iff, length, arith, Bool-cases, Option-cases,
}
use realy.Common.Maps.{Map, lookup, lookup_or, insert, lookup-insert, lookup-insert_self}
use realy.Types.{Run, AttemptStatus, in_state, Event}
use realy.Controlplane.Types.{Assignment, Error, Payload, World, Result}
use realy.Controlplane.State.{MemoryStorage, append_event, events_of}
use realy.Controlplane.Runs.{authorize}
use realy.Controlplane.Lifecycle.{Quiet, Logged, Steps, quiet, stay, more}
use realy.Controlplane.Lifecycle.Invariant.{Inv}
use realy.Controlplane.Lifecycle.Moving.{Quiet-same, append_event-Quiet}
use realy.Controlplane.Lifecycle.Changes.{Quiet-step}
use realy.Controlplane.Lifecycle.Authorizing.{authorize-cases}
use realy.Controlplane.Lifecycle.Reporting.{with_run-Steps, of_authorized}
use realy.Controlplane.Reports.{
  name_last, report_event, same_or_refuse, append_run_event, append_event_call,
}
use realy.Controlplane.Identity.{event_identity, same_event}
use realy.Controlplane.Records.{
  add_run_artifact, add_artifact, reserve_run, reserve_capability, settle, finish_run,
  finish_capability, create_run_interaction, create_interaction, find_interaction, get_interaction,
  resolve_of, resolve_interaction,
}
use realy.Types.{Artifact, Interaction, InteractionRequest, CapabilityResult}
use realy.Controlplane.Types.{CapabilityReservation}
use realy.Common.Maps.{insert-insert}
use realy.Controlplane.State.{next_event}
use mathlib.Core.List.{append-nil}

name_last-append :
    (id : String) (old : List Event) (event : Event)
    → name_last id (old ++ event ∷ []) ≡ old ++ record event { id = id } ∷ []
unfolding name_last
name_last-append id [] event = refl
name_last-append id (x ∷ []) event = refl
name_last-append id (x ∷ y ∷ old) event =
    ap (λ (l : List Event). x ∷ l) (name_last-append id (y ∷ old) event)

events_of_insert :
    (id : String) (es : List Event) (m : Map (List Event)) → lookup_or [] id (insert id es m) ≡ es
unfolding lookup_or
events_of_insert id es m = rw (lookup-insert_self id es m, lookup_or)

insert-Logged :
    (s s' : MemoryStorage) (id : String) (event : Event)
    → event.sequence ≡ suc (length (events_of id s))
    → s'.events ≡ insert id (events_of id s ++ event ∷ []) s.events
    → Logged s s'
unfolding lookup_or
insert-Logged s s' id event number e j = elim (Bool-cases (id == j)) [
  | inl h ↦ (
    event ∷ [],
    ground (arith, eq_iff id j, e, lookup-insert id j (events_of id s ++ event ∷ []) s.events),
    (ground (arith, eq_iff id j), tt),
  )
  | inr h ↦ (
    [],
    ground (
      arith,
      e,
      lookup-insert id j (events_of id s ++ event ∷ []) s.events,
      append-nil (events_of j s),
    ),
    tt,
  )
]

module _ (w : World) (id kind : String) (value : Payload) (run : Run) (s : MemoryStorage) where
  named_events :
      let s' = append_event w run kind value s in
      insert run.id (name_last id (events_of run.id s')) s'.events
      ≡ insert run.id
          (events_of run.id s ++ record (next_event w run kind value s) { id = id } ∷ [])
          s.events
  unfolding append_event
  named_events =
      let old = events_of run.id s in
      let event = next_event w run kind value s in
      ap
        (λ (l : List Event).
          insert run.id (name_last id l) (insert run.id (old ++ event ∷ []) s.events))
        (events_of_insert run.id (old ++ event ∷ []) s.events)
      ∙ ap (λ (l : List Event). insert run.id l (insert run.id (old ++ event ∷ []) s.events))
          (name_last-append id old event)
      ∙ insert-insert run.id (old ++ event ∷ []) (old ++ record event { id = id } ∷ []) s.events

  -- Naming the new event keeps its place and its number.
  named-Quiet :
      let s' = append_event w run kind value s in
      Quiet s (record s' { events = insert run.id (name_last id (events_of run.id s')) s'.events })
  unfolding append_event
  named-Quiet =
      let s' = append_event w run kind value s in
      let named = record s' {
        events = insert run.id (name_last id (events_of run.id s')) s'.events;
      } in
      record {
        runs = refl;
        nodes = λ m h. refl;
        log =
            insert-Logged s named run.id (record (next_event w run kind value s) { id = id })
              (omega arith) named_events;
      }

  report_event-Steps : Steps s (report_event w run id kind value s).1
  unfolding report_event
  report_event-Steps = elim (Option-cases (w.marshal value)) [
    | inl e ↦ rw (e, report_event) stay
    | inr (bytes, e) ↦
        rw (e, report_event)
          (elim (Bool-cases (id == "")) [
            | inl x ↦ rw x (Quiet-step (append_event-Quiet w run kind value s))
            | inr x ↦ rw x (Quiet-step named-Quiet)
          ])
  ]

same_or_refuse_same : (e : Option Error) (s : MemoryStorage) → Steps s (same_or_refuse e s).1
unfolding same_or_refuse
same_or_refuse_same none s = stay
same_or_refuse_same (some e) s = stay

module _ (w : World) (id kind : String) (value : Payload) where
  append_found-Steps :
      (run : Run) (s : MemoryStorage) (previous : Option Event)
      → Steps s
          (elim previous as (λ _. Result (Unit {0}) × MemoryStorage) [
            | none ↦ report_event w run id kind value s
            | some event ↦ same_or_refuse (same_event w event.type_name event.payload kind value) s
          ]).1
  append_found-Steps run s none = report_event-Steps w id kind value run s
  append_found-Steps run s (some event) = same_or_refuse_same _ s

  append_run_event-Steps :
      (run : Run) (s : MemoryStorage) → Steps s (append_run_event w id kind value run s).1
  unfolding append_run_event
  append_run_event-Steps run s =
      elim (Bool-cases (not (in_state run.attempt.status AttemptStatus.running))) [
        | inl e ↦ rw e stay
        | inr e ↦ rw e (append_found-Steps run s _)
      ]

pub append_event_call-Steps :
    (w : World) (run_id attempt_id lease kind : String) (value : Payload) (id : Option String)
    (s : MemoryStorage)
    → Inv s
    → Steps s (append_event_call w run_id attempt_id lease kind value id s).1
unfolding append_event_call
append_event_call-Steps w run_id attempt_id lease kind value id s inv =
    with_run-Steps run_id attempt_id lease s (authorize w run_id attempt_id lease s)
      (append_run_event w (event_identity w attempt_id lease id) kind value) inv
      (authorize-cases w run_id attempt_id lease s inv)
      (λ run s' k. append_run_event-Steps w _ kind value run s')

module _ (w : World) where
  add_run_artifact-Steps :
      (artifact : Artifact) (run : Run) (s : MemoryStorage)
      → Steps s (add_run_artifact w artifact run s).1
  unfolding add_run_artifact
  add_run_artifact-Steps artifact run s =
      elim (Bool-cases (not (in_state run.attempt.status AttemptStatus.running))) [
        | inl e ↦ rw e stay
        | inr e ↦ rw e (
            more (Quiet-step (Quiet-same s _ refl refl refl))
              (quiet (append_event-Quiet w run _ _ _)))
      ]

  reserve_found-Steps :
      (a : Assignment) (key hash : String) (run : Run) (s : MemoryStorage)
      → Steps s (reserve_run w a key hash run s).1
  unfolding reserve_run
  reserve_found-Steps a key hash run s =
      Quiet-step (Quiet-same s _ (ground arith) (ground arith) (ground arith))

  finish_run-Steps :
      (reservation : CapabilityReservation) (result : CapabilityResult) (cause : String) (run : Run)
      (s : MemoryStorage)
      → Steps s (finish_run w reservation result cause run s).1
  unfolding finish_run
  finish_run-Steps reservation result cause run s =
      elim (Option-cases (settle reservation.call_id result cause s.capability_calls)) [
        | inl e ↦ rw (e, finish_run) stay
        | inr (calls, e) ↦
            rw (e, finish_run)
              (more
                (Quiet-step (Quiet-same s (record s { capability_calls = calls }) refl refl refl))
                (quiet (append_event-Quiet w run _ _ _)))
      ]

  create_run_interaction-Steps :
      (request : InteractionRequest) (run : Run) (s : MemoryStorage)
      → Steps s (create_run_interaction w request run s).1
  unfolding create_run_interaction
  create_run_interaction-Steps request run s =
      elim (Bool-cases (not (in_state run.attempt.status AttemptStatus.running))) [
        | inl e ↦ rw e stay
        | inr e ↦ rw e (
            more (Quiet-step (Quiet-same s _ refl refl refl))
              (quiet (append_event-Quiet w run _ _ _)))
      ]

  find_interaction_same :
      (a : Assignment) (id : String) (run : Run) (s : MemoryStorage)
      → (find_interaction a id run s).1 ≡ s
  unfolding find_interaction
  find_interaction_same a id run s = ground arith

module _ (w : World) (a : Assignment) (s : MemoryStorage) (inv : Inv s) where
  pub add_artifact-Steps : (artifact : Artifact) → Steps s (add_artifact w a artifact s).1
  unfolding add_artifact
  add_artifact-Steps artifact =
      of_authorized w a s inv (add_run_artifact w artifact)
        (λ run s' k. add_run_artifact-Steps w artifact run s')

  pub reserve_capability-Steps : (key hash : String) → Steps s (reserve_capability w a key hash s).1
  unfolding reserve_capability
  reserve_capability-Steps key hash =
      of_authorized w a s inv (reserve_run w a key hash)
        (λ run s' k. reserve_found-Steps w a key hash run s')

  pub finish_capability-Steps :
      (reservation : CapabilityReservation) (result : CapabilityResult) (cause : String)
      → Steps s (finish_capability w a reservation result cause s).1
  unfolding finish_capability
  finish_capability-Steps reservation result cause =
      of_authorized w a s inv (finish_run w reservation result cause)
        (λ run s' k. finish_run-Steps w reservation result cause run s')

  pub create_interaction-Steps :
      (request : InteractionRequest) → Steps s (create_interaction w a request s).1
  unfolding create_interaction
  create_interaction-Steps request =
      of_authorized w a s inv (create_run_interaction w request)
        (λ run s' k. create_run_interaction-Steps w request run s')

  pub get_interaction-Steps : (id : String) → Steps s (get_interaction w a id s).1
  unfolding get_interaction
  get_interaction-Steps id =
      of_authorized w a s inv (find_interaction a id)
        (λ run s' k. subst (Steps s') (sym (find_interaction_same w a id run s')) stay)

module _ (w : World) (id response tenant project : String) (s : MemoryStorage) where
  resolve_of-Steps :
      (value : Interaction) (run : Run)
      → Steps s (resolve_of w id value run response tenant project s).1
  unfolding resolve_of
  resolve_of-Steps value run =
      elim (Bool-cases (
        (not (tenant == "") && not (run.tenant_id == tenant))
        || (not (project == "") && not (run.project_id == project)))) [
          | inl e ↦ rw e stay
          | inr e ↦ elim (Bool-cases (not (value.state == "pending"))) [
            | inl p ↦ rw (e, p) stay
            | inr p ↦
                rw (e, p)
                  (more (Quiet-step (Quiet-same s _ refl refl refl))
                    (quiet (append_event-Quiet w run _ _ _)))
          ]
        ]

  pub resolve_interaction-Steps : Steps s (resolve_interaction w id response tenant project s).1
  unfolding resolve_interaction
  resolve_interaction-Steps = elim (Option-cases (lookup id s.interactions)) [
    | inl e ↦ rw (e, resolve_interaction) stay
    | inr (value, e) ↦ elim (Option-cases (lookup value.run_id s.runs)) [
      | inl f ↦ rw (e, resolve_interaction) (rw f stay)
      | inr (run, f) ↦ rw (e, resolve_interaction) (rw f (resolve_of-Steps value run))
    ]
  ]
