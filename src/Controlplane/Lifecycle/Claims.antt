-- ===== src/Controlplane/Lifecycle/Claims.antt =====
-- controlplane/memory.go: Claim leases a stored run that is due and fits the node, and is a step of
-- the runs' lives on every branch.
use realy.Common.{
  ◌≡◌, inl, inr, refl, sym, ap, ◌∙◌, subst, String, true, not, Option, none, some, List, [], ◌∷◌,
  if◌then◌else◌, eq_iff, ℤ, le_nat, arith, Bool-cases, Option-cases,
}
use realy.Common.Maps.{lookup, lookup_or, insert, lookup-insert}
use realy.Types.{Time, Run, AttemptStatus, Request, add_duration}
use realy.Controlplane.Types.{Node, Assignment, not_found, World, Result, err}
use realy.Controlplane.State.{MemoryStorage, save_run, now, tick, new_id, draw}
use realy.Controlplane.Lifecycle.{Transition, active_of, holds, Moves, Steps, quiet, stay, more}
use realy.Controlplane.Lifecycle.Invariant.{Inv, Steps-append, Steps-Inv}
use realy.Controlplane.Lifecycle.Moving.{append_event-Quiet, Logged-refl}
use realy.Controlplane.Lifecycle.Changes.{IsStored, Quiet-step, tick-Quiet, step_of-Moves}
use realy.Controlplane.Lifecycle.Scheduling.{sweep-Steps}
use realy.Controlplane.Claiming.{
  sweep, is_claimable, leased_run, occupied, lease_run, pick, claim_swept, claim,
}
use realy.Controlplane.Matching.{node_matches}

-- What the second loop of Claim picks: a stored run that may be claimed now and fits the node.
pub record Picked (w : World) (node : Node) (t : Time) (blank : Request) (s : MemoryStorage)
    (run : Run) (request : Request) : Type 0 where
  pub id : String
  pub at : lookup id s.runs ≡ some run
  pub claimable : is_claimable run t ≡ true
  pub fits : node_matches w node request ≡ true
  pub request_of : request ≡ lookup_or blank run.id s.requests

module _ (w : World) (node : Node) (t : Time) (blank : Request) (s : MemoryStorage) where
  abbrev visited : Option Run → Option (Run × Request) → Option (Run × Request)
  visited none rest = rest
  visited (some run) rest =
      let request = lookup_or blank run.id s.requests in
      if not (is_claimable run t)
      then rest
      else (if not (node_matches w node request) then rest else some (run, request))

  visited-Picked :
      (id : String) (o : Option Run) (rest : Option (Run × Request)) (run : Run) (request : Request)
      → lookup id s.runs ≡ o
      → (rest ≡ some (run, request) → Picked w node t blank s run request)
      → visited o rest ≡ some (run, request)
      → Picked w node t blank s run request
  visited-Picked id none rest run request e go h = go h
  visited-Picked id (some r) rest run request e go h = elim (Bool-cases (is_claimable r t)) [
    | inr c ↦ go (ground (arith, h))
    | inl c ↦ elim (Bool-cases (node_matches w node (lookup_or blank r.id s.requests))) [
      | inr f ↦ go (ground (arith, h))
      | inl f ↦
          let p : ◌≡◌ {A = Option (Run × Request)} (some (r, lookup_or blank r.id s.requests))
              (some (run, request)) =
            ground (arith, h) in
          let q : r ≡ run = cc in
          let u : lookup_or blank r.id s.requests ≡ request = cc in
          record {
            id = id;
            at = e ∙ ap (λ (x : Run). some x) q;
            claimable = subst (λ x. is_claimable x t ≡ true) q c;
            fits = subst (λ x. node_matches w node x ≡ true) u f;
            request_of = sym u ∙ ap (λ (x : Run). lookup_or blank x.id s.requests) q;
          }
    ]
  ]

  pub pick-Picked :
      (ids : List String) (run : Run) (request : Request)
      → pick w node t ids blank s ≡ some (run, request)
      → Picked w node t blank s run request
  unfolding pick
  pick-Picked [] run request h = cc
  pick-Picked (id ∷ ids) run request h =
      visited-Picked id (lookup id s.runs) (pick w node t ids blank s) run request refl
        (pick-Picked ids run request) (ground (arith, h))

-- The run is put on the node and the node counts it.
lease-Moves :
    (run : Run) (node_id token : String) (node : Node) (t : Time) (s s' : MemoryStorage)
    → lookup node_id s.nodes ≡ some node
    → run.attempt.status ≡ AttemptStatus.queued
    → s'.runs ≡ insert run.id (leased_run run node_id token t) s.runs
    → s'.nodes ≡ insert node_id (occupied node) s.nodes
    → s'.events ≡ s.events
    → Moves run (leased_run run node_id token t) s s'
unfolding active_of holds
lease-Moves run node_id token node t s s' at q r n e = record {
  runs = r;
  nodes = λ m h.
      ground (arith, at, q, n, lookup-insert node_id m (occupied node) s.nodes, eq_iff node_id m);
  log = Logged-refl s s' e;
}

module _ (w : World) (node_id : String) (node : Node) (t : Time) (ttl : ℤ) (s : MemoryStorage) where
  lease_run-Steps :
      (run : Run) (request : Request)
      → lookup node_id s.nodes ≡ some node
      → IsStored run s
      → is_claimable run t ≡ true
      → Steps s (lease_run w run request node_id node t ttl s).1
  unfolding lease_run is_claimable
  lease_run-Steps run request found at due =
      let token = new_id w "lease" s in
      let run' = leased_run run node_id token (add_duration t ttl) in
      let s1 =
        save_run run' (record (draw w s) { nodes = insert node_id (occupied node) s.nodes }) in
      more
        (step_of-Moves run run' s s1 at
          (Transition.lease node_id token (add_duration t ttl) (ground arith) (ground arith))
          (lease-Moves run node_id token node (add_duration t ttl) s s1 found (ground arith) refl
            refl refl)).0
        (quiet (append_event-Quiet w run' "attempt.leased" _ s1))

  claim_swept-Steps :
      (order : List String) (blank : Request)
      → Inv s
      → lookup node_id s.nodes ≡ some node
      → Steps s (claim_swept w node_id node t ttl order blank s).1
  unfolding claim_swept
  claim_swept-Steps order blank inv found = elim (Option-cases (pick w node t order blank s)) [
    | inl e ↦ rw (e, claim_swept) stay
    | inr (picked, e) ↦
        rw (e, claim_swept)
          (let p = pick-Picked w node t blank s order picked.0 picked.1 e in
            lease_run-Steps picked.0 picked.1 found
              (ap (λ (k : String). lookup k s.runs) (inv.keyed p.id picked.0 p.at) ∙ p.at)
              p.claimable)
  ]

module _ (w : World) (order₁ order₂ : List String) (blank : Request) (node_id : String) (ttl : ℤ)
    (s : MemoryStorage) (inv : Inv s) where
  claim_found-Steps :
      (s' : MemoryStorage)
      → Steps s s'
      → Steps s
          (elim (lookup node_id s'.nodes) as (λ _. Result Assignment × MemoryStorage) [
            | none ↦ (err not_found, s')
            | some node' ↦ claim_swept w node_id node' (now w s) ttl order₂ blank s'
          ]).1
  claim_found-Steps s' steps = go (lookup node_id s'.nodes) refl
    where
      go :
          (o : Option Node)
          → lookup node_id s'.nodes ≡ o
          → Steps s
              (elim o as (λ _. Result Assignment × MemoryStorage) [
                | none ↦ (err not_found, s')
                | some node' ↦ claim_swept w node_id node' (now w s) ttl order₂ blank s'
              ]).1
      go none e = steps
      go (some node) e =
          Steps-append steps
            (claim_swept-Steps w node_id node (now w s) ttl s' order₂ blank (Steps-Inv steps inv) e)

  pub claim-Steps : Steps s (claim w order₁ order₂ blank node_id ttl s).1
  unfolding claim
  claim-Steps = elim (Option-cases (lookup node_id s.nodes)) [
    | inl e ↦ rw (e, claim) stay
    | inr (node, e) ↦
        rw (e, claim)
          (elim (Bool-cases (le_nat node.registration.capacity node.active)) [
            | inl full ↦ rw full stay
            | inr room ↦ rw room (
                let ticked = Quiet-step (tick-Quiet w s) in
                claim_found-Steps (sweep w order₁ (now w s) (tick w s)) (
                  Steps-append ticked
                    (sweep-Steps w (now w s) order₁ (tick w s) (Steps-Inv ticked inv))))
          ])
  ]
