-- ===== src/Node/Outbox/Delivered.antt =====
-- node/outbox.go: an event is on the disk until the control plane has answered for it.
use realy.Common.{
  sym, inr, inl, ltb, Bool-cases, ℕ, ◌≡◌, refl, ap, subst, ◌∙◌, String, Option, none, some, [], ◌∷◌,
  arith, eq_iff, ◌==◌, if◌then◌else◌,
}
use realy.Common.Maps.{lookup, insert, lookup-insert_self}
use realy.Controlplane.Types.{Assignment, Error, Result, ok, err, Payload, World, raw}
use realy.Node.Plane.{ControlPlane}
use realy.Node.Delivery.{deliver_event, deliver_payload}
use realy.Node.Outbox.{
  PendingEvent, Disk, OutboxOptions, DiskFault, RemoveFault, erase, path_of, file_of, save,
  pending_of, deliver, after_save, after_delivery, append_try, deliver_frozen,
}
use realy.Node.Retrying.{retry_ends, accepted_report}
use realy.Node.Outbox.Kept.{IsSaved, save_ok}

pub lookup-erase :
    (name asked : String) (disk : Disk)
    → lookup asked (erase name disk) ≡ (if name == asked then none else lookup asked disk)
unfolding erase lookup
lookup-erase name asked [] = ground arith
lookup-erase name asked ((key, file) ∷ rest) =
    ground
      (arith, lookup-erase name asked rest, eq_iff key name, eq_iff key asked, eq_iff name asked)

-- A record of an event of an assignment.
pub record IsRecord (a : Assignment) (id kind payload : String) (pending : PendingEvent)
    : Type 0 where
  pub of_run : pending.assignment.run_id ≡ a.run_id
  pub of_attempt : pending.assignment.attempt_id ≡ a.attempt_id
  pub of_token : pending.assignment.lease_token ≡ a.lease_token
  pub of_id : pending.id ≡ id
  pub of_kind : pending.kind ≡ kind
  pub of_payload : pending.payload ≡ payload

module _ (w : World) (options : OutboxOptions) where
  -- An event's record on the disk, under the event's own name.
  pub IsKept : Assignment → String → String → String → Disk → Type 0
  IsKept a id kind payload disk =
      (pending : PendingEvent) × IsRecord a id kind payload pending
      × (encoded : String) × (options.encode pending ≡ some encoded)
      × (lookup (path_of w options a id) disk ≡ some (file_of w options encoded))

  -- The JSON text of an event's payload, which is encoded before it is saved.
  pub IsPayload : Payload → String → Type 0
  IsPayload value payload =
      (frozen : String) × (w.marshal value ≡ some frozen) × (w.marshal (raw frozen) ≡ some payload)

  IsSaved-IsKept :
      (a : Assignment) (id kind payload path : String) (disk after : Disk)
      → IsSaved w options a id kind payload path disk after
      → IsKept a id kind payload after
  unfolding IsKept
  IsSaved-IsKept a id kind payload path disk after saved = (
    pending_of w options a id kind payload,
    record {
      of_run = refl;
      of_attempt = refl;
      of_token = refl;
      of_id = refl;
      of_kind = refl;
      of_payload = refl;
    },
    saved.encoded,
    saved.is_encoded,
    ap (lookup (path_of w options a id)) saved.stored
        ∙ subst
            (λ p.
              lookup p (insert path (file_of w options saved.encoded) disk)
              ≡ some (file_of w options saved.encoded))
            saved.place (lookup-insert_self path (file_of w options saved.encoded) disk),
  )

  module _ {S : Type 0} (plane : ControlPlane S) (took : ℕ → ℕ) where
    -- What has become of an event, by the answer to the one who handed it over: an error, and nothing
    -- was sent, or its record is on the disk; or the control plane took the event.
    pub data IsAccounted (a : Assignment) (id kind : String) (value : Payload) (before : S)
        (answer : Option Error) (disk : Disk) (s : S) : Type 0 where
      unsent :
          {f : Error}
          → answer ≡ some f
          → s ≡ before
          → IsAccounted a id kind value before answer disk s
      kept :
          {f : Error} (payload : String)
          → answer ≡ some f
          → IsPayload value payload
          → IsKept a id kind payload disk
          → IsAccounted a id kind value before answer disk s
      taken :
          (payload : String) (t : S)
          → IsPayload value payload
          → plane.append_event a.run_id a.attempt_id a.lease_token kind (raw payload) (some id) t
            ≡ (none, s)
          → IsAccounted a id kind value before answer disk s

    -- An answer's two parts.
    answer_of :
        (answer : Option Error × S) (s' : S) → answer.0 ≡ none → s' ≡ answer.1 → answer ≡ (none, s')
    answer_of (e, x) s' p q = rw (p, sym q) refl

    delivered_payload :
        (a : Assignment) (id kind payload : String) (marshalled : Option String) (s s' : S)
        → marshalled ≡ some payload
        → deliver_payload options.size_of marshalled (append_try w options plane took a id kind) s
          ≡ (none, s')
        → (t : S) × (plane.append_event a.run_id a.attempt_id a.lease_token kind
              (raw payload)
              (some id)
              t
            ≡ (none, s'))
    delivered_payload a id kind payload none s s' m h = ground (arith, m)
    delivered_payload a id kind payload (some text) s s' m h =
        let append = append_try w options plane took a id kind payload in
        let (v, after, ends, tries) = retry_ends 5000 append s in
        let same : text ≡ payload = ground (arith, m) in
        elim (Bool-cases (ltb 1048576 (options.size_of text))) [
          | inl e ↦ ground (arith, ap (λ r. r.0) (rw e at h))
          | inr e ↦
              let h' = rw ends at (rw same at (rw e at h)) in
              let (m, t, accepted, last) =
                accepted_report 5000 append 0 100 0 s after v tries (ap (λ r. r.0) h') in
              (t, answer_of _ s' accepted (sym (ap (λ r. r.1) h') ∙ last))
        ]

    after_delivery-IsAccounted :
        (gone : RemoveFault) (a : Assignment) (id kind payload path frozen : String)
        (value : Payload) (disk : Disk) (s : S) (answer : Option Error × S)
        → w.marshal value ≡ some frozen
        → w.marshal (raw frozen) ≡ some payload
        → deliver_event w options.size_of (append_try w options plane took a id kind) (raw frozen) s
          ≡ answer
        → IsKept a id kind payload disk
        → let (e, disk', s') = after_delivery w options plane took gone path answer disk in
          IsAccounted a id kind value s e disk' s'
    unfolding deliver_event IsPayload
    after_delivery-IsAccounted gone a id kind payload path frozen value disk s (some e, s') m m' h
          held =
        IsAccounted.kept payload refl (frozen, m, m') held
    after_delivery-IsAccounted gone a id kind payload path frozen value disk s (none, s') m m' h
          held =
        let (t, took_it) = delivered_payload a id kind payload (w.marshal (raw frozen)) s s' m' h in
        IsAccounted.taken payload t (frozen, m, m') took_it

    after_save-IsAccounted :
        (gone : RemoveFault) (a : Assignment) (id kind frozen : String) (value : Payload)
        (saved : Result String × Disk) (s : S)
        → w.marshal value ≡ some frozen
        → ((path : String)
            → saved.0 ≡ ok path
            → (payload : String) × (w.marshal (raw frozen) ≡ some payload)
              × IsKept a id kind payload saved.1)
        → let (e, disk', s') =
            after_save w options plane took gone a id kind (raw frozen) saved s in
          IsAccounted a id kind value s e disk' s'
    after_save-IsAccounted gone a id kind frozen value (err e, disk) s m h =
        IsAccounted.unsent refl refl
    after_save-IsAccounted gone a id kind frozen value (ok path, disk) s m h =
        let (payload, m', held) = h path refl in
        after_delivery-IsAccounted gone a id kind payload path frozen value disk s
          (deliver_event w options.size_of (append_try w options plane took a id kind) (raw frozen)
            s)
          m m' refl held

    deliver_frozen-IsAccounted :
        (fault : DiskFault) (gone : RemoveFault) (a : Assignment) (id kind : String)
        (value : Payload) (frozen : Option String) (disk : Disk) (s : S)
        → w.marshal value ≡ frozen
        → let (e, disk', s') =
            deliver_frozen w options plane took fault gone a id kind frozen disk s in
          IsAccounted a id kind value s e disk' s'
    deliver_frozen-IsAccounted fault gone a id kind value none disk s m =
        IsAccounted.unsent refl refl
    deliver_frozen-IsAccounted fault gone a id kind value (some frozen) disk s m =
        after_save-IsAccounted gone a id kind frozen value
          (save w options fault a id kind (raw frozen) disk) s m
          (λ path h.
            let (payload, m', saved) = save_ok w options fault a id kind path (raw frozen) disk h in
            (payload, m', IsSaved-IsKept a id kind payload path disk _ saved))

    -- Whatever fails, an event that is handed to the outbox ends in one of three ways: an error is
    -- answered and nothing was sent to the control plane; an error is answered and the record of this
    -- event, with its payload, is on the disk under the event's name; or the control plane's last
    -- answer took this event, with its ID, kind and payload, under the assignment's lease.
    pub deliver-IsAccounted :
        (fault : DiskFault) (gone : RemoveFault) (a : Assignment) (id kind : String)
        (value : Payload) (disk : Disk) (s : S)
        → let (e, disk', s') = deliver w options plane took fault gone a id kind value disk s in
          IsAccounted a id kind value s e disk' s'
    unfolding deliver
    deliver-IsAccounted fault gone a id kind value disk s =
        deliver_frozen-IsAccounted fault gone a id kind value (w.marshal value) disk s refl
