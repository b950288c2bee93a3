-- ===== src/Node/Outbox/Recovery.antt =====
-- node/outbox.go: Recover, which runs before any work is claimed. `order` is the directory's names
-- with the suffix .json as ReadDir lists them; `trouble` is what stops the node at a file before
-- its record is read: a cancelled context, or an error of Info or ReadFile.
use realy.Common.{
  ℕ, String, Bool, true, false, not, ◌||◌, Option, none, some, List, [], ◌∷◌, ◌==◌, ltb,
  if◌then◌else◌, concat,
}
use realy.Common.Maps.{lookup}
use realy.Controlplane.Types.{Assignment, Error, other, run_cancelled, raw, World}
use realy.Node.Plane.{ControlPlane}
use realy.Node.Delivery.{is_final, deliver_event}
use realy.Node.Outbox.{
  PendingEvent, OutboxFile, Disk, OutboxOptions, RemoveFault, remove, append_try,
}

abbrev pub is_run_cancelled : Error → Bool
is_run_cancelled run_cancelled = true
is_run_cancelled _ = false

abbrev pub is_incomplete : PendingEvent → Bool
is_incomplete p =
    p.assignment.run_id == ""
    || (p.assignment.attempt_id == ""
        || (p.assignment.lease_token == "" || (p.id == "" || p.kind == "")))

abbrev pub interrupted : String
interrupted = "Node restarted: pending events recovered, runtime execution was interrupted"

-- What a round over one file gives: the error that ends Recover, or what is reported of the file.
pub data Round (S : Type 0) : Type 0 where
  stopped : Error → Disk → S → Round S
  resolved : (reason : String) → Disk → S → Round S

module _ {S : Type 0} (w : World) (options : OutboxOptions) (plane : ControlPlane S)
    (took : ℕ → ℕ) where
  -- What follows the delivery: the run is failed, its cancellation is acknowledged, or a stale event
  -- is given up.
  abbrev pub conclude : Assignment → Option Error × S → (Option Error × String) × S
  conclude a (none, s) =
      let (e, s') = plane.fail a interrupted s in ((e, "replayed; runtime was interrupted"), s')
  conclude a (some e, s) =
      let (acknowledged, s') = plane.acknowledge_cancellation a s in
      if is_run_cancelled e
      then ((acknowledged, "cancellation acknowledged"), s')
      else (if is_final e
          then ((some e, "discarded: lease invalid or attempt no longer running"), s)
          else ((some e, "replayed; runtime was interrupted"), s))

  abbrev pub after_remove : String → Option Error × Disk → S → Round S
  after_remove reason (some e, disk) s = stopped e disk s
  after_remove reason (none, disk) s = resolved reason disk s

  abbrev pub after_conclude : RemoveFault → String → (Option Error × String) × S → Disk → Round S
  after_conclude gone name ((none, reason), s) disk = after_remove reason (remove gone name disk) s
  after_conclude gone name ((some e, reason), s) disk =
      if is_final e then after_remove reason (remove gone name disk) s else stopped e disk s

  abbrev pub delivery_of : PendingEvent → S → Option Error × S
  delivery_of p s =
      deliver_event w options.size_of (append_try w options plane took p.assignment p.id p.kind)
        (raw p.payload) s

  abbrev pub recover_record : RemoveFault → String → Option PendingEvent → Disk → S → Round S
  recover_record gone name none disk s = stopped (other (concat "outbox record " name)) disk s
  recover_record gone name (some p) disk s =
      if is_incomplete p
      then stopped (other (concat "incomplete outbox record " name)) disk s
      else after_conclude gone name (conclude p.assignment (delivery_of p s)) disk

  abbrev pub recover_file : RemoveFault → String → Option OutboxFile → Disk → S → Round S
  recover_file gone name none disk s = stopped (other "file does not exist") disk s
  recover_file gone name (some file) disk s =
      if not file.regular || ltb 2097152 file.size
      then stopped (other (concat "invalid outbox record " name)) disk s
      else recover_record gone name (options.decode file.content) disk s

  abbrev pub recover_entry : Option String → RemoveFault → String → Disk → S → Round S
  recover_entry (some cause) gone name disk s = stopped (other cause) disk s
  recover_entry none gone name disk s = recover_file gone name (lookup name disk) disk s

  -- The error, what was reported of the files, and the state after the loop.
  abbrev pub continue_with :
      Round S
      → (Disk → S → (Option Error × List String) × Disk × S)
      → (Option Error × List String) × Disk × S
  continue_with (stopped e disk s) next = ((some e, []), disk, s)
  continue_with (resolved reason disk s) next =
      let ((e, reasons), disk', s') = next disk s in ((e, reason ∷ reasons), disk', s')

  unfoldable pub recover :
      (trouble : String → Option String)
      → (gone : String → RemoveFault) → (order : List String) → Disk
      → S
      → (Option Error × List String) × Disk × S
  recover trouble gone [] disk s = ((none, []), disk, s)
  recover trouble gone (name ∷ order) disk s =
      continue_with (recover_entry (trouble name) (gone name) name disk s)
        (λ disk' s'. recover trouble gone order disk' s')
