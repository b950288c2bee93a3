-- ===== src/Node/Outbox.antt =====
-- node/outbox.go: the events that a node has not delivered yet, as files. `Disk` is the directory's
-- files with the suffix .json; a temporary file never outlives `save`. What can go wrong in the
-- file system is an argument of each method: where it happens, and the error's text.
pub mod Recovery
pub mod Kept
pub mod Delivered
pub mod Recovered
pub mod Reread
mod Tests
use realy.Common.{
  ℕ, ◌+◌, String, Bool, true, false, not, ◌||◌, Option, none, some, List, [], ◌∷◌, ◌++◌, ◌==◌, ltb,
  is_some, if◌then◌else◌, concat,
}
use realy.Common.Maps.{Map, lookup, insert, total}
use realy.Types.{Request}
use realy.Controlplane.Types.{
  Assignment, Error, other, run_cancelled, Result, ok, err, Payload, raw, World,
}
use realy.Controlplane.Identity.{event_identity}
use realy.Node.Plane.{ControlPlane}
use realy.Node.Delivery.{is_final, deliver_event}

pub record PendingEvent : Type 0 where
  pub assignment : Assignment
  pub id : String
  pub kind : String
  pub payload : String

pub record OutboxFile : Type 0 where
  pub regular : Bool
  pub size : ℕ
  pub content : String

abbrev pub Disk : Type 0
Disk = Map OutboxFile

-- Reading the directory or a file's state fails; writing or renaming fails; the directory's sync
-- fails, after the rename.
pub data DiskFault : Type 0 where
  sound : DiskFault
  reading writing syncing : (cause : String) → DiskFault

-- os.Remove fails, or the directory's sync after it.
pub data RemoveFault : Type 0 where
  removable : RemoveFault
  stuck unsynced : (cause : String) → RemoveFault

pub record OutboxOptions : Type 0 where
  pub max_bytes : ℕ
  pub encode : PendingEvent → Option String  -- json.Marshal
  pub decode : String → Option PendingEvent  -- json.Unmarshal
  pub size_of : String → ℕ  -- the number of a text's bytes
  pub blank : Request  -- Go's zero request

-- OpenOutbox's default; `none` is a limit that is not positive.
unfoldable pub outbox_limit : Option ℕ → ℕ
outbox_limit none = 67108864
outbox_limit (some limit) = limit

unfoldable pub erase : String → Disk → Disk
erase name [] = []
erase name ((key, file) ∷ rest) =
    let later = erase name rest in if key == name then later else (key, file) ∷ later

unfoldable pub remove : RemoveFault → String → Disk → Option Error × Disk
remove removable path disk = (none, erase path disk)
remove (stuck cause) path disk = (some (other cause), disk)
remove (unsynced cause) path disk = (some (other cause), erase path disk)

module _ (w : World) (options : OutboxOptions) where
  abbrev pub path_of : Assignment → String → String
  path_of a id = concat (event_identity w a.attempt_id a.lease_token (some id)) ".json"

  -- The file that holds a record.
  abbrev pub file_of : String → OutboxFile
  file_of encoded = record { regular = true; size = options.size_of encoded; content = encoded }

  abbrev pub write_file : DiskFault → String → String → Disk → Result String × Disk
  write_file sound path encoded disk = (ok path, insert path (file_of encoded) disk)
  write_file (reading cause) path encoded disk = (err (other cause), disk)
  write_file (writing cause) path encoded disk = (err (other cause), disk)
  write_file (syncing cause) path encoded disk =
      (err (other cause), insert path (file_of encoded) disk)

  abbrev pub is_reading : DiskFault → Bool
  is_reading (reading cause) = true
  is_reading _ = false

  abbrev pub save_encoded : DiskFault → String → Option String → Disk → Result String × Disk
  save_encoded fault path none disk = (err (other "json"), disk)
  save_encoded fault path (some encoded) disk =
      if ltb 2097152 (options.size_of encoded)
      then (err (other "outbox record exceeds 2 MiB"), disk)
      else (if is_reading fault
          then write_file fault path encoded disk
          else (if ltb options.max_bytes
                (options.size_of encoded + total (λ (f : OutboxFile). f.size) disk)
              then (err (other "relay node: outbox disk limit reached"), disk)
              else (if is_some (lookup path disk)
                  then (err (other "outbox event identity already exists"), disk)
                  else write_file fault path encoded disk)))

  -- The record that is stored has no request.
  abbrev pub pending_of : Assignment → String → String → String → PendingEvent
  pending_of a id kind payload = record {
    assignment = record a { request = options.blank };
    id = id;
    kind = kind;
    payload = payload;
  }

  abbrev pub save_payload :
      DiskFault → Assignment → String → String → Option String → Disk → Result String × Disk
  save_payload fault a id kind none disk = (err (other "json"), disk)
  save_payload fault a id kind (some payload) disk =
      if ltb 1048576 (options.size_of payload)
      then (err (other "event payload exceeds 1 MiB"), disk)
      else save_encoded fault (path_of a id) (options.encode (pending_of a id kind payload)) disk

  unfoldable pub save :
      DiskFault → Assignment → String → String → Payload → Disk → Result String × Disk
  save fault a id kind value disk = save_payload fault a id kind (w.marshal value) disk

  module _ {S : Type 0} (plane : ControlPlane S) (took : ℕ → ℕ) where
    -- One AppendEvent of the loop in deliverEvent.
    abbrev pub append_try : Assignment → String → String → String → ℕ → S → (Option Error × ℕ) × S
    append_try a id kind payload n s =
        let (answer, s') =
          plane.append_event a.run_id a.attempt_id a.lease_token kind (raw payload) (some id) s in
        ((answer, took n), s')

    abbrev pub after_delivery :
        RemoveFault → String → Option Error × S → Disk → Option Error × Disk × S
    after_delivery fault path (some e, s) disk = (some e, disk, s)
    after_delivery fault path (none, s) disk =
        let (e, disk') = remove fault path disk in (e, disk', s)

    abbrev pub after_save :
        RemoveFault
        → Assignment
        → String
        → String
        → Payload
        → Result String × Disk
        → S
        → Option Error × Disk × S
    after_save fault a id kind value (err e, disk) s = (some e, disk, s)
    after_save fault a id kind value (ok path, disk) s =
        after_delivery fault path (deliver_event w options.size_of (append_try a id kind) value s)
          disk

    abbrev pub deliver_frozen :
        DiskFault
        → RemoveFault
        → Assignment
        → String
        → String
        → Option String
        → Disk
        → S
        → Option Error × Disk × S
    deliver_frozen fault gone a id kind none disk s = (some (other "json"), disk, s)
    deliver_frozen fault gone a id kind (some frozen) disk s =
        after_save gone a id kind (raw frozen) (save fault a id kind (raw frozen) disk) s

    unfoldable pub deliver :
        DiskFault
        → RemoveFault
        → Assignment
        → String
        → String
        → Payload
        → Disk
        → S
        → Option Error × Disk × S
    deliver fault gone a id kind value disk s =
        deliver_frozen fault gone a id kind (w.marshal value) disk s
