-- ===== src/Node/Outbox/Tests.antt =====
-- The outbox beside an in-memory control plane, for the running attempt of the fixture.
use mathlib.Core.List.{Memᴰ}
use realy.Common.{ℕ, ◌≡◌, ◌≤◌, refl, ◌⊎◌, String, true, none, some, [], ◌∷◌, arith, pos}
use realy.Common.Maps.{lookup}
use realy.Controlplane.Types.{ok, nil}
use realy.Controlplane.State.{MemoryStorage}
use realy.Controlplane.Fixture.{opened, world, request, run_id, assignment, started_state}
use realy.Common.Maps.{total}
use realy.Node.Delivery.{retry, retry_from, is_final, deliver_event}
use realy.Node.Outbox.{remove, erase}
use realy.Node.Plane.{ControlPlane}
use realy.Node.Local.{local_plane}
use realy.Node.Outbox.{
  PendingEvent, OutboxFile, Disk, OutboxOptions, sound, syncing, removable, save, pending_of,
  path_of, deliver,
}
use realy.Node.Outbox.Recovery.{recover, recover_entry, recover_record}
use realy.Node.Outbox.Kept.{used, save_fits}
use realy.Node.Outbox.Delivered.{IsAccounted, deliver-IsAccounted}
use realy.Node.Outbox.Recovered.{HasAnswer, recover_retains, recover_done}
use realy.Node.Outbox.Reread.{save_recover}

abbrev pending : PendingEvent
pending = record {
  assignment = record assignment { request = request };
  id = "1";
  kind = "progress";
  payload = "{}";
}

abbrev options : OutboxOptions
options = record {
  max_bytes = 1000;
  encode = λ p. some "record";
  decode = λ bytes. some pending;
  size_of = λ bytes. 10;
  blank = request;
}

abbrev plane : ControlPlane MemoryStorage
plane = local_plane world (run_id ∷ []) request (pos 1000)

abbrev file : OutboxFile
file = record { regular = true; size = 10; content = "record" }

abbrev disk : Disk
disk = ("a.json", file) ∷ []

abbrev took : ℕ → ℕ
took n = 1

abbrev place : String
place = path_of world options assignment "1"

fits : used disk ≤ 1000
unfolding used total
fits = omega arith

found : lookup "a.json" disk ≡ some file
unfolding lookup
found = refl

recovered :
    (recover world options plane took
      (λ _. none)
      (λ _. removable)
      ("a.json" ∷ [])
      disk
      started_state).0.0
    ≡ none
unfolding opened recover remove erase retry retry_from is_final deliver_event
recovered = refl

saved : (save world options sound assignment "1" "progress" nil disk).0 ≡ ok place
unfolding opened save
saved = refl

save_fits_example : used (save world options sound assignment "1" "progress" nil disk).1 ≤ 1000
save_fits_example = save_fits world options sound assignment "1" "progress" nil disk fits

deliver-IsAccounted_example :
    let (e, disk', s') =
      deliver world options plane took
        (syncing "full")
        removable
        assignment
        "1"
        "progress"
        nil
        disk
        started_state in
    IsAccounted world options plane took assignment "1" "progress" nil started_state e disk' s'
deliver-IsAccounted_example =
    deliver-IsAccounted world options plane took (syncing "full") removable assignment "1"
      "progress" nil disk started_state

recover_retains_example :
    (lookup "a.json"
        (recover world options plane took
          (λ _. none)
          (λ _. removable)
          ("a.json" ∷ [])
          disk
          started_state).1
      ≡ some file)
    ⊎ HasAnswer world options plane took file
recover_retains_example =
    recover_retains world options plane took (λ _. none) (λ _. removable) ("a.json" ∷ []) disk
      started_state "a.json" file found

recover_done_example :
    lookup "a.json"
      (recover world options plane took
        (λ _. none)
        (λ _. removable)
        ("a.json" ∷ [])
        disk
        started_state).1
    ≡ none
recover_done_example =
    recover_done world options plane took (λ _. none) (λ _. removable) ("a.json" ∷ []) disk
      started_state "a.json" recovered (Memᴰ.head refl)

save_recover_example :
    let saved = (save world options sound assignment "1" "progress" nil disk).1 in
    (payload : String) × (world.marshal nil ≡ some payload)
    × (recover_entry world options plane took none removable place saved started_state
        ≡ recover_record world options plane took removable place
            (some (pending_of world options assignment "1" "progress" payload))
            saved
            started_state)
save_recover_example =
    save_recover world options plane took sound removable assignment "1" "progress" place nil disk
      started_state (λ payload bytes m e. ground (arith, m)) saved
