-- ===== src/Node/Outbox/Reread.antt =====
-- node/outbox.go: Recover reads what `save` wrote.
use realy.Node.Outbox.Kept.{save_ok}
use realy.Common.{ℕ, ◌≡◌, ap, ◌∙◌, String, none, some}
use realy.Common.Maps.{lookup, lookup-insert_self}
use realy.Controlplane.Types.{Assignment, ok, Payload, World}
use realy.Node.Plane.{ControlPlane}
use realy.Node.Outbox.{Disk, OutboxOptions, DiskFault, RemoveFault, file_of, save, pending_of}
use realy.Node.Outbox.Recovery.{recover_file, recover_record, recover_entry}

module _ {S : Type 0} (w : World) (options : OutboxOptions) (plane : ControlPlane S)
    (took : ℕ → ℕ) where
  -- What Recover makes of a file that `save` wrote is what it makes of the very event that was saved,
  -- with its assignment's IDs and lease, its ID, type and payload, if JSON decodes the record
  -- that it encodes.
  pub save_recover :
      (fault : DiskFault) (gone : RemoveFault) (a : Assignment) (id kind path : String)
      (value : Payload) (disk : Disk) (s : S)
      → ((payload bytes : String)
          → w.marshal value ≡ some payload
          → options.encode (pending_of w options a id kind payload) ≡ some bytes
          → options.decode bytes ≡ some (pending_of w options a id kind payload))
      → (save w options fault a id kind value disk).0 ≡ ok path
      → let saved = (save w options fault a id kind value disk).1 in
        (payload : String) × (w.marshal value ≡ some payload)
        × (recover_entry w options plane took none gone path saved s
            ≡ recover_record w options plane took gone path
                (some (pending_of w options a id kind payload))
                saved
                s)
  save_recover fault gone a id kind path value disk s json h =
      let (payload, m, saved) = save_ok w options fault a id kind path value disk h in
      let after = (save w options fault a id kind value disk).1 in
      let file = file_of w options saved.encoded in
      let found : lookup path after ≡ some file =
        ap (lookup path) saved.stored ∙ lookup-insert_self path file disk in
      (
        payload,
        m,
        ap (λ f. recover_file w options plane took gone path f after s) found
            ∙ rw saved.readable (
                ap (λ r. recover_record w options plane took gone path r after s)
                  (json payload saved.encoded m saved.is_encoded)),
      )
