-- ===== src/Node/Outbox/Kept.antt =====
-- node/outbox.go: which events are kept, and how much of the disk they take.
use realy.Common.{
  ℕ, ◌+◌, ◌≤◌, ◌≡◌, refl, sym, ap, subst, ◌∙◌, inl, inr, String, true, false, Option, none, some,
  arith, Bool-cases, Option-cases, ltb, is_some,
}
use realy.Common.Maps.{lookup, insert, total, total-insert_new}
use realy.Controlplane.Types.{Assignment, ok, Payload, World}
use realy.Node.Outbox.{
  is_reading, OutboxFile, Disk, OutboxOptions, DiskFault, sound, reading, writing, syncing, path_of,
  file_of, write_file, save_encoded, save_payload, save, pending_of,
}

abbrev size_of_file : OutboxFile → ℕ
size_of_file f = f.size

-- What is stored in all.
unfoldable pub used : Disk → ℕ
used disk = total size_of_file disk

module _ (w : World) (options : OutboxOptions) where
  used-write_file :
      (fault : DiskFault) (path encoded : String) (disk : Disk)
      → options.size_of encoded + used disk ≤ options.max_bytes
      → lookup path disk ≡ none
      → used (write_file w options fault path encoded disk).1 ≤ options.max_bytes
  unfolding used
  used-write_file sound path encoded disk fits new =
      omega (arith, fits, total-insert_new size_of_file path (file_of w options encoded) disk new)
  used-write_file (reading cause) path encoded disk fits new = omega (arith, fits)
  used-write_file (writing cause) path encoded disk fits new = omega (arith, fits)
  used-write_file (syncing cause) path encoded disk fits new =
      omega (arith, fits, total-insert_new size_of_file path (file_of w options encoded) disk new)

  used-is_reading :
      (fault : DiskFault) (path encoded : String) (disk : Disk)
      → is_reading w options fault ≡ true
      → used disk ≤ options.max_bytes
      → used (write_file w options fault path encoded disk).1 ≤ options.max_bytes
  used-is_reading (reading cause) path encoded disk e fits = fits
  used-is_reading sound path encoded disk e fits = ground (arith, e)
  used-is_reading (writing cause) path encoded disk e fits = ground (arith, e)
  used-is_reading (syncing cause) path encoded disk e fits = ground (arith, e)

  used-save_encoded :
      (fault : DiskFault) (path : String) (encoded : Option String) (disk : Disk)
      → used disk ≤ options.max_bytes
      → used (save_encoded w options fault path encoded disk).1 ≤ options.max_bytes
  unfolding used
  used-save_encoded fault path none disk fits = fits
  used-save_encoded fault path (some encoded) disk fits =
      let size = options.size_of encoded in
      elim (Bool-cases (ltb 2097152 size)) [
        | inl a ↦ rw a fits
        | inr a ↦ elim (Bool-cases (is_reading w options fault)) [
          | inl b ↦ rw a (rw b (used-is_reading fault path encoded disk b fits))
          | inr b ↦ elim (Bool-cases (ltb options.max_bytes (size + total size_of_file disk))) [
            | inl c ↦ rw a (rw b (rw c fits))
            | inr c ↦ elim (Option-cases (lookup path disk)) [
              | inl new ↦ rw a (
                  rw b (
                    rw c (
                      rw (ap is_some new)
                        (used-write_file fault path encoded disk (ground (arith, c)) new))))
              | inr (old, found) ↦ rw a (rw b (rw c (rw (ap is_some found) fits)))
            ]
          ]
        ]
      ]

  used-save_payload :
      (fault : DiskFault) (a : Assignment) (id kind : String) (payload : Option String)
      (disk : Disk)
      → used disk ≤ options.max_bytes
      → used (save_payload w options fault a id kind payload disk).1 ≤ options.max_bytes
  used-save_payload fault a id kind none disk fits = fits
  used-save_payload fault a id kind (some payload) disk fits =
      elim (Bool-cases (ltb 1048576 (options.size_of payload))) [
        | inl e ↦ rw e fits
        | inr e ↦ rw e (
            used-save_encoded fault (path_of w options a id)
              (options.encode (pending_of w options a id kind payload)) disk fits)
      ]

  -- Saving an event never takes the files of the outbox over its limit, whatever fails on the way.
  pub save_fits :
      (fault : DiskFault) (a : Assignment) (id kind : String) (value : Payload) (disk : Disk)
      → used disk ≤ options.max_bytes
      → used (save w options fault a id kind value disk).1 ≤ options.max_bytes
  unfolding save
  save_fits fault a id kind value disk fits =
      used-save_payload fault a id kind (w.marshal value) disk fits

  -- What a successful save has stored, and that it had room for it.
  pub record IsSaved (a : Assignment) (id kind payload path : String) (disk after : Disk)
      : Type 0 where
    pub encoded : String
    pub is_encoded : options.encode (pending_of w options a id kind payload) ≡ some encoded
    pub readable : ltb 2097152 (options.size_of encoded) ≡ false
    pub place : path ≡ path_of w options a id
    pub fresh : lookup path disk ≡ none
    pub stored : after ≡ insert path (file_of w options encoded) disk

  write_file_ok :
      (fault : DiskFault) (path path' encoded : String) (disk : Disk)
      → (write_file w options fault path encoded disk).0 ≡ ok path'
      → (path' ≡ path)
        × ((write_file w options fault path encoded disk).1
            ≡ insert path (file_of w options encoded) disk)
  write_file_ok sound path path' encoded disk h = (ground (arith, h), refl)
  write_file_ok (reading cause) path path' encoded disk h = ground (arith, h)
  write_file_ok (writing cause) path path' encoded disk h = ground (arith, h)
  write_file_ok (syncing cause) path path' encoded disk h = ground (arith, h)

  is_reading_fails :
      (fault : DiskFault) (path path' encoded : String) (disk : Disk)
      → is_reading w options fault ≡ true
      → ¬ ((write_file w options fault path encoded disk).0 ≡ ok path')
  is_reading_fails (reading cause) path path' encoded disk e h = ground (arith, h)
  is_reading_fails sound path path' encoded disk e h = ground (arith, e)
  is_reading_fails (writing cause) path path' encoded disk e h = ground (arith, e)
  is_reading_fails (syncing cause) path path' encoded disk e h = ground (arith, e)

  save_encoded_ok :
      (fault : DiskFault) (a : Assignment) (id kind payload path : String) (encoded : Option String)
      (disk : Disk)
      → options.encode (pending_of w options a id kind payload) ≡ encoded
      → (save_encoded w options fault (path_of w options a id) encoded disk).0 ≡ ok path
      → IsSaved a id kind payload path disk
          (save_encoded w options fault (path_of w options a id) encoded disk).1
  save_encoded_ok fault a id kind payload path none disk q h = ground (arith, h)
  save_encoded_ok fault a id kind payload path (some encoded) disk q h =
      let size = options.size_of encoded in
      let place = path_of w options a id in
      elim (Bool-cases (ltb 2097152 size)) [
        | inl e ↦ ground (arith, e, h)
        | inr e ↦ elim (Bool-cases (is_reading w options fault)) [
          | inl b ↦
              elim (is_reading_fails fault place path encoded disk b (ground (arith, e, b, h))) [ ]
          | inr b ↦ elim (Bool-cases (ltb options.max_bytes (size + total size_of_file disk))) [
            | inl c ↦ ground (arith, e, b, c, h)
            | inr c ↦ elim (Option-cases (lookup place disk)) [
              | inl new ↦
                  let n : is_some (lookup place disk) ≡ false = ap is_some new in
                  let (p, r) =
                    write_file_ok fault place path encoded disk (ground (arith, e, b, c, n, h)) in
                  rw e (
                    rw b (
                      rw c (
                        rw n (record {
                          encoded = encoded;
                          is_encoded = q;
                          readable = e;
                          place = p;
                          fresh = subst (λ x. lookup x disk ≡ none) (sym p) new;
                          stored = r ∙ ap (λ x. insert x (file_of w options encoded) disk) (sym p);
                        }))))
              | inr (old, found) ↦
                  let n : is_some (lookup place disk) ≡ true = ap is_some found in
                  ground (arith, e, b, c, n, h)
            ]
          ]
        ]
      ]

  save_payload_ok :
      (fault : DiskFault) (a : Assignment) (id kind path : String) (payload : Option String)
      (disk : Disk)
      → (save_payload w options fault a id kind payload disk).0 ≡ ok path
      → (bytes : String) × (payload ≡ some bytes)
        × IsSaved a id kind bytes path disk (save_payload w options fault a id kind payload disk).1
  save_payload_ok fault a id kind path none disk h = ground (arith, h)
  save_payload_ok fault a id kind path (some payload) disk h =
      elim (Bool-cases (ltb 1048576 (options.size_of payload))) [
        | inl e ↦ ground (arith, e, h)
        | inr e ↦ rw e (
          payload,
          refl,
          save_encoded_ok fault a id kind payload path
              (options.encode (pending_of w options a id kind payload)) disk refl
              (ground (arith, e, h)),
        )
      ]

  -- A save that gives a path has stored the event's record under it.
  pub save_ok :
      (fault : DiskFault) (a : Assignment) (id kind path : String) (value : Payload) (disk : Disk)
      → (save w options fault a id kind value disk).0 ≡ ok path
      → (bytes : String) × (w.marshal value ≡ some bytes)
        × IsSaved a id kind bytes path disk (save w options fault a id kind value disk).1
  unfolding save
  save_ok fault a id kind path value disk h =
      save_payload_ok fault a id kind path (w.marshal value) disk h
