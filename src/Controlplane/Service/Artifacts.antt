-- ===== src/Controlplane/Service/Artifacts.antt =====
-- controlplane/service.go: UploadArtifact and OpenArtifact over a MemoryBlobStore. `id` is the drawn
-- artifact ID and `size_of` the number of a text's bytes.
use realy.Common.{◌≡◌, refl, ℕ, String, Option, none, some, ◌⊎◌, inl, inr, concat}
use realy.Common.Maps.{Map, lookup, insert, lookup-insert_self}
use realy.Types.{Artifact}
use realy.Controlplane.Types.{Assignment, Error, Result, ok, err, other, World}
use realy.Controlplane.Access.{AccessScope}
use realy.Controlplane.Blobs.{put_blob, open_blob, delete_blob, lookup-remove}
use realy.Controlplane.Service.{Storage}
use realy.Controlplane.Service

abbrev pub uploaded : World → (String → ℕ) → String → Assignment → Artifact → String → Artifact
uploaded w size_of id a artifact bytes = record artifact {
  id = id;
  run_id = a.run_id;
  ref = concat "/v1/artifacts/" id;
  size = size_of bytes;
  sha256 = w.sha256_hex bytes;
}

-- What an upload makes of the bytes and of the artifact that the worker describes.
pub record IsDescribed (w : World) (size_of : String → ℕ) (id : String) (a : Assignment)
    (given : Artifact) (bytes : String) (artifact : Artifact) : Type 0 where
  pub of_id : artifact.id ≡ id
  pub of_run : artifact.run_id ≡ a.run_id
  pub of_type : artifact.type_name ≡ given.type_name
  pub of_ref : artifact.ref ≡ concat "/v1/artifacts/" id
  pub of_name : artifact.name ≡ given.name
  pub of_content : artifact.content_type ≡ given.content_type
  pub of_size : artifact.size ≡ size_of bytes
  pub of_digest : artifact.sha256 ≡ w.sha256_hex bytes

module _ {S : Type 0} (storage : Storage S) where
  -- A refused artifact's blob is deleted again, whatever Delete answers.
  abbrev pub after_add :
      Artifact → Result (Unit {0}) × S → Map String → Result Artifact × S × Map String
  after_add artifact (ok _, s) values = (ok artifact, s, values)
  after_add artifact (err e, s) values = (err e, s, (delete_blob artifact.id values).1)

  unfoldable pub upload_artifact :
      World
      → (String → ℕ)
      → String
      → Assignment
      → Artifact
      → String ⊎ String
      → S
      → Map String
      → Result Artifact × S × Map String
  upload_artifact w size_of id a given (inl cause) s values =
      (err (other cause), s, (put_blob id (inl cause) values).1)
  upload_artifact w size_of id a given (inr bytes) s values =
      let artifact = uploaded w size_of id a given bytes in
      after_add artifact (storage.add_artifact a artifact s) (put_blob id (inr bytes) values).1

  abbrev pub with_bytes : Artifact → Result String → Result (Artifact × String)
  with_bytes metadata (err e) = err e
  with_bytes metadata (ok bytes) = ok (metadata, bytes)

  abbrev pub open_found :
      Option AccessScope → String → Result Artifact → S → Map String → Result (Artifact × String)
  open_found scope id (err e) s values = err e
  open_found scope id (ok metadata) s values =
      Service.after_run (Service.get_run storage scope metadata.run_id s)
        (with_bytes metadata (open_blob id values))

  unfoldable pub open_artifact :
      Option AccessScope → String → S → Map String → Result (Artifact × String)
  open_artifact scope id s values = open_found scope id (storage.artifact id s) s values

  -- How an upload ends, with the storage's answer for the artifact.
  IsUpload : Assignment → Artifact → String → S → Result Artifact × S × Map String → Type 0
  IsUpload a artifact bytes s after =
      ((storage.add_artifact a artifact s ≡ (ok tt, after.1))
        × (after.0 ≡ ok artifact)
        × (lookup artifact.id after.2 ≡ some bytes))
      ⊎ ((e : Error) × (storage.add_artifact a artifact s ≡ (err e, after.1))
          × (after.0 ≡ err e)
          × (lookup artifact.id after.2 ≡ none))

  after_add-IsUpload :
      (a : Assignment) (artifact : Artifact) (bytes : String) (s : S)
      (added : Result (Unit {0}) × S) (values : Map String)
      → storage.add_artifact a artifact s ≡ added
      → lookup artifact.id values ≡ some bytes
      → IsUpload a artifact bytes s (after_add artifact added values)
  unfolding delete_blob IsUpload
  after_add-IsUpload a artifact bytes s (ok _, s') values answer h = inl (answer, refl, h)
  after_add-IsUpload a artifact bytes s (err e, s') values answer h =
      inr (e, answer, refl, rw h (lookup-remove artifact.id values))

  -- An upload whose bytes can be read makes an artifact of the drawn ID, the assignment's run, the
  -- type, name and content type that the worker gave, the reference of the ID, and the bytes' size
  -- and digest. It ends with this artifact, where the storage took it, and these bytes stored under
  -- the ID; or with the error with which the storage refused it, and no bytes stored under the ID.
  pub upload_ends :
      (w : World) (size_of : String → ℕ) (id : String) (a : Assignment) (given : Artifact)
      (bytes : String) (s : S) (values : Map String)
      → let after = upload_artifact w size_of id a given (inr bytes) s values in
        (artifact : Artifact) × IsDescribed w size_of id a given bytes artifact
        × (((storage.add_artifact a artifact s ≡ (ok tt, after.1))
              × (after.0 ≡ ok artifact)
              × (lookup id after.2 ≡ some bytes))
            ⊎ ((e : Error) × (storage.add_artifact a artifact s ≡ (err e, after.1))
                × (after.0 ≡ err e)
                × (lookup id after.2 ≡ none)))
  unfolding upload_artifact put_blob IsUpload
  upload_ends w size_of id a given bytes s values =
      let artifact = uploaded w size_of id a given bytes in
      (
        artifact,
        record {
          of_id = refl;
          of_run = refl;
          of_type = refl;
          of_ref = refl;
          of_name = refl;
          of_content = refl;
          of_size = refl;
          of_digest = refl;
        },
        after_add-IsUpload a artifact bytes s (storage.add_artifact a artifact s)
            (insert id bytes values) refl (lookup-insert_self id bytes values),
      )
