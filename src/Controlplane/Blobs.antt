-- ===== src/Controlplane/Blobs.antt =====
-- controlplane/blob.go: the MemoryBlobStore. A reader is what io.ReadAll gives of it: bytes, or the
-- text of an error.
use realy.Common.{
  ◌≡◌, refl, String, Option, none, some, [], ◌∷◌, ◌==◌, ◌⊎◌, inl, inr, if◌then◌else◌, Bool-cases,
}
use realy.Common.Maps.{Map, lookup, insert}
use realy.Controlplane.Types.{Result, ok, err, not_found, other, Error}

-- `delete(values, key)`
unfoldable pub remove : String → Map String → Map String
remove key [] = []
remove key ((name, value) ∷ rest) =
    let later = remove key rest in if name == key then later else (name, value) ∷ later

abbrev pub stored_bytes : Option String → Result String
stored_bytes none = err not_found
stored_bytes (some bytes) = ok bytes

unfoldable pub put_blob : String → String ⊎ String → Map String → Option String × Map String
put_blob key (inl cause) values = (some cause, values)
put_blob key (inr bytes) values = (none, insert key bytes values)

unfoldable pub open_blob : String → Map String → Result String
open_blob key values = stored_bytes (lookup key values)

abbrev pub removed : String → Option String → Map String → Option Error × Map String
removed key none values = (some (other "relay blob: not found"), values)
removed key (some bytes) values = (none, remove key values)

unfoldable pub delete_blob : String → Map String → Option Error × Map String
delete_blob key values = removed key (lookup key values) values

pub lookup-remove : (key : String) (values : Map String) → lookup key (remove key values) ≡ none
unfolding remove lookup
lookup-remove key [] = refl
lookup-remove key ((name, value) ∷ rest) = elim (Bool-cases (name == key)) [
  | inl e ↦ rw e (lookup-remove key rest)
  | inr e ↦ rw e (rw e (lookup-remove key rest))
]
