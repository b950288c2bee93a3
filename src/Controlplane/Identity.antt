-- ===== src/Controlplane/Identity.antt =====
-- controlplane/event.go: the identity of a producer's event, and the comparison of what is stored
-- with what is reported again. Both go by canonical JSON, which the `World` gives.
use realy.Common.{
  String, Bool, false, not, ◌||◌, Option, none, some, if◌then◌else◌, ◌==◌, concat, join_nul,
}
use realy.Types.{RunResult}
use realy.Controlplane.Types.{Error, invalid_transition, other, Payload, of_result, World}

module _ (w : World) where
  -- The caller gives no ID, or the first of the list; the empty text is none.
  unfoldable pub event_identity : String → String → Option String → String
  event_identity attempt lease none = ""
  event_identity attempt lease (some id) =
      if id == ""
      then ""
      else concat "producer_" (w.sha256_hex (join_nul attempt (join_nul lease id)))

  abbrev canonical_or_null : String → Option String
  canonical_or_null bytes = w.canonical (if bytes == "" then "null" else bytes)

  -- `none` is Go's nil error.
  compare_events : String → Option String → String → Option String → Option Error
  compare_events old_type none new_type current = some (other "json")
  compare_events old_type (some old) new_type none = some (other "json")
  compare_events old_type (some old) new_type (some current) =
      if not (old_type == new_type) || not (old == current) then some invalid_transition else none

  unfoldable pub same_event : String → String → String → Payload → Option Error
  unfolding compare_events
  same_event old_type old_data new_type value = elim (w.marshal value) [
    | none ↦ some (other "json")
    | some encoded ↦
        compare_events old_type (canonical_or_null old_data) new_type (w.canonical encoded)
  ]

  both_equal : Option String → Option String → Bool
  both_equal none b = false
  both_equal (some a) none = false
  both_equal (some a) (some b) = a == b

  canonical_result : RunResult → Option String
  canonical_result result = elim (w.marshal (of_result result)) [
    | none ↦ none
    | some bytes ↦ w.canonical bytes
  ]

  -- SameValue, at the results that Complete compares.
  unfoldable pub same_result : RunResult → RunResult → Bool
  unfolding both_equal canonical_result
  same_result previous current = both_equal (canonical_result previous) (canonical_result current)
