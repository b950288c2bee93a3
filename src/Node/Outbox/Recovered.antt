-- ===== src/Node/Outbox/Recovered.antt =====
-- node/outbox.go: what Recover leaves on the disk.
use realy.Common.{◌||◌, not}
use realy.Common.{
  not, ℕ, ◌≡◌, refl, sym, subst, ◌⊎◌, inl, inr, String, true, Option, none, some, List, [], ◌∷◌,
  arith, eq_iff, Bool-cases, Option-cases, ◌==◌, ltb,
}
use mathlib.Core.List.{Memᴰ}
use realy.Common.Maps.{lookup}
use realy.Controlplane.Types.{Error, World}
use realy.Node.Plane.{ControlPlane}
use realy.Node.Delivery.{is_final}
use realy.Node.Outbox.{
  PendingEvent, OutboxFile, Disk, OutboxOptions, RemoveFault, removable, stuck, unsynced, erase,
  remove,
}
use realy.Node.Outbox.Recovery.{
  is_incomplete, is_run_cancelled, Round, stopped, resolved, after_remove, after_conclude, conclude,
  delivery_of, recover_file, recover_entry, continue_with, recover,
}
use realy.Node.Outbox.Delivered.{lookup-erase}

-- The control plane has answered for good: it took the event, or refused it with an error that no
-- further report changes.
pub IsAnswered : Option Error → Type 0
IsAnswered none = Unit {0}
IsAnswered (some e) = is_final e ≡ true

module _ {S : Type 0} (w : World) (options : OutboxOptions) (plane : ControlPlane S)
    (took : ℕ → ℕ) where
  -- A file's record was delivered, from some state, with an answer for good.
  pub HasAnswer : OutboxFile → Type 0
  HasAnswer file =
      (p : PendingEvent) × (s : S) × (options.decode file.content ≡ some p)
      × IsAnswered (delivery_of w options plane took p s).0

  -- What a round over the file `name` makes of a disk.
  pub data Change (name : String) (disk : Disk) : Disk → Type 0 where
    same : Change name disk disk
    gone_now :
        (file : OutboxFile)
        → lookup name disk ≡ some file
        → HasAnswer file
        → Change name disk (erase name disk)

  -- A resolved file is gone.
  IsRound : String → Disk → Round S → Type 0
  IsRound name disk (stopped e after s) = Change name disk after
  IsRound name disk (resolved reason after s) = Change name disk after × (lookup name after ≡ none)

  module _ (name : String) (disk : Disk) (file : OutboxFile) where
    after_remove-IsRound :
        (gone : RemoveFault) (reason : String) (s : S)
        → lookup name disk ≡ some file
        → HasAnswer file
        → IsRound name disk (after_remove w options plane took reason (remove gone name disk) s)
    unfolding IsRound remove
    after_remove-IsRound removable reason s h a =
        (Change.gone_now file h a, ground (arith, lookup-erase name name disk, eq_iff name name))
    after_remove-IsRound (stuck cause) reason s h a = Change.same
    after_remove-IsRound (unsynced cause) reason s h a = Change.gone_now file h a

    after_conclude-IsRound :
        (gone : RemoveFault) (concluded : (Option Error × String) × S)
        → lookup name disk ≡ some file
        → HasAnswer file
        → IsRound name disk (after_conclude w options plane took gone name concluded disk)
    unfolding IsRound
    after_conclude-IsRound gone ((none, reason), s) h a = after_remove-IsRound gone reason s h a
    after_conclude-IsRound gone ((some e, reason), s) h a = elim (Bool-cases (is_final e)) [
      | inl f ↦ rw f (after_remove-IsRound gone reason s h a)
      | inr f ↦ rw f Change.same
    ]

    is_run_cancelled-final : (e : Error) → is_run_cancelled e ≡ true → is_final e ≡ true
    unfolding is_final
    is_run_cancelled-final e h = ground arith

    conclude-IsRound :
        (gone : RemoveFault) (p : PendingEvent) (s : S) (answer : Option Error × S)
        → lookup name disk ≡ some file
        → options.decode file.content ≡ some p
        → delivery_of w options plane took p s ≡ answer
        → IsRound name disk (
            after_conclude w options plane took gone name
              (conclude w options plane took p.assignment answer)
              disk)
    unfolding HasAnswer IsAnswered IsRound
    conclude-IsRound gone p s (none, s') h d q =
        after_conclude-IsRound gone (conclude w options plane took p.assignment (none, s')) h
          (p, s, d, subst (λ (r : Option Error × S). IsAnswered r.0) (sym q) tt)
    conclude-IsRound gone p s (some e, s') h d q = elim (Bool-cases (is_final e)) [
      | inl f ↦
          after_conclude-IsRound gone (conclude w options plane took p.assignment (some e, s')) h
            (p, s, d, subst (λ (r : Option Error × S). IsAnswered r.0) (sym q) f)
      | inr f ↦ elim (Bool-cases (is_run_cancelled e)) [
        | inl c ↦ ground (arith, f, is_run_cancelled-final e c)
        | inr c ↦ rw c (rw f (rw f Change.same))
      ]
    ]

  recover_file-IsRound :
      (gone : RemoveFault) (name : String) (found : Option OutboxFile) (disk : Disk) (s : S)
      → lookup name disk ≡ found
      → IsRound name disk (recover_file w options plane took gone name found disk s)
  unfolding IsRound
  recover_file-IsRound gone name none disk s h = Change.same
  recover_file-IsRound gone name (some file) disk s h =
      elim (Bool-cases (not file.regular || ltb 2097152 file.size)) [
        | inl e ↦ rw e Change.same
        | inr e ↦ rw e (elim (Option-cases (options.decode file.content)) [
          | inl d ↦ rw d Change.same
          | inr (p, d) ↦ rw d (elim (Bool-cases (is_incomplete p)) [
            | inl i ↦ rw i Change.same
            | inr i ↦ rw i (
                conclude-IsRound name disk file gone p s (delivery_of w options plane took p s) h d
                  refl)
          ])
        ])
      ]

  recover_entry-IsRound :
      (trouble : Option String) (gone : RemoveFault) (name : String) (disk : Disk) (s : S)
      → IsRound name disk (recover_entry w options plane took trouble gone name disk s)
  unfolding IsRound
  recover_entry-IsRound (some cause) gone name disk s = Change.same
  recover_entry-IsRound none gone name disk s =
      recover_file-IsRound gone name (lookup name disk) disk s refl

  Change-none :
      (name x : String) (disk after : Disk)
      → Change name disk after
      → lookup x disk ≡ none
      → lookup x after ≡ none
  Change-none name x disk after Change.same h = h
  Change-none name x disk after (Change.gone_now file f a) h =
      ground (arith, lookup-erase name x disk, h)

  Change-some :
      (name x : String) (disk after : Disk) (file : OutboxFile)
      → Change name disk after
      → lookup x disk ≡ some file
      → (lookup x after ≡ some file) ⊎ HasAnswer file
  Change-some name x disk after file Change.same h = inl h
  Change-some name x disk after file (Change.gone_now found f a) h = elim (Bool-cases (name == x)) [
    | inl e ↦
        let same : found ≡ file =
          ground (arith, subst (λ k. lookup k disk ≡ some found) ((eq_iff name x).0 e) f, h) in
        inr (subst HasAnswer same a)
    | inr e ↦ inl (ground (arith, lookup-erase name x disk, e, h))
  ]

  module _ (trouble : String → Option String) (gone : String → RemoveFault) where
    abbrev run_recover : List String → Disk → S → (Option Error × List String) × Disk × S
    run_recover order disk s = recover w options plane took trouble gone order disk s

    -- What a loop after a round keeps of the round's disk.
    Keeps : Disk → (Option Error × List String) × Disk × S → Type 0
    Keeps disk ((e, reasons), after, s) =
        ((x : String) → lookup x disk ≡ none → lookup x after ≡ none)
        × ((x : String) (file : OutboxFile)
            → lookup x disk ≡ some file
            → (lookup x after ≡ some file) ⊎ HasAnswer file)

    continue_with-Keeps :
        (name : String) (order : List String) (disk : Disk) (r : Round S)
        → IsRound name disk r
        → ((after : Disk) (s : S) → Keeps after (run_recover order after s))
        → Keeps disk (continue_with w options plane took r (run_recover order))
    unfolding Keeps IsRound
    continue_with-Keeps name order disk (stopped e after s) c rest = (
      λ x h. Change-none name x disk after c h,
      λ x file h. Change-some name x disk after file c h,
    )
    continue_with-Keeps name order disk (resolved reason after s) (c, _) rest = (
      λ x h. (rest after s).0 x (Change-none name x disk after c h),
      λ x file h. elim (Change-some name x disk after file c h) [
        | inl found ↦ (rest after s).1 x file found
        | inr answered ↦ inr answered
      ],
    )

    recover-Keeps :
        (order : List String) (disk : Disk) (s : S) → Keeps disk (run_recover order disk s)
    unfolding Keeps recover
    recover-Keeps [] disk s = (λ x h. h, λ x file h. inl h)
    recover-Keeps (name ∷ order) disk s =
        continue_with-Keeps name order disk
          (recover_entry w options plane took (trouble name) (gone name) name disk s)
          (recover_entry-IsRound (trouble name) (gone name) name disk s)
          (λ after s'. recover-Keeps order after s')

    -- Recover gives up no event whose outcome is unknown: of each file that stood on the disk before,
    -- either it stands there unchanged afterwards, or its event was delivered from some state of the
    -- control plane and answered with success or with an error that no further report changes.
    pub recover_retains :
        (order : List String) (disk : Disk) (s : S) (x : String) (file : OutboxFile)
        → lookup x disk ≡ some file
        → (lookup x (recover w options plane took trouble gone order disk s).1 ≡ some file)
          ⊎ HasAnswer file
    unfolding Keeps
    recover_retains order disk s x file h = (recover-Keeps order disk s).1 x file h

    continue_with_done :
        (name : String) (order : List String) (disk : Disk) (r : Round S) (x : String)
        → IsRound name disk r
        → ((after : Disk) (s : S)
            → (run_recover order after s).0.0 ≡ none
            → Memᴰ x order
            → lookup x (run_recover order after s).1 ≡ none)
        → (continue_with w options plane took r (run_recover order)).0.0 ≡ none
        → Memᴰ x (name ∷ order)
        → lookup x (continue_with w options plane took r (run_recover order)).1 ≡ none
    unfolding IsRound Keeps
    continue_with_done name order disk (stopped e after s) x c rest h m = ground (arith, h)
    continue_with_done name order disk (resolved reason after s) x (c, cleared) rest h
          (Memᴰ.head p) =
        (recover-Keeps order after s).0 x (subst (λ k. lookup k after ≡ none) (sym p) cleared)
    continue_with_done name order disk (resolved reason after s) x (c, cleared) rest h
          (Memᴰ.tail m) =
        rest after s h m

    -- When Recover ends without an error, none of the files that it was to visit is left.
    pub recover_done :
        (order : List String) (disk : Disk) (s : S) (x : String)
        → (recover w options plane took trouble gone order disk s).0.0 ≡ none
        → Memᴰ x order
        → lookup x (recover w options plane took trouble gone order disk s).1 ≡ none
    unfolding recover
    recover_done [] disk s x h m = elim m [ ]
    recover_done (name ∷ order) disk s x h m =
        continue_with_done name order disk
          (recover_entry w options plane took (trouble name) (gone name) name disk s) x
          (recover_entry-IsRound (trouble name) (gone name) name disk s)
          (λ after s'. recover_done order after s' x) h m
