-- ===== src/Storage/Files/Replace.antt =====
-- A file that is replaced through a temporary file is never seen half-written.
use liquidity_scope.Prelude.{
  ℕ, ◌≡◌, refl, ap, ◌∙◌, ◌≢◌, inl, inr, false, some, ◌∷◌, ◌++◌, arith, ◌==◌, nat_eq, list_eq,
  pair_eq, Result, ok, err, is_ok, Bool-cases, length, list_beq_iff, length-append, and_then,
}
use liquidity_scope.Prelude.Dict
use liquidity_scope.Prelude.Dict.{lookup-insert_self, Dict, lookup-insert, lookup-erase}
use liquidity_scope.Errors.{Error}
use liquidity_scope.Text.{Text, codes}
use liquidity_scope.Storage.Files.{
  Entry, file, Disk, Os, entry_at, make_parent, write_file, rename, replace_file,
}

longer-ne : (path : Text) (c : ℕ) (s : Text) → path ++ (c ∷ s) ≢ path
longer-ne path c s e =
    absurd (omega (arith, length-append path (c ∷ s), ap (λ (t : Text). length t) e))

module _ (os : Os) where
  entry_at-make_parent :
      (path other : Text) (d : Disk) → entry_at other (make_parent os path d).1 ≡ entry_at other d
  unfolding make_parent
  entry_at-make_parent path other d = ground arith

  entry_at-write_file :
      (tmp path content : Text) (d : Disk)
      → (tmp == path) ≡ false
      → entry_at path (write_file os tmp content d).1 ≡ entry_at path d
  unfolding write_file
  entry_at-write_file tmp path content d h = ground (
    arith,
    lookup-insert tmp path (file content) d.entries,
    lookup-insert tmp path (file (os.torn d.clock)) d.entries,
  )

  entry_at-write_file_self :
      (tmp content : Text) (d : Disk)
      → (write_file os tmp content d).0 ≡ ok tt
      → entry_at tmp (write_file os tmp content d).1 ≡ some (file content)
  unfolding write_file
  entry_at-write_file_self tmp content d h =
      ground (arith, lookup-insert_self tmp (file content) d.entries)

  -- How a call leaves the entry at `path`: on success it is the new one, on failure the old one.
  abbrev pub Leaves : Text → Entry → Disk → Result Error Unit × Disk → Type 0
  Leaves path new d (ok _, d') = entry_at path d' ≡ some new
  Leaves path new d (err _, d') = entry_at path d' ≡ entry_at path d

  rename-Leaves :
      (tmp path : Text) (new : Entry) (d : Disk)
      → entry_at tmp d ≡ some new
      → Leaves path new d (rename os tmp path d)
  unfolding rename
  rename-Leaves tmp path new d h =
      ground (arith, lookup-insert_self path new (Dict.erase tmp d.entries))

  Leaves-from :
      (path : Text) (new : Entry) (d d2 : Disk) (r : Result Error Unit × Disk)
      → entry_at path d2 ≡ entry_at path d
      → Leaves path new d2 r
      → Leaves path new d r
  Leaves-from path new d d2 (ok _, d') same h = h
  Leaves-from path new d d2 (err _, d') same h = h ∙ same

  after_write-Leaves :
      (tmp path content : Text) (d : Disk) (written : Result Error Unit × Disk)
      → entry_at path written.1 ≡ entry_at path d
      → (written.0 ≡ ok tt → entry_at tmp written.1 ≡ some (file content))
      → Leaves path (file content) d (and_then written.0 written.1 (λ _ d2. rename os tmp path d2))
  after_write-Leaves tmp path content d (err e, d2) same here = same
  after_write-Leaves tmp path content d (ok _, d2) same here =
      Leaves-from path (file content) d d2 (rename os tmp path d2) same
        (rename-Leaves tmp path (file content) d2 (here refl))

  after_parent-Leaves :
      (tmp path content : Text) (d : Disk) (made : Result Error Unit × Disk)
      → (tmp == path) ≡ false
      → entry_at path made.1 ≡ entry_at path d
      → Leaves path (file content) d (
          and_then made.0 made.1 λ _ d1.
            and_then
              (write_file os tmp content d1).0
              (write_file os tmp content d1).1
              λ _ d2. rename os tmp path d2)
  after_parent-Leaves tmp path content d (err e, d1) ne same = same
  after_parent-Leaves tmp path content d (ok _, d1) ne same =
      after_write-Leaves tmp path content d (write_file os tmp content d1)
        (entry_at-write_file tmp path content d1 ne ∙ same)
        (entry_at-write_file_self tmp content d1)

  tmp-ne-path : (path : Text) → ((path ++ codes ".tmp") == path) ≡ false
  tmp-ne-path path = elim (Bool-cases ((path ++ codes ".tmp") == path)) [
    | inr e ↦ e
    | inl e ↦ absurd (longer-ne path _ _ ((list_beq_iff _ _).0 e))
  ]

  -- Whichever of its requests fails, and whatever a failed write leaves behind: when the
  -- replacement succeeds the file has exactly the new content, and when it fails the entry at the
  -- path is the one that was there before.
  pub replace_file-Leaves :
      (path content : Text) (d : Disk)
      → Leaves path (file content) d (replace_file os path content d)
  unfolding replace_file
  replace_file-Leaves path content d =
      after_parent-Leaves (path ++ codes ".tmp") path content d (make_parent os path d)
        (tmp-ne-path path) (entry_at-make_parent path path d)

  pub Leaves-ok :
      (path : Text) (new : Entry) (d : Disk) (r : Result Error Unit × Disk)
      → Leaves path new d r
      → r.0 ≡ ok tt
      → entry_at path r.1 ≡ some new
  Leaves-ok path new d (ok _, d') h e = h
  Leaves-ok path new d (err _, d') h e = cc

  pub Leaves-err :
      (path : Text) (new : Entry) (d : Disk) (r : Result Error Unit × Disk)
      → Leaves path new d r
      → is_ok r.0 ≡ false
      → entry_at path r.1 ≡ entry_at path d
  Leaves-err path new d (ok _, d') h e = cc
  Leaves-err path new d (err _, d') h e = h
