-- ===== src/Storage/Files.antt =====
-- The calls of package os that the program makes. `clock` numbers the requests, and the parameter
-- `Os` says which of them fail. A write that fails leaves any content; a rename replaces its
-- target in one step, or fails and changes nothing. Only the entries at the paths that the program
-- reads and writes are kept: making the directory of a file changes none of them.
pub mod Replace
use liquidity_scope.Prelude.{
  ℕ, zero, suc, ◌+◌, ◌-◌, ◌*◌, ◌/◌, ◌%◌, ◌^◌, ◌≤◌, ◌<◌, ◌≡◌, refl, sym, ap, ◌∙◌, subst, ◌≢◌, ◌↔◌,
  ◌⊎◌, inl, inr, Bool, true, false, not, ◌&&◌, ◌||◌, Option, none, some, List, [], ◌∷◌, ◌++◌, map,
  append-nil, append_assoc, arith, ltb, leb, ◌==◌, Eq, nat_eq, list_eq, pair_eq, beq_refl,
  if◌then◌else◌, Result, ok, err, is_ok, Bool-cases, Option-cases, length, is_empty, All, replicate,
  ne→beq_false, le→leb, lt→leb_false, le→ltb_false, and_then,
}
use liquidity_scope.Prelude.Dict
use liquidity_scope.Prelude.Dict.{Dict}
use liquidity_scope.Errors.{Error, is_directory, no_such_file}
use liquidity_scope.Text.{Text, codes}

pub data Entry : Type 0 where
  directory : Entry
  file : Text → Entry

pub record Disk : Type 0 where
  pub entries : Dict Text Entry
  pub clock : ℕ

pub record Os : Type 0 where
  pub fault : ℕ → Option Error
  -- what a failed write leaves in the file
  pub torn : ℕ → Text
  -- `filepath.Dir(path) == "."`
  pub parent_is_dot : Text → Bool

abbrev pub tick : Disk → Disk
tick d = record d { clock = d.clock + 1 }

abbrev pub entry_at : Text → Disk → Option Entry
entry_at path d = Dict.lookup path d.entries

module _ (os : Os) where
  -- `os.MkdirAll(filepath.Dir(path), 0o755)`, unless that is the current directory
  unfoldable pub make_parent : Text → Disk → Result Error Unit × Disk
  make_parent path d =
      if os.parent_is_dot path
      then (ok tt, d)
      else (elim (os.fault d.clock) [ none ↦ (ok tt, tick d) | some e ↦ (err e, tick d) ])

  -- `os.WriteFile`
  unfoldable pub write_file : Text → Text → Disk → Result Error Unit × Disk
  write_file path content d = elim (entry_at path d) [
    | some directory ↦ (err is_directory, tick d)
    | _ ↦ elim (os.fault d.clock) [
      | none ↦ (ok tt, record (tick d) { entries = Dict.insert path (file content) d.entries })
      | some e ↦
          (err e, record (tick d) { entries = Dict.insert path (file (os.torn d.clock)) d.entries })
    ]
  ]

  -- The entries after a rename that the system lets pass.
  moved : Text → Text → Entry → Dict Text Entry → Dict Text Entry
  moved old new content entries = Dict.insert new content (Dict.erase old entries)

  -- `os.Rename` of a file: refused if it is not there, or if the new name is a directory.
  unfoldable pub rename : Text → Text → Disk → Result Error Unit × Disk
  unfolding moved
  rename old new d = elim (os.fault d.clock) [
    | some e ↦ (err e, tick d)
    | none ↦ elim (entry_at old d) [
      | none ↦ (err no_such_file, tick d)
      | some content ↦ elim (entry_at new d) [
        | some directory ↦ (err is_directory, tick d)
        | _ ↦ (ok tt, record (tick d) { entries = moved old new content d.entries })
      ]
    ]
  ]

  -- How both `Save` methods write: the directory, a temporary file beside the target, a rename.
  unfoldable pub replace_file : Text → Text → Disk → Result Error Unit × Disk
  unfolding make_parent write_file rename
  replace_file path content d =
      let tmp = path ++ codes ".tmp" in
      and_then (make_parent path d).0 (make_parent path d).1 λ _ d1.
        and_then (write_file tmp content d1).0 (write_file tmp content d1).1
          λ _ d2. rename tmp path d2

  -- `os.Stat` and `os.ReadFile`, one request each
  unfoldable pub stat : Text → Disk → Result Error (Option Entry) × Disk
  stat path d = elim (os.fault d.clock) [
    | some e ↦ (err e, tick d)
    | none ↦ (ok (entry_at path d), tick d)
  ]

  unfoldable pub read_file : Text → Disk → Result Error (Option Text) × Disk
  read_file path d = elim (os.fault d.clock) [
    | some e ↦ (err e, tick d)
    | none ↦ elim (entry_at path d) [
      | none ↦ (ok none, tick d)
      | some directory ↦ (err is_directory, tick d)
      | some (file content) ↦ (ok (some content), tick d)
    ]
  ]
