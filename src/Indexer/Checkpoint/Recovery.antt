-- ===== src/Indexer/Checkpoint/Recovery.antt =====
-- What a later run finds after a checkpoint was saved, or could not be saved.
use liquidity_scope.Prelude.{
  ℕ, ◌+◌, ◌≡◌, refl, inl, inr, true, false, Option, none, some, arith, nat_eq, list_eq, pair_eq, ok,
  is_ok, Bool-cases,
}
use liquidity_scope.Text.{Text}
use liquidity_scope.Storage.Files
use liquidity_scope.Storage.Files.{Os, Disk, Entry, file, entry_at}
use liquidity_scope.Storage.Files.Replace.{Leaves-ok, Leaves-err, Leaves, replace_file-Leaves}
use liquidity_scope.Indexer.Checkpoint.{
  Checkpoint, CheckpointStore, CheckpointCodec, checkpoint_at, load, save,
}

module _ (os : Os) (codec : CheckpointCodec) (store : CheckpointStore) where
  -- Loading when no request fails gives what the entry at the path says.
  pub load-file :
      (content : Text) (cp : Checkpoint) (d : Disk)
      → store.enabled ≡ true
      → os.fault d.clock ≡ none
      → os.fault (d.clock + 1) ≡ none
      → entry_at store.path d ≡ some (file content)
      → codec.decode content ≡ some cp
      → (load os codec store d).0 ≡ ok (some cp)
  unfolding load Files.stat Files.read_file
  load-file content cp d on quiet quiet' here known = ground arith

  -- Loading that does not fail gives what the entry at the path says.
  pub load_ok-file :
      (content : Text) (cp : Checkpoint) (d : Disk) (loaded : Option Checkpoint)
      → store.enabled ≡ true
      → entry_at store.path d ≡ some (file content)
      → codec.decode content ≡ some cp
      → (load os codec store d).0 ≡ ok loaded
      → loaded ≡ some cp
  unfolding load Files.stat Files.read_file
  load_ok-file content cp d loaded on here known e = ground arith

  -- Loading that does not fail gives nothing where there is no entry.
  pub load_ok-none :
      (d : Disk) (loaded : Option Checkpoint)
      → store.enabled ≡ true
      → entry_at store.path d ≡ none
      → (load os codec store d).0 ≡ ok loaded
      → loaded ≡ none
  unfolding load Files.stat
  load_ok-none d loaded on here e = ground arith

  pub load-entries : (d : Disk) → (load os codec store d).1.entries ≡ d.entries
  unfolding load Files.stat Files.read_file
  load-entries d = ground arith

  pub save-Leaves :
      (block : ℕ) (d : Disk)
      → store.enabled ≡ true
      → Leaves os store.path
          (file (codec.encode (checkpoint_at os codec store block d)))
          d
          (save os codec store block d)
  unfolding save
  save-Leaves block d on =
      rw on
        (replace_file-Leaves os store.path (codec.encode (checkpoint_at os codec store block d)) d)

  -- With checkpoints enabled, and if decoding inverts encoding: a checkpoint that was saved without
  -- an error is the one that the next `Load` returns, provided that its two requests meet no fault.
  pub load-save :
      (block : ℕ) (d : Disk)
      → store.enabled ≡ true
      → ((cp : Checkpoint) → codec.decode (codec.encode cp) ≡ some cp)
      → (save os codec store block d).0 ≡ ok tt
      → os.fault (save os codec store block d).1.clock ≡ none
      → os.fault ((save os codec store block d).1.clock + 1) ≡ none
      → (load os codec store (save os codec store block d).1).0
        ≡ ok (some (checkpoint_at os codec store block d))
  load-save block d on inverse saved quiet quiet' =
      let cp = checkpoint_at os codec store block d in
      load-file (codec.encode cp) cp (save os codec store block d).1 on quiet quiet'
        (Leaves-ok os store.path (file (codec.encode cp)) d (save os codec store block d)
          (save-Leaves block d on) saved)
        (inverse cp)

  -- After a `Save` that failed, at whichever request, the path has the entry that it had before.
  pub save_fails-keeps :
      (block : ℕ) (d : Disk)
      → is_ok (save os codec store block d).0 ≡ false
      → entry_at store.path (save os codec store block d).1 ≡ entry_at store.path d
  save_fails-keeps block d failed = elim (Bool-cases store.enabled) [
    | inl on ↦
        Leaves-err os store.path (file (codec.encode (checkpoint_at os codec store block d))) d
          (save os codec store block d) (save-Leaves block d on) failed
    | inr off ↦ unfold save in rw off refl
  ]
