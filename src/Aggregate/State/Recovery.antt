-- ===== src/Aggregate/State/Recovery.antt =====
-- What the next run of the aggregator reads of the progress that was saved
-- (internal/aggregate/state.go and state_db.go).
use liquidity_scope.Prelude.{
  ℕ, ◌≡◌, refl, ap, inl, inr, false, Option, none, some, arith, nat_eq, list_eq, pair_eq, ok, is_ok,
  Bool-cases, is_empty,
}
use liquidity_scope.Prelude.Dict
use liquidity_scope.Prelude.Dict.{lookup-insert_self}
use liquidity_scope.Errors.{Error}
use liquidity_scope.Text.{Text}
use liquidity_scope.Storage.Files
use liquidity_scope.Storage.Files.{Os, Disk, file, entry_at}
use liquidity_scope.Storage.Files.Replace.{Leaves, Leaves-ok, Leaves-err, replace_file-Leaves}
use liquidity_scope.Storage.Postgres
use liquidity_scope.Aggregate.State.{
  StateStore, no_store, file_store, db_store, StateCodec, Durable, load_file, save_file, load, save,
}

-- A place to keep the progress: a file with a name, or a row.
abbrev pub Keeping : StateStore → Type 0
Keeping no_store = ⊥
Keeping (file_store path) = is_empty path ≡ false
Keeping (db_store name) = Unit

module _ (os : Os) (faults : ℕ → Option Error) (codec : StateCodec) where
  -- The request that a `Load` makes meets no fault.
  abbrev pub Quiet : StateStore → Durable → Type 0
  Quiet no_store w = Unit
  Quiet (file_store path) w = os.fault w.disk.clock ≡ none
  Quiet (db_store name) w = faults w.store.clock ≡ none

  load_file_lem :
      (path content : Text) (ts : ℕ) (d : Disk)
      → is_empty path ≡ false
      → os.fault d.clock ≡ none
      → entry_at path d ≡ some (file content)
      → codec.decode content ≡ some ts
      → (load_file os faults codec path d).0 ≡ ok (some ts)
  unfolding load_file Files.read_file
  load_file_lem path content ts d named quiet here known = ground arith

  save_file-Leaves :
      (path : Text) (ts : ℕ) (d : Disk)
      → is_empty path ≡ false
      → Leaves os path (file (codec.encode d.clock ts)) d (save_file os faults codec path ts d)
  unfolding save_file
  save_file-Leaves path ts d named =
      rw named (replace_file-Leaves os path (codec.encode d.clock ts) d)

  load_file-save_file :
      (path : Text) (ts : ℕ) (d : Disk)
      → is_empty path ≡ false
      → ((now t : ℕ) → codec.decode (codec.encode now t) ≡ some t)
      → (save_file os faults codec path ts d).0 ≡ ok tt
      → os.fault (save_file os faults codec path ts d).1.clock ≡ none
      → (load_file os faults codec path (save_file os faults codec path ts d).1).0 ≡ ok (some ts)
  load_file-save_file path ts d named inverse saved quiet =
      let content = codec.encode d.clock ts in
      load_file_lem path content ts (save_file os faults codec path ts d).1 named quiet
        (Leaves-ok os path (file content) d (save_file os faults codec path ts d)
          (save_file-Leaves path ts d named) saved)
        (inverse d.clock ts)

  load_state-save_state :
      (name : Text) (ts : ℕ) (s : Postgres.Store)
      → (Postgres.save_state faults name ts s).0 ≡ ok tt
      → faults (Postgres.save_state faults name ts s).1.clock ≡ none
      → (Postgres.load_state faults name (Postgres.save_state faults name ts s).1).0 ≡ ok (some ts)
  unfolding Postgres.save_state Postgres.load_state
  load_state-save_state name ts s saved quiet = ground (arith, lookup-insert_self name ts s.states)

  -- If decoding inverts encoding: the timestamp that was saved without an error, to a file or to the
  -- database, is the one that the next `Load` returns, provided that its request meets no fault.
  pub load-save_progress :
      (store : StateStore) (ts : ℕ) (w : Durable)
      → Keeping store
      → ((now t : ℕ) → codec.decode (codec.encode now t) ≡ some t)
      → (save os faults codec store ts w).0 ≡ ok tt
      → Quiet store (save os faults codec store ts w).1
      → (load os faults codec store (save os faults codec store ts w).1).0 ≡ ok (some ts)
  unfolding load save
  load-save_progress no_store ts w kept inverse saved quiet = absurd kept
  load-save_progress (file_store path) ts w kept inverse saved quiet =
      load_file-save_file path ts w.disk kept inverse saved quiet
  load-save_progress (db_store name) ts w kept inverse saved quiet =
      load_state-save_state name ts w.store saved quiet

  -- Where the progress is kept, the second state has what the first one has.
  abbrev pub SameProgress : StateStore → Durable → Durable → Type 0
  SameProgress no_store v w = Unit
  SameProgress (file_store path) v w = entry_at path v.disk ≡ entry_at path w.disk
  SameProgress (db_store name) v w =
      Dict.lookup name v.store.states ≡ Dict.lookup name w.store.states

  save_state_fails :
      (name : Text) (ts : ℕ) (s : Postgres.Store)
      → is_ok (Postgres.save_state faults name ts s).0 ≡ false
      → (Postgres.save_state faults name ts s).1.states ≡ s.states
  unfolding Postgres.save_state
  save_state_fails name ts s failed = ground arith

  save_file_fails :
      (path : Text) (ts : ℕ) (d : Disk)
      → is_ok (save_file os faults codec path ts d).0 ≡ false
      → entry_at path (save_file os faults codec path ts d).1 ≡ entry_at path d
  save_file_fails path ts d failed = elim (Bool-cases (is_empty path)) [
    | inl e ↦ unfold save_file in rw e refl
    | inr e ↦
        Leaves-err os path (file (codec.encode d.clock ts)) d (save_file os faults codec path ts d)
          (save_file-Leaves path ts d e) failed
  ]

  -- A `Save` of the progress that fails, at whichever request, leaves the progress kept before.
  pub save_progress_fails-keeps :
      (store : StateStore) (ts : ℕ) (w : Durable)
      → is_ok (save os faults codec store ts w).0 ≡ false
      → SameProgress store (save os faults codec store ts w).1 w
  unfolding save
  save_progress_fails-keeps no_store ts w failed = tt
  save_progress_fails-keeps (file_store path) ts w failed = save_file_fails path ts w.disk failed
  save_progress_fails-keeps (db_store name) ts w failed =
      ap (Dict.lookup name) (save_state_fails name ts w.store failed)
