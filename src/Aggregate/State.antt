-- ===== src/Aggregate/State.antt =====
-- internal/aggregate/state.go and state_db.go: where the last processed timestamp is kept. The JSON
-- of the state file is a parameter.
pub mod Recovery
use liquidity_scope.Prelude.{
  ℕ, Option, none, some, nat_eq, list_eq, pair_eq, if◌then◌else◌, Result, ok, err, is_empty,
}
use liquidity_scope.Errors.{Error, bad_state}
use liquidity_scope.Text.{Text}
use liquidity_scope.Storage.Files
use liquidity_scope.Storage.Files.{Os, Disk}
use liquidity_scope.Storage.Postgres
use liquidity_scope.Storage.Postgres.{Store}

-- `StateStore`: nil, a `FileStateStore` by its path, a `DBStateStore` by its name.
pub data StateStore : Type 0 where
  no_store : StateStore
  file_store db_store : Text → StateStore

-- `json.Marshal` and `json.Unmarshal` of `stateRecord`; the time in it depends on the moment.
pub record StateCodec : Type 0 where
  pub encode : ℕ → ℕ → Text
  pub decode : Text → Option ℕ

-- What outlives a run.
pub record Durable : Type 0 where
  pub disk : Disk
  pub store : Store

module _ (os : Os) (faults : ℕ → Option Error) (codec : StateCodec) where
  -- `FileStateStore.Load`
  unfoldable pub load_file : Text → Disk → Result Error (Option ℕ) × Disk
  load_file path d =
      if is_empty path
      then (ok none, d)
      else (let (answer, d') = Files.read_file os path d in
          elim answer [
            | err e ↦ (err e, d')
            | ok none ↦ (ok none, d')
            | ok (some content) ↦ elim (codec.decode content) [
              | none ↦ (err bad_state, d')
              | some ts ↦ (ok (some ts), d')
            ]
          ])

  -- `FileStateStore.Save`
  unfoldable pub save_file : Text → ℕ → Disk → Result Error Unit × Disk
  save_file path ts d =
      if is_empty path then (ok tt, d) else Files.replace_file os path (codec.encode d.clock ts) d

  -- `StateStore.Load`; a nil store has nothing to load
  unfoldable pub load : StateStore → Durable → Result Error (Option ℕ) × Durable
  load no_store w = (ok none, w)
  load (file_store path) w = let (r, d) = load_file path w.disk in (r, record w { disk = d })
  load (db_store name) w =
      let (r, s) = Postgres.load_state faults name w.store in (r, record w { store = s })

  -- `StateStore.Save`
  unfoldable pub save : StateStore → ℕ → Durable → Result Error Unit × Durable
  save no_store ts w = (ok tt, w)
  save (file_store path) ts w = let (r, d) = save_file path ts w.disk in (r, record w { disk = d })
  save (db_store name) ts w =
      let (r, s) = Postgres.save_state faults name ts w.store in (r, record w { store = s })
