-- ===== src/Indexer/Checkpoint.antt =====
-- internal/indexer/checkpoint.go: the last processed block, in a file. `json.Marshal` and
-- `json.Unmarshal` of a checkpoint, and the clock, are parameters.
pub mod Recovery
use liquidity_scope.Prelude.{
  ℕ, zero, suc, ◌+◌, ◌-◌, ◌*◌, ◌/◌, ◌%◌, ◌^◌, ◌≤◌, ◌<◌, ◌≡◌, refl, sym, ap, ◌∙◌, subst, ◌≢◌, ◌↔◌,
  ◌⊎◌, inl, inr, Bool, true, false, not, ◌&&◌, ◌||◌, Option, none, some, List, [], ◌∷◌, ◌++◌, map,
  append-nil, append_assoc, arith, ltb, leb, ◌==◌, Eq, nat_eq, list_eq, pair_eq, beq_refl,
  if◌then◌else◌, Result, ok, err, is_ok, Bool-cases, Option-cases, length, is_empty, All, replicate,
  ne→beq_false, le→leb, lt→leb_false, le→ltb_false,
}
use liquidity_scope.Errors.{Error, checkpoint_is_directory, no_such_file, bad_checkpoint}
use liquidity_scope.Text.{Text}
use liquidity_scope.Storage.Files
use liquidity_scope.Storage.Files.{Os, Disk, directory, file}

pub record Checkpoint : Type 0 where
  pub last_processed_block : ℕ
  pub updated_at : Text

pub record CheckpointStore : Type 0 where
  pub path : Text
  pub enabled : Bool

pub record CheckpointCodec : Type 0 where
  pub encode : Checkpoint → Text
  pub decode : Text → Option Checkpoint
  -- `time.Now().UTC().Format(time.RFC3339Nano)`
  pub now : ℕ → Text

module _ (os : Os) (codec : CheckpointCodec) (store : CheckpointStore) where
  -- Reading a file that `Stat` has found.
  read_checkpoint : Disk → Result Error (Option Checkpoint) × Disk
  read_checkpoint d =
      let (answer, d') = Files.read_file os store.path d in
      elim answer [
        | err e ↦ (err e, d')
        | ok none ↦ (err no_such_file, d')
        | ok (some content) ↦ elim (codec.decode content) [
          | none ↦ (err bad_checkpoint, d')
          | some cp ↦ (ok (some cp), d')
        ]
      ]

  -- `Load`; `none` where there is no checkpoint
  unfoldable pub load : Disk → Result Error (Option Checkpoint) × Disk
  unfolding read_checkpoint
  load d =
      if not store.enabled
      then (ok none, d)
      else (let (answer, d') = Files.stat os store.path d in
          elim answer [
            | err e ↦ (err e, d')
            | ok none ↦ (ok none, d')
            | ok (some directory) ↦ (err checkpoint_is_directory, d')
            | ok (some (file _)) ↦ read_checkpoint d'
          ])

  abbrev pub checkpoint_at : ℕ → Disk → Checkpoint
  checkpoint_at block d = record { last_processed_block = block; updated_at = codec.now d.clock }

  -- `Save`
  unfoldable pub save : ℕ → Disk → Result Error Unit × Disk
  save block d =
      if not store.enabled
      then (ok tt, d)
      else Files.replace_file os store.path (codec.encode (checkpoint_at block d)) d
