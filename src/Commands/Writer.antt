-- ===== src/Commands/Writer.antt =====
-- `jsonlWriter` of cmd/indexer/decode.go: lines go through the buffer of a `bufio.Writer`. Which write
-- flushes the buffer, and which flush fails, are parameters. What a failed flush leaves in the file is
-- not kept, and every write behind it fails, as in package bufio.
use liquidity_scope.Prelude.{
  ℕ, ◌+◌, Bool, Option, none, some, List, [], ◌∷◌, ◌++◌, ◌==◌, nat_eq, list_eq, pair_eq,
  if◌then◌else◌, Result, ok, err, and_then, ◌>>=◌,
}
use liquidity_scope.Text.{Text, codes}
use liquidity_scope.Commands.Services.{step}
use liquidity_scope.Errors.{Error}

pub record Writer (A : Type 0) : Type 0 where
  pub written : List A
  pub pending : List A
  pub broken : Option Error
  pub clock : ℕ

-- How the file takes the lines: whether the write with this number flushes what is pending, and how
-- flushes end. Marshalling does not fail for the records that are written.
pub record Medium : Type 0 where
  pub flushes : ℕ → Bool
  pub fault : ℕ → Option Error

abbrev pub lines_of : {A : Type 0} → Writer A → List A
lines_of w = w.written ++ w.pending

-- A writer of a file that is opened and truncated.
abbrev pub new_writer : {A : Type 0} → Writer A
new_writer = record { written = []; pending = []; broken = none; clock = 0 }

-- filepath.Dir, os.MkdirAll, and os.OpenFile for appending or with truncation.
pub record FileCalls : Type 0 where
  pub dir_of : Text → Text
  pub mkdir_all : Text → Option Error
  pub open_file : Text → Bool → Option Error

-- `newJSONLWriter`
unfoldable pub new_jsonl_writer : {A : Type 0} → FileCalls → Text → Bool → Result Error (Writer A)
new_jsonl_writer calls path append_mode = do
  _ ← if calls.dir_of path == codes "." then ok tt else step (calls.mkdir_all (calls.dir_of path))
  _ ← step (calls.open_file path append_mode)
  ok new_writer

module _ (medium : Medium) {A : Type 0} where
  -- `Flush` of the buffer
  unfoldable pub flush : Writer A → Result Error Unit × Writer A
  flush w = elim w.broken [
    | some e ↦ (err e, w)
    | none ↦ elim (medium.fault w.clock) [
      | some e ↦ (err e, record w { broken = some e; clock = w.clock + 1 })
      | none ↦
          (ok tt, record w { written = w.written ++ w.pending; pending = []; clock = w.clock + 1 })
    ]
  ]

  add_line : A → Writer A → Writer A
  add_line line w = record w { pending = w.pending ++ line ∷ [] }

  -- `Write`
  unfoldable pub write : A → Writer A → Result Error Unit × Writer A
  unfolding flush add_line
  write line w = elim w.broken [
    | some e ↦ (err e, w)
    | none ↦
        if medium.flushes w.clock
        then (let (r, w') = flush w in and_then r w' λ _ w'. (ok tt, add_line line w'))
        else (ok tt, add_line line (record w { clock = w.clock + 1 }))
  ]
