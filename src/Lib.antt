-- ===== src/Lib.antt =====
-- liquidityScope: logs of decentralised exchanges, pulled from a node, decoded, and aggregated into
-- metrics for each pool and window of time.
--
-- The program is a pipeline of three commands (cmd/indexer). `run` (internal/indexer) asks a node
-- for logs, range by range, and appends them to a file of JSON lines, with a checkpoint behind each
-- range. `decode` (internal/dex) turns logs into typed events, with metadata of pools and tokens that
-- it reads from the chain. `aggregate` (internal/aggregate) reads typed events, keeps for each pool the
-- window of time that is open, and writes each closed window to Postgres (internal/storage/postgres),
-- with its progress in a file or in the database.
--
-- Which file models what:
--   Errors            the errors, by cause; their texts are left out
--   Text              strings, as the list of their bytes: package strings, of which ASCII is modelled
--                     in `ToLower` and `TrimSpace`; Text/Decimal has strconv and the decimal texts of
--                     `big.Int`
--   Model             internal/model
--   Chain             internal/chain/client.go
--   Dex/Library       go-ethereum: hexadecimal texts, ABIs; a parameter
--   Dex/Abi           the ABIs as data: internal/dex/abi.go and erc20_abi.go
--   Dex/Values        the conversions in internal/dex/metadata.go
--   Dex/Cache         both caches of internal/dex/metadata.go
--   Dex/TokenMeta     `callPoolMethod` and `FetchTokenMeta` of internal/dex/metadata.go
--   Dex/PoolMeta      `FetchPoolMeta` and `FetchPoolOptionalMeta` of internal/dex/metadata.go, and
--                     `getPoolMeta` of internal/dex/v3_pool_decoder.go
--   Dex/Events        the decoders of the four events in internal/dex/v3_pool_decoder.go
--   Dex/Decoder       `NewV3PoolDecoder`, `CanDecode` and `Decode` of internal/dex/v3_pool_decoder.go
--   Dex/Sample        instances of go-ethereum for tests
--   Storage/Files     the calls of package os, and the write through a temporary file that
--                     internal/indexer/checkpoint.go and internal/aggregate/state.go have in common
--   Storage/Jsonl     internal/storage/jsonl.go
--   Storage/Postgres  internal/storage/postgres/store.go, with the tables of migrations/001_init.sql
--   Indexer           internal/indexer: Range, Retry, Checkpoint, Parse, and Runner, which also has
--                     transform.go
--   Aggregate         internal/aggregate: Accumulator; Format for helpers.go; State for state.go and
--                     state_db.go; Tokens for token_cache.go and tvl.go; Window, Session, Flush and
--                     Run for aggregator.go
--   Config            internal/config: the parsing of lists, maps and timestamps; Load for the three
--                     functions that read a configuration, with viper as a parameter
--   Commands          cmd/indexer: Run for main.go, Aggregate for aggregate.go, Decode and Writer for
--                     decode.go; Services is what they take from outside
--   Prelude           names and lemmas that the modules share; Go's map is Prelude/Dict, `big.Int` is
--                     Prelude/Int
--
-- State is passed explicitly: a call takes the state that it may change and returns the new one beside
-- its result, also when the result is an error, since what Go wrote before an error stays written. The
-- node, the file system, the database and the sink are parameters that say, for the number of requests
-- made so far, what each answers or how it fails; so every theorem holds for every sequence of faults.
-- A context's cancellation is part of these answers. The order in which Go ranges over a map is a
-- parameter as well. JSON and ABIs are parameters; a hypothesis on them stands with the theorem that
-- needs it.
--
-- Numbers are natural, and a uint64 keeps its wrap-around, `% 2 ^ 64`, where the code computes one. The
-- loop of `SplitRange` is on fuel, one round for each block, which is enough because each round takes
-- one block at least; where the fuel runs out the model returns `out_of_fuel`, and the theorem on the
-- ranges excludes that. `withRetry` recurs on the retries that are left. All other loops recur on a
-- list. The digits of a number n are printed with n rounds of fuel, one for each digit at most.
--
-- Not modelled: the declaration of the flags by cobra, logging, the mutexes of the caches, since two
-- tasks never share one, and the closing of connections and files. A connection is there or it fails
-- before a command begins its work. A scanner's lines and its error are an input of `Run` and of the
-- decode command. The Go types of the values that package abi unpacks are those of Dex/Values; which
-- one each ABI type has is a hypothesis of the theorem that needs it. A failed flush of the decode
-- command's files does not keep what part of the buffer reached the file, and one of the indexer's sink
-- keeps whole records. A writer of decode.go starts with an empty file, as it is only called without
-- append. Where the aggregator converts the seconds of a window, its start and its end to int64, they
-- stay natural numbers. A batch of upserts is one
-- request, which the database applies or refuses as a whole.
pub mod Prelude
pub mod Errors
pub mod Text
pub mod Model
pub mod Storage
pub mod Chain
pub mod Dex
pub mod Config
pub mod Commands
pub mod Indexer
pub mod Aggregate
