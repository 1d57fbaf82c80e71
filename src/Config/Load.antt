-- ===== src/Config/Load.antt =====
-- The three functions of internal/config that read the configuration of a command. Package viper is a
-- parameter: how it merges flags, the environment, a file and the defaults.
use liquidity_scope.Prelude.{
  ℕ, Bool, true, false, not, Option, none, some, List, [], ◌∷◌, nat_eq, list_eq, pair_eq,
  if◌then◌else◌, Result, ok, err, is_empty, ◌>>=◌,
}
use liquidity_scope.Prelude.Dict.{Dict}
use liquidity_scope.Prelude.Int.{ℤ}
use liquidity_scope.Errors.{Error}
use liquidity_scope.Text.{Text, codes}
use liquidity_scope.Config.{clean_strings, split_and_clean, parse_string_map}

-- The dynamic types of a setting that the program tells apart. The items of a list or a map of any
-- type are what fmt prints of them.
pub data Setting : Type 0 where
  strings items : List Text → Setting
  text : Text → Setting
  string_map item_map : Dict Text Text → Setting
  other : Setting

pub data Default : Type 0 where
  text_default : Text → Default
  number_default : ℕ → Default
  bool_default : Bool → Default

-- The getters of a viper that has read its sources.
pub record Settings : Type 0 where
  pub is_set : Text → Bool
  pub get : Text → Setting
  pub get_string : Text → Text
  pub get_uint64 : Text → ℕ
  pub get_int : Text → ℤ
  pub get_bool : Text → Bool
  pub get_duration : Text → ℤ

pub data ReadFailure : Type 0 where
  not_found unreadable : Error → ReadFailure

-- `BindPFlags`; `ReadInConfig` of a path, or of the file config in the working directory; the settings
-- that follow from the defaults and the file.
pub record Viper : Type 0 where
  pub bind_flags : Option Error
  pub read_path : Text → Option ReadFailure
  pub read_default : Option ReadFailure
  pub settings : List (Text × Default) → Text → Settings

abbrev read_failure : ReadFailure → Error
read_failure (not_found e) = e
read_failure (unreadable e) = e

-- The file that is named must be there; the default one need not.
abbrev config_failure : Viper → Text → Option Error
config_failure v cfg_file =
    if not (is_empty cfg_file)
    then (elim (v.read_path cfg_file) [ none ↦ none | some f ↦ some (read_failure f) ])
    else (elim v.read_default [
      | none ↦ none
      | some (not_found e) ↦ none
      | some (unreadable e) ↦ some e
    ])

-- The first part of all three functions.
unfoldable pub read_settings : Viper → Text → List (Text × Default) → Result Error Settings
read_settings v cfg_file defaults = elim v.bind_flags [
  | some e ↦ err e
  | none ↦ elim (config_failure v cfg_file) [
    | some e ↦ err e
    | none ↦ ok (v.settings defaults cfg_file)
  ]
]

-- `getStringSlice`
unfoldable pub get_string_slice : Settings → Text → List Text
get_string_slice v key = if not (v.is_set key) then [] else (elim (v.get key) [
  | strings typed ↦ clean_strings typed
  | text typed ↦ split_and_clean typed
  | items typed ↦ clean_strings typed
  | string_map typed ↦ []
  | item_map typed ↦ []
  | other ↦ []
])

-- `getStringMap`
unfoldable pub get_string_map : Settings → Text → Dict Text Text
get_string_map v key = if not (v.is_set key) then [] else (elim (v.get key) [
  | string_map typed ↦ typed
  | item_map typed ↦ typed
  | text typed ↦ parse_string_map typed
  | strings typed ↦ []
  | items typed ↦ []
  | other ↦ []
])

-- `Config`
pub record IndexerConfig : Type 0 where
  pub rpc_url : Text
  pub from_block : ℕ
  pub to_block : ℕ
  pub addresses : List Text
  pub topic0 : List Text
  pub batch_size : ℕ
  pub out : Text
  pub checkpoint : Text
  pub checkpoint_enabled : Bool
  pub max_retries : ℤ
  pub retry_backoff : ℤ
  pub log_level : Text

abbrev indexer_defaults : List (Text × Default)
indexer_defaults =
    (codes "batch-size", number_default 2000)
    ∷ (codes "out", text_default (codes "./data/logs.jsonl"))
    ∷ (codes "checkpoint", text_default (codes "./data/checkpoint.json"))
    ∷ (codes "checkpoint-enabled", bool_default true)
    ∷ (codes "max-retries", number_default 5)
    ∷ (codes "retry-backoff", number_default 500_000_000)
    ∷ (codes "log-level", text_default (codes "info"))
    ∷ []

-- `Load`
unfoldable pub load : Viper → Text → Result Error IndexerConfig
unfolding read_settings get_string_slice
load viper cfg_file = do
  v ← read_settings viper cfg_file indexer_defaults
  ok (record {
    rpc_url = v.get_string (codes "rpc");
    from_block = v.get_uint64 (codes "from");
    to_block = v.get_uint64 (codes "to");
    addresses = get_string_slice v (codes "address");
    topic0 = get_string_slice v (codes "topic0");
    batch_size = v.get_uint64 (codes "batch-size");
    out = v.get_string (codes "out");
    checkpoint = v.get_string (codes "checkpoint");
    checkpoint_enabled = v.get_bool (codes "checkpoint-enabled");
    max_retries = v.get_int (codes "max-retries");
    retry_backoff = v.get_duration (codes "retry-backoff");
    log_level = v.get_string (codes "log-level");
  })

pub record DecodeConfig : Type 0 where
  pub rpc_url : Text
  pub input : Text
  pub out : Text
  pub errors : Text
  pub log_level : Text
  pub topic0_map : Dict Text Text
  pub include_live_meta : Bool

abbrev decode_defaults : List (Text × Default)
decode_defaults =
    (codes "out", text_default (codes "./data/typed_events.jsonl"))
    ∷ (codes "errors", text_default (codes "./data/decode_errors.jsonl"))
    ∷ (codes "include-live-meta", bool_default false)
    ∷ (codes "log-level", text_default (codes "info"))
    ∷ []

-- `LoadDecode`
unfoldable pub load_decode : Viper → Text → Result Error DecodeConfig
unfolding read_settings get_string_map
load_decode viper cfg_file = do
  v ← read_settings viper cfg_file decode_defaults
  ok (record {
    rpc_url = v.get_string (codes "rpc");
    input = v.get_string (codes "in");
    out = v.get_string (codes "out");
    errors = v.get_string (codes "errors");
    log_level = v.get_string (codes "log-level");
    topic0_map = get_string_map v (codes "topic0-map");
    include_live_meta = v.get_bool (codes "include-live-meta");
  })

pub record AggregateConfig : Type 0 where
  pub rpc_url : Text
  pub input : Text
  pub window : Text
  pub pg_dsn : Text
  pub batch_size : ℤ
  pub state_file : Text
  pub recompute_from : Text
  pub log_level : Text

abbrev aggregate_defaults : List (Text × Default)
aggregate_defaults =
    (codes "batch-size", number_default 1000)
    ∷ (codes "log-level", text_default (codes "info"))
    ∷ (codes "window", text_default (codes "5m"))
    ∷ []

-- `LoadAggregate`
unfoldable pub load_aggregate : Viper → Text → Result Error AggregateConfig
unfolding read_settings
load_aggregate viper cfg_file = do
  v ← read_settings viper cfg_file aggregate_defaults
  ok (record {
    rpc_url = v.get_string (codes "rpc");
    input = v.get_string (codes "in");
    window = v.get_string (codes "window");
    pg_dsn = v.get_string (codes "pg-dsn");
    batch_size = v.get_int (codes "batch-size");
    state_file = v.get_string (codes "state-file");
    recompute_from = v.get_string (codes "recompute-from");
    log_level = v.get_string (codes "log-level");
  })
