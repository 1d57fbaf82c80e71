-- ===== src/Commands/Decode.antt =====
-- `runDecode` of cmd/indexer/decode.go. The lines of its input and the scanner's error are inputs, and so
-- is `json.Unmarshal`.
pub mod Outcomes
pub mod Written
pub mod Metadata
use liquidity_scope.Prelude.{
  ℕ, zero, suc, ◌+◌, ◌-◌, ◌*◌, ◌/◌, ◌%◌, ◌^◌, ◌≤◌, ◌<◌, ◌≡◌, refl, sym, ap, ◌∙◌, subst, ◌≢◌, ◌↔◌,
  ◌⊎◌, inl, inr, Bool, true, false, not, ◌&&◌, ◌||◌, Option, none, some, List, [], ◌∷◌, ◌++◌, map,
  append-nil, append_assoc, arith, ltb, leb, ◌==◌, Eq, nat_eq, list_eq, pair_eq, beq_refl,
  if◌then◌else◌, Result, ok, err, is_ok, Bool-cases, Option-cases, length, is_empty, All, replicate,
  ne→beq_false, le→leb, lt→leb_false, le→ltb_false, and_then, ◌>>=◌,
}
use liquidity_scope.Config.Load.{DecodeConfig, load_decode}
use liquidity_scope.Commands.Services.{new_logger, connect, Services, step, require}
use liquidity_scope.Errors.{
  missing_rpc, missing_input, missing_output, missing_errors_path, Error, missing_topic0,
}
use liquidity_scope.Text.{Text, trim_space}
use liquidity_scope.Model.{LogRecord, TypedEvent, DecodeError}
use liquidity_scope.Chain.{new_client, Node, Client}
use liquidity_scope.Dex.Cache
use liquidity_scope.Dex.Library.{Ethereum}
use liquidity_scope.Dex.PoolMeta.{DecodeState}
use liquidity_scope.Dex.Decoder.{Decoder, can_decode, decode, new_decoder}
use liquidity_scope.Commands.Writer
use liquidity_scope.Commands.Writer.{FileCalls, new_jsonl_writer, Writer, Medium, new_writer}

-- The libraries and services, with the texts of the errors.
pub record Outside : Type 0 where
  pub eth : Ethereum
  pub node : Node
  pub out_medium : Medium
  pub err_medium : Medium
  pub unmarshal_log : Text → Result Error LogRecord
  pub message : Error → Text

-- The variables of `runDecode`.
pub record Session : Type 0 where
  pub state : DecodeState
  pub out : Writer TypedEvent
  pub errors : Writer DecodeError
  pub total : ℕ
  pub decoded : ℕ
  pub skipped : ℕ
  pub failed : ℕ

abbrev pub new_session : Client → Session
new_session client = record {
  state = record { client = client; pool_metas = Cache.new_cache; token_metas = Cache.new_cache };
  out = new_writer;
  errors = new_writer;
  total = 0;
  decoded = 0;
  skipped = 0;
  failed = 0;
}

abbrev first_topic : List Text → Text
first_topic [] = []
first_topic (topic ∷ topics) = topic

-- `decodeErrorFromRecord`
unfoldable pub decode_error_of : (Error → Text) → LogRecord → Error → DecodeError
decode_error_of message r e = record {
  chain_id = r.chain_id;
  block_number = r.block_number;
  tx_hash = r.tx_hash;
  log_index = r.log_index;
  address = r.address;
  topic0 = first_topic r.topics;
  message = message e;
}

-- The record of a line that is no JSON of a log.
unfoldable pub bad_line_error : (Error → Text) → Error → DecodeError
bad_line_error message e = record {
  chain_id = 0;
  block_number = 0;
  tx_hash = [];
  log_index = 0;
  address = [];
  topic0 = [];
  message = message e;
}

module _ (env : Outside) (live : Bool) (d : Decoder) where
  -- `failed++` and `writeDecodeError`, whose error is dropped
  unfoldable pub fail_with : DecodeError → Session → Session
  fail_with e s = record s {
    failed = s.failed + 1;
    errors = (Writer.write env.err_medium e s.errors).1;
  }

  -- The end of the loop's body, once `Decode` has answered.
  unfoldable pub emit : LogRecord → Result Error TypedEvent → Session → Result Error Unit × Session
  unfolding fail_with
  emit r (err e) s = (ok tt, fail_with (decode_error_of env.message r e) s)
  emit r (ok event) s =
      let (written, out) = Writer.write env.out_medium event s.out in
      and_then written (record s { out = out })
        λ _ s'. (ok tt, record s' { decoded = s'.decoded + 1 })

  -- The loop's body for a line that is a log record with these topics.
  unfoldable pub handle_topics : List Text → LogRecord → Session → Result Error Unit × Session
  unfolding fail_with emit
  handle_topics [] r s = (ok tt, fail_with (decode_error_of env.message r missing_topic0) s)
  handle_topics (topic0 ∷ topics) r s =
      if not (can_decode env.eth d topic0)
      then (ok tt, record s { skipped = s.skipped + 1 })
      else (let (event, state) = decode env.eth env.node live d r s.state in
          emit r event (record s { state = state }))

  unfoldable pub handle_log : LogRecord → Session → Result Error Unit × Session
  unfolding handle_topics
  handle_log r s = handle_topics r.topics r s

  -- The loop's body.
  unfoldable pub handle_line : Text → Session → Result Error Unit × Session
  unfolding fail_with handle_log
  handle_line line s =
      let content = trim_space line in
      let s' = record s { total = s.total + 1 } in
      if is_empty content then (ok tt, s) else (elim (env.unmarshal_log content) [
        | err e ↦ (ok tt, fail_with (bad_line_error env.message e) s')
        | ok r ↦ handle_log r s'
      ])

  unfoldable pub handle_lines : List Text → Session → Result Error Unit × Session
  handle_lines [] s = (ok tt, s)
  handle_lines (line ∷ lines) s =
      and_then (handle_line line s).0 (handle_line line s).1 λ _ s'. handle_lines lines s'

  -- The deferred `Close` of both writers, whose errors are dropped.
  unfoldable pub close : Session → Session
  close s = record s {
    out = (Writer.flush env.out_medium s.out).1;
    errors = (Writer.flush env.err_medium s.errors).1;
  }

  -- The loop, the scanner's error, and the deferred calls.
  unfoldable pub process : List Text → Option Error → Session → Result Error Unit × Session
  process lines scan_error s =
      let (result, s') = handle_lines lines s in
      let result' =
        and_then result s' λ _ s'. elim scan_error [ some e ↦ (err e, s') | none ↦ (ok tt, s') ] in
      (result'.0, close s')

-- The checks of the configuration, in the code's order, the client and the decoder.
unfoldable pub decoder_of : Services → Ethereum → DecodeConfig → Result Error (Decoder × Client)
decoder_of services eth cfg = do
  _ ← new_logger services cfg.log_level
  _ ← require cfg.rpc_url missing_rpc
  _ ← require cfg.input missing_input
  _ ← require cfg.out missing_output
  _ ← require cfg.errors missing_errors_path
  client ← connect services cfg.rpc_url
  d ← new_decoder eth cfg.topic0_map
  ok (d, client)

abbrev open_files : FileCalls → DecodeConfig → Result Error (Writer TypedEvent × Writer DecodeError)
open_files calls cfg = do
  out ← new_jsonl_writer calls cfg.out false
  errors ← new_jsonl_writer calls cfg.errors false
  ok (out, errors)

-- `runDecode`. The input is what opening and scanning the file at a path gives; Where the
-- command stops before the loop there is no session.
unfoldable pub run_decode :
    Services
    → Outside
    → (Text → Result Error (List Text × Option Error))
    → FileCalls
    → Text
    → Result Error Unit × Option Session
unfolding decoder_of
run_decode services env input_at calls cfg_file = elim (load_decode services.viper cfg_file) [
  | err e ↦ (err e, none)
  | ok cfg ↦ elim (decoder_of services env.eth cfg) [
    | err e ↦ (err e, none)
    | ok (d, client) ↦ elim (input_at cfg.input) [
      | err e ↦ (err e, none)
      | ok (lines, scan_error) ↦ elim (open_files calls cfg) [
        | err e ↦ (err e, none)
        | ok (out, errors) ↦
            let start = record (new_session client) { out = out; errors = errors } in
            let (result, s) = process env cfg.include_live_meta d lines scan_error start in
            (result, some s)
      ]
    ]
  ]
]
