-- ===== src/Errors.antt =====
-- The errors that the Go code returns. A message's parameters are kept where a caller or a
-- record of the output shows them; `outside` is an error that a library or a service returned.
use liquidity_scope.Prelude.{ℕ, nat_eq, list_eq, pair_eq}

pub data Error : Type 0 where
  -- internal/indexer/range.go, runner.go
  batch_size_zero to_before_from nil_chain nil_storage no_address chain_id_too_large : Error
  -- a loop of the model that ran out of fuel: no call of the program returns it
  out_of_fuel : Error
  -- the context was cancelled
  cancelled : Error
  -- internal/indexer/checkpoint.go
  checkpoint_is_directory bad_checkpoint : Error
  -- internal/indexer/parse.go
  invalid_address invalid_topic0 invalid_topic0_length : Error
  -- internal/aggregate
  nil_store zero_window invalid_int bad_swap bad_state invalid_token balance_failed : Error
  -- internal/dex
  missing_topics missing_topic0 unsupported_topic0 invalid_pool unsupported_event unsupported_name :
      Error
  topic_count : ℕ → ℕ → Error
  topic_length value_count : ℕ → Error
  bad_topic bad_data unsupported_type int24_overflow parse_abi : Error
  -- internal/config
  bad_number bad_time : Error
  -- cmd/indexer
  missing_rpc missing_input missing_output missing_errors_path missing_dsn : Error
  missing_addresses bad_window window_not_positive window_too_short : Error
  -- internal/storage
  no_state_name no_dsn : Error
  -- package os
  is_directory no_such_file : Error
  outside : ℕ → Error
