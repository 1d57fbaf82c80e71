-- ===== src/Commands/Services.antt =====
-- What the three commands take from outside before they begin: viper, zap, and the connections.
use liquidity_scope.Prelude.{
  ℕ, Option, none, some, nat_eq, list_eq, pair_eq, if◌then◌else◌, Result, ok, err, is_empty, ◌>>=◌,
}
use liquidity_scope.Errors.{Error}
use liquidity_scope.Text.{Text}
use liquidity_scope.Chain.{Client, new_client}
use liquidity_scope.Prelude.Int.{ℤ}
use liquidity_scope.Config.Load.{Viper}

pub record Services : Type 0 where
  pub viper : Viper
  -- zap: `UnmarshalText` of a level, and `Build`
  pub parse_level : Text → Option Error
  pub build_logger : Option Error
  -- `rpc.DialContext` of a url; `pgxpool.New` of a dsn
  pub dial : Text → Option Error
  pub connect_pool : Text → Option Error
  -- `time.ParseDuration`, in nanoseconds; `uint64(d.Seconds())` of a duration; `time.Parse`
  pub parse_duration : Text → Option ℤ
  pub whole_seconds : ℤ → ℕ
  pub parse_time : Text → Option ℤ

-- A step that only can fail.
abbrev pub step : Option Error → Result Error Unit
step none = ok tt
step (some e) = err e

-- A check that a text is given.
abbrev pub require : Text → Error → Result Error Unit
require value e = if is_empty value then err e else ok tt

module _ (services : Services) where
  -- `newLogger`
  unfoldable pub new_logger : Text → Result Error Unit
  new_logger level = elim (services.parse_level level) [
    | some e ↦ err e
    | none ↦ step services.build_logger
  ]

  -- `NewClient` of internal/chain
  unfoldable pub connect : Text → Result Error Client
  connect url = step (services.dial url) >>= λ _. ok new_client
