-- ===== src/Dex/Values.antt =====
-- The conversions at the end of internal/dex/metadata.go: what `abi.Unpack` returns has a dynamic
-- type, one of those below.
use liquidity_scope.Prelude.{
  ℕ, suc, ◌-◌, ◌%◌, ◌^◌, Bool, Option, none, some, leb, nat_eq, list_eq, pair_eq, if◌then◌else◌,
  Result, ok, err,
}
use liquidity_scope.Prelude.Int.{ℤ, pos, negsuc, abs}
use liquidity_scope.Errors.{Error, unsupported_type, int24_overflow}
use liquidity_scope.Text.{Text, trim_right_byte}
use liquidity_scope.Chain.{Address}

pub data Value : Type 0 where
  big_int : ℤ → Value
  uint8 uint16 uint32 uint64 : ℕ → Value
  int8 int16 int32 int64 : ℤ → Value
  address : Address → Value
  string : Text → Value
  bytes32 bytes : Text → Value
  bool : Bool → Value

-- `bytes32ToString`
unfoldable pub bytes32_to_string : Value → Option Text
bytes32_to_string (bytes32 v) = some (trim_right_byte 0 v)
bytes32_to_string (bytes v) = some (trim_right_byte 0 v)
bytes32_to_string _ = none

-- `asAddress`
unfoldable pub as_address : Value → Result Error Address
as_address (address v) = ok v
as_address _ = err unsupported_type

-- `asBigInt`
unfoldable pub as_big_int : Value → Result Error ℤ
as_big_int (big_int v) = ok v
as_big_int (uint8 v) = ok (pos v)
as_big_int (uint16 v) = ok (pos v)
as_big_int (uint32 v) = ok (pos v)
as_big_int (uint64 v) = ok (pos v)
as_big_int (int8 v) = ok v
as_big_int (int16 v) = ok v
as_big_int (int32 v) = ok v
as_big_int (int64 v) = ok v
as_big_int _ = err unsupported_type

-- `asUint8`: a wider number keeps its low eight bits; `Uint64` of a `big.Int` is taken of its
-- absolute value.
unfoldable pub as_uint8 : Value → Result Error ℕ
as_uint8 (uint8 v) = ok v
as_uint8 (uint16 v) = ok (v % 2 ^ 8)
as_uint8 (uint32 v) = ok (v % 2 ^ 8)
as_uint8 (uint64 v) = ok (v % 2 ^ 8)
as_uint8 (big_int v) = ok (abs v % 2 ^ 64 % 2 ^ 8)
as_uint8 _ = err unsupported_type

-- `int24FromBig`
unfoldable pub int24_from_big : ℤ → Result Error ℤ
int24_from_big (pos n) = if leb n (2 ^ 23 - 1) then ok (pos n) else err int24_overflow
int24_from_big (negsuc n) = if leb (suc n) (2 ^ 23) then ok (negsuc n) else err int24_overflow
