-- ===== src/Dex/Events/Typed.antt =====
-- The conversions of the four decoders against the ABI: which Go type package abi gives a value of each
-- ABI type, and which errors can be left then.
use liquidity_scope.Prelude.{
  ℕ, ◌≡◌, refl, Bool, true, false, ◌||◌, Option, none, some, List, [], ◌∷◌, ◌==◌, nat_eq, list_eq,
  pair_eq, if◌then◌else◌, Result, ok, err, ◌>>=◌,
}
use liquidity_scope.Prelude.Int.{ℤ, pos, negsuc}
use liquidity_scope.Errors.{Error, bad_topic, topic_length, topic_count, bad_data, int24_overflow}
use liquidity_scope.Text.{Text}
use liquidity_scope.Chain.{Address}
use liquidity_scope.Dex.Abi.{
  AbiType, Event, kinds, non_indexed, indexed_arguments, swap_event, mint_event, burn_event,
  collect_event,
}
use liquidity_scope.Dex.Values.{
  Value, as_big_int, as_address, int24_from_big, big_int, uint8, uint16, uint32, uint64, int8,
  int16, int32, int64, address, string, bytes32, bool,
}
use liquidity_scope.Dex.Library.{Ethereum, Topic, addr, int}
use liquidity_scope.Dex.Events.{
  tail, parse_topic_hashes, parse_indexed_topics, event_topics, two_addresses, owner_and_ticks,
  swap_values, mint_values, burn_values, collect_values,
}

-- The widths that Go has a type of.
abbrev pub is_native : ℕ → Bool
is_native bits = bits == 8 || bits == 16 || bits == 32 || bits == 64

-- The Go type of a value: package abi gives a `big.Int` for a width that Go does not have.
pub data HasType : AbiType → Value → Type 0 where
  is_address : (a : Address) → HasType AbiType.address (address a)
  is_bool : (b : Bool) → HasType AbiType.bool (bool b)
  is_string : (t : Text) → HasType AbiType.string (string t)
  is_bytes32 : (t : Text) → HasType AbiType.bytes32 (bytes32 t)
  is_int8 : (z : ℤ) → HasType (AbiType.int 8) (int8 z)
  is_int16 : (z : ℤ) → HasType (AbiType.int 16) (int16 z)
  is_int32 : (z : ℤ) → HasType (AbiType.int 32) (int32 z)
  is_int64 : (z : ℤ) → HasType (AbiType.int 64) (int64 z)
  is_uint8 : (n : ℕ) → HasType (AbiType.uint 8) (uint8 n)
  is_uint16 : (n : ℕ) → HasType (AbiType.uint 16) (uint16 n)
  is_uint32 : (n : ℕ) → HasType (AbiType.uint 32) (uint32 n)
  is_uint64 : (n : ℕ) → HasType (AbiType.uint 64) (uint64 n)
  is_big_int : (bits : ℕ) (z : ℤ) → is_native bits ≡ false → HasType (AbiType.int bits) (big_int z)
  is_big_uint :
      (bits : ℕ) (n : ℕ) → is_native bits ≡ false → HasType (AbiType.uint bits) (big_int (pos n))

pub data HaveTypes : List AbiType → List Value → Type 0 where
  no_more : HaveTypes [] []
  more :
      {kind : AbiType} {kinds : List AbiType} {value : Value} {values : List Value}
      → HasType kind value
      → HaveTypes kinds values
      → HaveTypes (kind ∷ kinds) (value ∷ values)

-- The errors that a log can be to blame for.
abbrev pub of_log : Error → Bool
of_log bad_topic = true
of_log (topic_length n) = true
of_log (topic_count n k) = true
of_log bad_data = true
of_log int24_overflow = true
of_log _ = false

abbrev pub OfLog : {A : Type 0} → Result Error A → Type 0
OfLog (ok a) = Unit
OfLog (err e) = of_log e ≡ true

pub bind-OfLog :
    {A B : Type 0} (r : Result Error A) (f : A → Result Error B)
    → OfLog r
    → ((a : A) → r ≡ ok a → OfLog (f a))
    → OfLog (r >>= f)
bind-OfLog (ok a) f h k = k a refl
bind-OfLog (err e) f h k = h

pub as_big_int-int :
    {bits : ℕ} {v : Value} → HasType (AbiType.int bits) v → (z : ℤ) × (as_big_int v ≡ ok z)
unfolding as_big_int
as_big_int-int (is_int8 z) = (z, refl)
as_big_int-int (is_int16 z) = (z, refl)
as_big_int-int (is_int32 z) = (z, refl)
as_big_int-int (is_int64 z) = (z, refl)
as_big_int-int (is_big_int bits z h) = (z, refl)

pub as_big_int-uint :
    {bits : ℕ} {v : Value} → HasType (AbiType.uint bits) v → (z : ℤ) × (as_big_int v ≡ ok z)
unfolding as_big_int
as_big_int-uint (is_uint8 n) = (pos n, refl)
as_big_int-uint (is_uint16 n) = (pos n, refl)
as_big_int-uint (is_uint32 n) = (pos n, refl)
as_big_int-uint (is_uint64 n) = (pos n, refl)
as_big_int-uint (is_big_uint bits n h) = (pos n, refl)

pub as_address-address :
    {v : Value} → HasType AbiType.address v → (a : Address) × (as_address v ≡ ok a)
unfolding as_address
as_address-address (is_address a) = (a, refl)

if-OfLog :
    {A : Type 0} (b : Bool) (r : Result Error A) (e : Error)
    → OfLog r
    → of_log e ≡ true
    → OfLog (if b then r else err e)
if-OfLog true r e h k = h
if-OfLog false r e h k = k

or_else-OfLog :
    {A : Type 0} (b : Bool) (r : Result Error A) (e : Error)
    → of_log e ≡ true
    → OfLog r
    → OfLog (if b then err e else r)
or_else-OfLog true r e h k = h
or_else-OfLog false r e h k = k

pub option-OfLog :
    {A B : Type 0} (x : Option A) (e : Error) (f : A → Result Error B)
    → of_log e ≡ true
    → ((a : A) → OfLog (f a))
    → OfLog (elim x [ none ↦ err e | some a ↦ f a ])
option-OfLog none e f h k = h
option-OfLog (some a) e f h k = k a

int24_from_big-OfLog : (z : ℤ) → OfLog (int24_from_big z)
unfolding int24_from_big
int24_from_big-OfLog (pos n) = if-OfLog _ (ok (pos n)) int24_overflow tt refl
int24_from_big-OfLog (negsuc n) = if-OfLog _ (ok (negsuc n)) int24_overflow tt refl

-- The last two steps of the decoders of positions.
two_ticks-OfLog :
    {A : Type 0} (lower upper : ℤ) (f : ℤ → ℤ → A)
    → OfLog (int24_from_big lower >>= λ x. int24_from_big upper >>= λ y. ok (f x y))
two_ticks-OfLog lower upper f =
    bind-OfLog (int24_from_big lower) _ (int24_from_big-OfLog lower)
      λ x _. bind-OfLog (int24_from_big upper) _ (int24_from_big-OfLog upper) λ y _. tt

module _ (eth : Ethereum) where
  parse_topic_hashes-OfLog : (topics : List Text) → OfLog (parse_topic_hashes eth topics)
  unfolding parse_topic_hashes
  parse_topic_hashes-OfLog [] = tt
  parse_topic_hashes-OfLog (topic ∷ topics) =
      option-OfLog (eth.hex_decode topic) bad_topic _ refl λ _.
        or_else-OfLog _ _ (topic_length _) refl
          (bind-OfLog (parse_topic_hashes eth topics) _ (parse_topic_hashes-OfLog topics) λ _ _. tt)

  pub event_topics-OfLog :
      (event : Event) (topics : List Text) → OfLog (event_topics eth event topics)
  unfolding event_topics parse_indexed_topics
  event_topics-OfLog event topics =
      bind-OfLog (parse_indexed_topics eth event topics) _
        (if-OfLog _ (parse_topic_hashes eth (tail eth topics)) _
          (parse_topic_hashes-OfLog (tail eth topics)) refl)
        λ hashes _.
          option-OfLog (eth.parse_topics (indexed_arguments event.inputs) hashes) bad_topic _ refl
            λ _. tt

  pub two_addresses-OfLog : (topics : List Topic) → OfLog (two_addresses eth topics)
  two_addresses-OfLog (addr sender ∷ addr recipient ∷ []) = tt
  two_addresses-OfLog [] = refl
  two_addresses-OfLog (int x ∷ topics) = refl
  two_addresses-OfLog (addr x ∷ []) = refl
  two_addresses-OfLog (addr x ∷ int y ∷ topics) = refl
  two_addresses-OfLog (addr x ∷ addr y ∷ topic ∷ topics) = refl

  pub owner_and_ticks-OfLog : (topics : List Topic) → OfLog (owner_and_ticks eth topics)
  owner_and_ticks-OfLog (addr owner ∷ int lower ∷ int upper ∷ []) = tt
  owner_and_ticks-OfLog [] = refl
  owner_and_ticks-OfLog (int x ∷ topics) = refl
  owner_and_ticks-OfLog (addr x ∷ []) = refl
  owner_and_ticks-OfLog (addr x ∷ addr y ∷ topics) = refl
  owner_and_ticks-OfLog (addr x ∷ int y ∷ []) = refl
  owner_and_ticks-OfLog (addr x ∷ int y ∷ addr z ∷ topics) = refl
  owner_and_ticks-OfLog (addr x ∷ int y ∷ int z ∷ topic ∷ topics) = refl

  pub swap_values-OfLog :
      (who : Address × Address) (values : List Value)
      → HaveTypes (kinds (non_indexed swap_event.inputs)) values
      → OfLog (swap_values eth who values)
  unfolding non_indexed
  swap_values-OfLog who _ (more h0 (more h1 (more h2 (more h3 (more h4 no_more))))) =
      let (z0, e0) = as_big_int-int h0 in
      let (z1, e1) = as_big_int-int h1 in
      let (z2, e2) = as_big_int-uint h2 in
      let (z3, e3) = as_big_int-uint h3 in
      let (z4, e4) = as_big_int-int h4 in
      rw (e0, e1, e2, e3, e4) (bind-OfLog (int24_from_big z4) _ (int24_from_big-OfLog z4) λ _ _. tt)

  pub mint_values-OfLog :
      (who : Address × ℤ × ℤ) (values : List Value)
      → HaveTypes (kinds (non_indexed mint_event.inputs)) values
      → OfLog (mint_values eth who values)
  unfolding non_indexed
  mint_values-OfLog (_, lower, upper) _ (more h0 (more h1 (more h2 (more h3 no_more)))) =
      let (a, e0) = as_address-address h0 in
      let (z1, e1) = as_big_int-uint h1 in
      let (z2, e2) = as_big_int-uint h2 in
      let (z3, e3) = as_big_int-uint h3 in rw (e0, e1, e2, e3) (two_ticks-OfLog lower upper _)

  pub burn_values-OfLog :
      (who : Address × ℤ × ℤ) (values : List Value)
      → HaveTypes (kinds (non_indexed burn_event.inputs)) values
      → OfLog (burn_values eth who values)
  unfolding non_indexed
  burn_values-OfLog (_, lower, upper) _ (more h0 (more h1 (more h2 no_more))) =
      let (z0, e0) = as_big_int-uint h0 in
      let (z1, e1) = as_big_int-uint h1 in
      let (z2, e2) = as_big_int-uint h2 in rw (e0, e1, e2) (two_ticks-OfLog lower upper _)

  pub collect_values-OfLog :
      (who : Address × ℤ × ℤ) (values : List Value)
      → HaveTypes (kinds (non_indexed collect_event.inputs)) values
      → OfLog (collect_values eth who values)
  unfolding non_indexed
  collect_values-OfLog (_, lower, upper) _ (more h0 (more h1 (more h2 no_more))) =
      let (a, e0) = as_address-address h0 in
      let (z1, e1) = as_big_int-uint h1 in
      let (z2, e2) = as_big_int-uint h2 in rw (e0, e1, e2) (two_ticks-OfLog lower upper _)
