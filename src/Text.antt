-- ===== src/Text.antt =====
-- Go's strings as lists of bytes, with what the program uses of the packages strings, bytes and
-- strconv. Case and white space are those of ASCII: the addresses, hashes, names and numbers that
-- the program handles are ASCII.
pub mod Trim
pub mod Decimal
use Prim.Native.Char.{code}
use liquidity_scope.Prelude.{
  refl, ◌≡◌, arith, ◌≡◌, ℕ, ◌+◌, ◌-◌, Bool, true, false, ◌&&◌, ◌||◌, not, String, List, [], ◌∷◌,
  map, leb, ◌==◌, nat_eq, if◌then◌else◌, is_empty,
}

abbrev pub Text : Type 0
Text = List ℕ

abbrev pub codes : String → Text
codes String.[] = []
codes (String.◌∷◌ c s) = code c ∷ codes s

lower_byte : ℕ → ℕ
lower_byte c = if leb b'A' c && leb c b'Z' then c + 32 else c

-- `strings.ToLower`
unfoldable pub to_lower : Text → Text
unfolding lower_byte
to_lower = map lower_byte

-- The white space of ASCII: \t \n \v \f \r and the blank.
abbrev pub is_space : ℕ → Bool
is_space c = (leb 9 c && leb c 13) || c == 32

trim_left : Text → Text
trim_left [] = []
trim_left (c ∷ s) = if is_space c then trim_left s else c ∷ s

trim_right : Text → Text
trim_right [] = []
trim_right (c ∷ s) = let rest = trim_right s in if is_empty rest && is_space c then [] else c ∷ rest

-- `strings.TrimSpace`, `bytes.TrimSpace`
unfoldable pub trim_space : Text → Text
unfolding trim_left trim_right
trim_space s = trim_right (trim_left s)

abbrev push_first : ℕ → List Text → List Text
push_first c [] = (c ∷ []) ∷ []
push_first c (part ∷ parts) = (c ∷ part) ∷ parts

-- `strings.Split` by one byte
unfoldable pub split : ℕ → Text → List Text
split sep [] = [] ∷ []
split sep (c ∷ s) = let parts = split sep s in if c == sep then [] ∷ parts else push_first c parts

abbrev push_key : ℕ → Text × List Text → Text × List Text
push_key c (key, rest) = (c ∷ key, rest)

-- `strings.SplitN(s, sep, 2)`: what stands before the first `sep`, and the rest if there is a `sep`
unfoldable pub split_first : ℕ → Text → Text × List Text
split_first sep [] = ([], [])
split_first sep (c ∷ s) =
    let later = split_first sep s in if c == sep then ([], s ∷ []) else push_key c later

-- `strings.TrimRight(s, c)` for one byte
unfoldable pub trim_right_byte : ℕ → Text → Text
trim_right_byte b [] = []
trim_right_byte b (c ∷ s) =
    let rest = trim_right_byte b s in if is_empty rest && c == b then [] else c ∷ rest

lower_byte_idem : (c : ℕ) → lower_byte (lower_byte c) ≡ lower_byte c
unfolding lower_byte
lower_byte_idem c = ground arith

pub to_lower_idem : (s : Text) → to_lower (to_lower s) ≡ to_lower s
unfolding to_lower
to_lower_idem [] = refl
to_lower_idem (c ∷ s) = cc (lower_byte_idem c, to_lower_idem s)
