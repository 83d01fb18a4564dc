-- ===== src/Common/Strings.antt =====
-- strconv, strings.Split and encoding/hex.
pub mod Decimal
pub mod Parts
use Prim.Native.Nat.{◌^◌}
use ravenguard.Common.{
  ℕ, zero, suc, ◌+◌, ◌-◌, ◌*◌, ◌/◌, ◌%◌, Bool, true, false, ◌&&◌, not, Option, none, some, List, [],
  ◌∷◌, ltb, leb, ◌==◌, if◌then◌else◌, Bytes,
}
use ravenguard.Common.Int64.{Int64}

abbrev pub is_digit : ℕ → Bool
is_digit c = leb b'0' c && leb c b'9'

-- The decimal digits of a number, before those of `acc`.
unfoldable pub format_digits : ℕ → ℕ → Bytes → Bytes
format_digits zero n acc = acc
format_digits (suc fuel) n acc =
    let rest = format_digits fuel (n / 10) ((48 + n % 10) ∷ acc) in
    if ltb n 10 then (48 + n) ∷ acc else rest

-- A number below 2 ^ 64 has at most 20 digits.
abbrev pub format_uint : ℕ → Bytes
format_uint n = format_digits 20 n []

-- strconv.AppendInt(_, n, 10), which %d prints too.
unfoldable pub format_int : Int64 → Bytes
format_int n = if leb (2 ^ 63) n then b'-' ∷ format_uint (2 ^ 64 - n) else format_uint n

unfoldable pub parse_digits : Bytes → ℕ → Option ℕ
parse_digits [] n = some n
parse_digits (c ∷ s) n =
    let rest = parse_digits s (n * 10 + (c - 48)) in if is_digit c then rest else none

unfoldable pub in_range : Bool → Option ℕ → Option Int64
in_range negative none = none
in_range true (some n) = if ltb (2 ^ 63) n then none else some ((2 ^ 64 - n) % 2 ^ 64)
in_range false (some n) = if leb (2 ^ 63) n then none else some n

unfoldable pub parse_unsigned : Bytes → Option ℕ
unfolding parse_digits
parse_unsigned [] = none
parse_unsigned (c ∷ s) = parse_digits (c ∷ s) 0

-- strconv.ParseInt(s, 10, 64), and strconv.Atoi; an error is none.
unfoldable pub parse_int : Bytes → Option Int64
unfolding parse_unsigned in_range
parse_int [] = none
parse_int (c ∷ s) =
    if c == b'-'
    then in_range true (parse_unsigned s)
    else if c == b'+'
    then in_range false (parse_unsigned s)
    else in_range false (parse_unsigned (c ∷ s))

abbrev pub onto_first : ℕ → List Bytes → List Bytes
onto_first c [] = (c ∷ []) ∷ []
onto_first c (p ∷ ps) = (c ∷ p) ∷ ps

-- strings.Split with a separator of one byte.
unfoldable pub split : ℕ → Bytes → List Bytes
split sep [] = [] ∷ []
split sep (c ∷ s) = let rest = split sep s in if c == sep then [] ∷ rest else onto_first c rest

abbrev hex_digit : ℕ → ℕ
hex_digit n = if ltb n 10 then 48 + n else 87 + n

-- hex.EncodeToString
unfoldable pub hex : Bytes → Bytes
hex [] = []
hex (b ∷ s) = hex_digit (b / 16 % 16) ∷ hex_digit (b % 16) ∷ hex s
