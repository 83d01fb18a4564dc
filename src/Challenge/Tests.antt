-- ===== src/Challenge/Tests.antt =====
-- Challenges at concrete inputs, with a toy hash in place of HMAC-SHA256 and SHA-256.
use ravenguard.Common.{
  ℕ, ◌≡◌, ◌≤◌, ◌+◌, ◌%◌, refl, true, false, [], ◌∷◌, ◌++◌, List, none, some, arith, Bytes, bytes,
  ◌<◌, if◌then◌else◌, str_eq, str_eq_iff, Bool-cases, inl, inr,
}
use ravenguard.Common.Sharded
use ravenguard.Common.Dict
use ravenguard.Common.Int64.{Int64, ltb_int, sub_int}
use ravenguard.Challenge.Nonces.{Token, NonceStore, consume_nonce, consume, sweep}
use ravenguard.Challenge.Nonces.Once.{NonceOp, do_consume, do_sweep, uses, redeems, step, uses_once}
use ravenguard.Common.Strings.{
  format_int, format_uint, parse_int, split, hex, format_digits, parse_digits,
}
use ravenguard.Challenge.Token.{parsed, payload, issue, parse_token, sign, new_token, message}
use ravenguard.Challenge.Token.RoundTrip.{parse_token-issue}
use ravenguard.Challenge.Token.Signed.{parse_token-signed}
use ravenguard.Challenge.Pow.{
  check_pow, leading_zero_bits, verify_pow, parse_uint, solve_from, solve_pow, solve_pow-finds,
}

-- The sum of the bytes of the key and of the message.
abbrev sum : Bytes → ℕ
sum [] = 0
sum (c ∷ s) = (c + sum s) % 256

abbrev toy : Bytes → Bytes → Bytes
toy key text = sum (key ++ text) ∷ []

runs : Unit {0}
unfolding consume_nonce consume sweep uses redeems step Sharded.empty Sharded.get Sharded.put
    Sharded.keep Dict.get Dict.put Dict.keep ltb_int format_int parse_int split hex format_digits
    parse_digits parse_token payload issue sign message check_pow leading_zero_bits verify_pow
    parse_uint solve_from solve_pow
runs = tt

abbrev client : Bytes
client = bytes "10.0.0.1"

abbrev random : Bytes
random = 171 ∷ 7 ∷ []

abbrev token : Token
token = new_token toy random 1000 4

abbrev raw : Bytes
raw = payload toy (bytes "key") client token

random_digits : hex random ≡ bytes "ab07"
unfolding hex
random_digits = refl

minus_five : parse_int (bytes "-5") ≡ some 18446744073709551611
unfolding parse_int
minus_five = refl

too_large : parse_int (bytes "9223372036854775808") ≡ none
unfolding parse_int
too_large = refl

nine_zeros : leading_zero_bits (0 ∷ 64 ∷ 255 ∷ []) ≡ 9
unfolding leading_zero_bits
nine_zeros = refl

abbrev calls : List NonceOp
calls =
    do_consume token 1001
    ∷ do_consume token 1002
    ∷ do_sweep 1300
    ∷ do_consume token 1300
    ∷ do_sweep 1301
    ∷ do_consume token 1301
    ∷ []

abbrev empty_store : NonceStore
empty_store = Sharded.empty 256

used_once : uses token calls empty_store ≡ 1
unfolding runs
used_once = refl

uses_once_example : uses token calls empty_store ≤ 1
uses_once_example = uses_once token 1000 calls empty_store (
  omega arith,
  omega arith,
  (
    omega arith,
    omega arith,
    (
      omega arith,
      omega arith,
      (omega arith, omega arith, (omega arith, omega arith, (omega arith, omega arith, tt))),
    ),
  ),
)

parse_token-issue_example : parse_token toy (bytes "key") client 1300 raw ≡ parsed token
unfolding ltb_int
parse_token-issue_example =
    parse_token-issue toy (bytes "key") client raw 4 1000 1300 (some random) token (omega arith)
      (omega arith) (unfold issue in refl)

still_valid : parse_token toy (bytes "key") client 1300 raw ≡ parsed token
unfolding runs
still_valid = refl

abbrev signed_text : Bytes
signed_text = message token.nonce token.issued_at token.difficulty client

-- A code that tells one message from all others.
abbrev strict : Bytes → Bytes → Bytes
strict key text = if str_eq text signed_text then 1 ∷ [] else 2 ∷ []

alone :
    (m : Bytes)
    → hex (strict (bytes "key") m)
      ≡ sign strict (bytes "key") token.nonce token.issued_at token.difficulty client
    → m ≡ signed_text
unfolding sign hex
alone m e = elim (Bool-cases (str_eq m signed_text)) [
  | inl p ↦ (str_eq_iff m signed_text).0 p
  | inr p ↦ absurd (unfold runs in (ground (arith, p, e)))
]

abbrev strict_raw : Bytes
strict_raw = payload strict (bytes "key") client token

parse_token-signed_example :
    (token ≡ token) × (client ≡ client) × (ltb_int 300 (sub_int 1300 1000) ≡ false)
parse_token-signed_example =
    parse_token-signed strict (bytes "key") client client strict_raw strict_raw 1300 1000 4
      (some random) token token (omega arith) (omega arith) (unfold issue in refl) alone refl
      (unfold runs in refl)

abbrev issued : Int64
issued = 1000

abbrev bits : Int64
bits = 4

-- A hash that starts with the bits of the last byte of the solution, in reverse roles: one byte.
abbrev toy_sha : Bytes → Bytes
toy_sha s = sum s ∷ []

abbrev puzzle : Token
puzzle = record { nonce = bytes "n"; issued_at = 1000; difficulty = 3 }

abbrev least : ℕ
least = 88

solved : solve_pow toy_sha puzzle.nonce puzzle.difficulty ≡ some least
unfolding runs
solved = refl

solve_pow-finds_example :
    (n : ℕ) × (solve_pow toy_sha puzzle.nonce puzzle.difficulty ≡ some n)
    × (n ≤ 90)
    × (check_pow toy_sha puzzle.nonce n puzzle.difficulty ≡ true)
    × (verify_pow toy_sha puzzle (format_uint n) ≡ true)
    × ((j : ℕ) → j < n → check_pow toy_sha puzzle.nonce j puzzle.difficulty ≡ false)
solve_pow-finds_example = solve_pow-finds toy_sha puzzle 90 (omega arith) (unfold runs in refl)
