-- ===== src/Common/Strings/Decimal.antt =====
-- ParseInt reads what AppendInt prints.
use Prim.Native.Nat.{◌^◌}
use ravenguard.Common.{
  ℕ, zero, suc, ◌+◌, ◌-◌, ◌*◌, ◌/◌, ◌%◌, ◌<◌, ◌≡◌, refl, Bool, true, false, some, [], ◌∷◌, arith,
  ltb, leb, Bytes, All, Bool-cases, inl, inr, ◌∙◌, Option, none, ◌==◌,
}
use mathlib.Core.Option.{some-injective}
use ravenguard.Common.Int64.{Int64}
use ravenguard.Common.Strings.{
  is_digit, format_digits, format_uint, format_int, parse_digits, in_range, parse_unsigned,
  parse_int,
}

-- Ten to the power of a number of digits.
unfoldable limit : ℕ → ℕ
limit zero = 1
limit (suc n) = 10 * limit n

parse_digits-format_digits :
    (fuel n : ℕ) (acc : Bytes)
    → n < limit fuel
    → parse_digits (format_digits fuel n acc) 0 ≡ parse_digits acc n
unfolding limit format_digits parse_digits
parse_digits-format_digits zero n acc h = ground (arith, h)
parse_digits-format_digits (suc fuel) n acc h = elim (Bool-cases (ltb n 10)) [
  | inl p ↦
      let add_zero : 0 * 10 + (48 + n - 48) ≡ n = omega arith in
      let digit : is_digit (48 + n) ≡ true = ground (arith, p) in
      rw (p, parse_digits, digit, add_zero)
  | inr p ↦
      let small : n / 10 < limit fuel = omega (arith, h) in
      let again : n / 10 * 10 + (48 + n % 10 - 48) ≡ n = omega arith in
      let digit : is_digit (48 + n % 10) ≡ true = ground arith in
      rw (
        p,
        parse_digits-format_digits fuel (n / 10) ((48 + n % 10) ∷ acc) small,
        parse_digits,
        digit,
        again,
      )
]

pub format_digits-digits :
    (fuel n : ℕ) (acc : Bytes)
    → All (λ c. is_digit c ≡ true) acc
    → All (λ c. is_digit c ≡ true) (format_digits fuel n acc)
unfolding format_digits
format_digits-digits zero n acc h = h
format_digits-digits (suc fuel) n acc h = elim (Bool-cases (ltb n 10)) [
  | inl p ↦ let digit : is_digit (48 + n) ≡ true = ground (arith, p) in rw p (digit, h)
  | inr p ↦
      let digit : is_digit (48 + n % 10) ≡ true = ground arith in
      rw p (format_digits-digits fuel (n / 10) ((48 + n % 10) ∷ acc) (digit, h))
]

abbrev leads : Bytes → Bool
leads [] = false
leads (c ∷ s) = is_digit c

format_digits-leads :
    (fuel n : ℕ) (acc : Bytes) → leads acc ≡ true → leads (format_digits fuel n acc) ≡ true
unfolding format_digits
format_digits-leads zero n acc h = h
format_digits-leads (suc fuel) n acc h =
    let digit : is_digit (48 + n % 10) ≡ true = ground arith in
    let rest = format_digits-leads fuel (n / 10) ((48 + n % 10) ∷ acc) digit in ground (arith, rest)

format_uint-leads : (n : ℕ) → leads (format_uint n) ≡ true
unfolding format_digits
format_uint-leads n =
    let digit : is_digit (48 + n % 10) ≡ true = ground arith in
    let rest = format_digits-leads 19 (n / 10) ((48 + n % 10) ∷ []) digit in ground (arith, rest)

parse_leading :
    (s : Bytes)
    → leads s ≡ true
    → (parse_unsigned s ≡ parse_digits s 0) × (parse_int s ≡ in_range false (parse_digits s 0))
unfolding parse_unsigned parse_int
parse_leading [] h = ground (arith, h)
parse_leading (c ∷ s) h = (refl, ground (arith, h))

parse_digits-format_uint : (n : ℕ) → n < 2 ^ 64 → parse_digits (format_uint n) 0 ≡ some n
unfolding limit parse_digits
parse_digits-format_uint n h = parse_digits-format_digits 20 n [] (omega (arith, h))

pub parse_unsigned-format_uint : (n : ℕ) → n < 2 ^ 64 → parse_unsigned (format_uint n) ≡ some n
parse_unsigned-format_uint n h =
    (parse_leading (format_uint n) (format_uint-leads n)).0 ∙ parse_digits-format_uint n h

pub parse_int-format_int : (n : Int64) → n < 2 ^ 64 → parse_int (format_int n) ≡ some n
unfolding format_int in_range parse_int
parse_int-format_int n h = elim (Bool-cases (leb (2 ^ 63) n)) [
  | inl p ↦
      let m = 2 ^ 64 - n in
      let value : parse_unsigned (format_uint m) ≡ some m =
        parse_unsigned-format_uint m (ground (arith, p)) in
      let back : (2 ^ 64 - (2 ^ 64 - n)) % 2 ^ 64 ≡ n = omega (arith, h) in
      rw (p, parse_int, value, back) (ground (arith, p))
  | inr p ↦
      rw (
        p,
        (parse_leading (format_uint n) (format_uint-leads n)).1,
        parse_digits-format_uint n h,
        p,
      )
]

in_range-fits :
    (negative : Bool) (o : Option ℕ) (n : Int64) → in_range negative o ≡ some n → n < 2 ^ 64
unfolding in_range
in_range-fits negative none n e = ground (arith, e)
in_range-fits true (some m) n e = elim (Bool-cases (ltb (2 ^ 63) m)) [
  | inl p ↦ ground (arith, e, p)
  | inr p ↦
      let value : (2 ^ 64 - m) % 2 ^ 64 ≡ n = some-injective _ _ (rw p at e) in omega (arith, value)
]
in_range-fits false (some m) n e = elim (Bool-cases (leb (2 ^ 63) m)) [
  | inl p ↦ ground (arith, e, p)
  | inr p ↦ let value : m ≡ n = some-injective _ _ (rw p at e) in ground (arith, p, value)
]

pub parse_int-fits : (s : Bytes) (n : Int64) → parse_int s ≡ some n → n < 2 ^ 64
unfolding parse_int
parse_int-fits [] n e = ground (arith, e)
parse_int-fits (c ∷ s) n e = elim (Bool-cases (c == b'-')) [
  | inl p ↦ in_range-fits true (parse_unsigned s) n (rw p at e)
  | inr p ↦ elim (Bool-cases (c == b'+')) [
    | inl q ↦ in_range-fits false (parse_unsigned s) n (rw (p, q) at e)
    | inr q ↦ in_range-fits false (parse_unsigned (c ∷ s)) n (rw (p, q) at e)
  ]
]
