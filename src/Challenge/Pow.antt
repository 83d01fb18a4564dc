-- ===== src/Challenge/Pow.antt =====
-- The proof of work of internal/challenge/challenge.go: checkPoW, leadingZeroBits, VerifyPoW and
-- SolvePoW. `sha256` is the hash of a byte list.
use Prim.Native.Nat.{◌^◌}
use ravenguard.Common.{
  ℕ, zero, suc, ◌+◌, ◌/◌, ◌%◌, ◌<◌, ◌≤◌, ◌≡◌, Bool, true, false, not, Option, none, some, [], ◌∷◌,
  ◌++◌, arith, ltb, ◌==◌, if◌then◌else◌, Bytes, Bool-cases, inl, inr, refl, ==_iff, ◌∙◌,
}
use ravenguard.Common.Int64.{Int64, ltb_int}
use ravenguard.Challenge.Nonces.{Token}
use ravenguard.Common.Strings.{parse_unsigned, format_uint}
use ravenguard.Common.Strings.Decimal.{parse_unsigned-format_uint}

-- The loop over the bits of a byte from bit `i - 1` down, and whether it returned.
unfoldable scan_bits : ℕ → ℕ → ℕ → ℕ × Bool
scan_bits zero c n = (n, false)
scan_bits (suc i) c n =
    let rest = scan_bits i c (n + 1) in if c / 2 ^ i % 2 == 0 then rest else (n, true)

unfoldable leading_from : Bytes → ℕ → ℕ
unfolding scan_bits
leading_from [] n = n
leading_from (c ∷ s) n =
    let (n', returned) = scan_bits 8 c n in
    let next = leading_from s (n + 8) in
    let rest = leading_from s n' in if c == 0 then next else if returned then n' else rest

-- leadingZeroBits
unfoldable pub leading_zero_bits : Bytes → ℕ
unfolding leading_from
leading_zero_bits b = leading_from b 0

-- binary.BigEndian.PutUint64
abbrev big_endian : ℕ → Bytes
big_endian n =
    n / 2 ^ 56 % 256
    ∷ n / 2 ^ 48 % 256
    ∷ n / 2 ^ 40 % 256
    ∷ n / 2 ^ 32 % 256
    ∷ n / 2 ^ 24 % 256
    ∷ n / 2 ^ 16 % 256
    ∷ n / 2 ^ 8 % 256
    ∷ n % 256
    ∷ []

abbrev in_uint64 : Option ℕ → Option ℕ
in_uint64 none = none
in_uint64 (some n) = if ltb n (2 ^ 64) then some n else none

-- strconv.ParseUint(s, 10, 64)
unfoldable pub parse_uint : Bytes → Option ℕ
parse_uint s = in_uint64 (parse_unsigned s)

module _ (sha256 : Bytes → Bytes) where
  -- checkPoW; the number of bits is compared with a signed difficulty.
  unfoldable pub check_pow : Bytes → ℕ → Int64 → Bool
  check_pow nonce solution difficulty =
      not (ltb_int (leading_zero_bits (sha256 (nonce ++ (b':' ∷ big_endian solution)))) difficulty)

  abbrev checked : Token → Option ℕ → Bool
  checked token none = false
  checked token (some n) = check_pow token.nonce n token.difficulty

  -- VerifyPoW; false stands for ErrBadSolution.
  unfoldable pub verify_pow : Token → Bytes → Bool
  verify_pow token solution = checked token (parse_uint solution)

  unfoldable pub solve_from : Bytes → Int64 → ℕ → ℕ → Option ℕ
  solve_from nonce difficulty zero i = none
  solve_from nonce difficulty (suc tries) i =
      let rest = solve_from nonce difficulty tries (i + 1) in
      if check_pow nonce i difficulty then some i else rest

  -- SolvePoW; none stands for ErrBadSolution.
  unfoldable pub solve_pow : Bytes → Int64 → Option ℕ
  solve_pow nonce difficulty = solve_from nonce difficulty (2 ^ 32) 0

  solve_from-bounds :
      (nonce : Bytes) (difficulty : Int64) (tries i solution : ℕ)
      → solve_from nonce difficulty tries i ≡ some solution
      → (i ≤ solution) × (solution < i + tries)
  unfolding solve_from
  solve_from-bounds nonce d zero i solution e = ground (arith, e)
  solve_from-bounds nonce d (suc tries) i solution e =
      let rest = solve_from-bounds nonce d tries (i + 1) solution in
      elim (Bool-cases (check_pow nonce i d)) [
        | inl p ↦ ground (arith, e, p)
        | inr p ↦ let (low, high) = rest (rw p at e) in (omega (arith, low), omega (arith, high))
      ]

  solve_from-least :
      (nonce : Bytes) (difficulty : Int64) (tries i solution j : ℕ)
      → solve_from nonce difficulty tries i ≡ some solution
      → i ≤ j
      → j ≤ solution
      → check_pow nonce j difficulty ≡ (j == solution)
  unfolding solve_from
  solve_from-least nonce d zero i solution j e low high = ground (arith, e)
  solve_from-least nonce d (suc tries) i solution j e low high =
      let rest = solve_from-least nonce d tries (i + 1) solution j in
      let bounds = solve_from-bounds nonce d tries (i + 1) solution in
      elim (Bool-cases (check_pow nonce i d)) [
        | inl p ↦ ground (arith, e, p, low, high)
        | inr p ↦ let next = rw p at e in ground (arith, p, low, high, rest next, bounds next)
      ]

  solve_from-finds :
      (nonce : Bytes) (difficulty : Int64) (tries i solution : ℕ)
      → i ≤ solution
      → solution < i + tries
      → check_pow nonce solution difficulty ≡ true
      → (n : ℕ) × (solve_from nonce difficulty tries i ≡ some n) × (n ≤ solution)
  unfolding solve_from
  solve_from-finds nonce d zero i solution low high ok = ground (arith, low, high)
  solve_from-finds nonce d (suc tries) i solution low high ok =
      elim (Bool-cases (check_pow nonce i d)) [
        | inl p ↦ rw p (i, refl, low)
        | inr p ↦
            let past : i + 1 ≤ solution = ground (arith, low, ok, p) in
            rw p (solve_from-finds nonce d tries (i + 1) solution past (omega (arith, high)) ok)
      ]

  -- What SolvePoW returns is the least solution, and VerifyPoW accepts its decimal digits.
  pub solve_pow-verify_pow :
      (token : Token) (solution j : ℕ)
      → solve_pow token.nonce token.difficulty ≡ some solution
      → j ≤ solution
      → (check_pow token.nonce j token.difficulty ≡ (j == solution))
        × (verify_pow token (format_uint solution) ≡ true)
  unfolding solve_pow verify_pow parse_uint
  solve_pow-verify_pow token solution j e le =
      let least = solve_from-least token.nonce token.difficulty (2 ^ 32) 0 solution in
      let (low, high) = solve_from-bounds token.nonce token.difficulty (2 ^ 32) 0 solution e in
      let fits : solution < 2 ^ 64 = omega (arith, high) in
      let found = least solution e (omega arith) (omega arith) in
      (
        least j e (omega arith) le,
        rw (parse_uint, parse_unsigned-format_uint solution fits) (ground (arith, found, fits)),
      )

  solved :
      (nonce : Bytes) (difficulty : Int64) (solution : ℕ)
      → solution < 2 ^ 32
      → check_pow nonce solution difficulty ≡ true
      → (n : ℕ) × (solve_pow nonce difficulty ≡ some n) × (n ≤ solution)
  unfolding solve_pow
  solved nonce d solution fits ok =
      solve_from-finds nonce d (2 ^ 32) 0 solution (omega arith) fits ok

  -- Whenever there is a solution below 2 ^ 32, SolvePoW returns one that is not larger; it is a
  -- solution, VerifyPoW accepts its decimal digits, and no smaller number is a solution.
  pub solve_pow-finds :
      (token : Token) (solution : ℕ)
      → solution < 2 ^ 32
      → check_pow token.nonce solution token.difficulty ≡ true
      → (n : ℕ) × (solve_pow token.nonce token.difficulty ≡ some n)
        × (n ≤ solution)
        × (check_pow token.nonce n token.difficulty ≡ true)
        × (verify_pow token (format_uint n) ≡ true)
        × ((j : ℕ) → j < n → check_pow token.nonce j token.difficulty ≡ false)
  solve_pow-finds token solution fits ok =
      let (n, found, le) = solved token.nonce token.difficulty solution fits ok in
      let (here, accepted) = solve_pow-verify_pow token n n found (omega arith) in
      let itself : (n == n) ≡ true = (==_iff n n).1 refl in
      (
        n,
        found,
        le,
        here ∙ itself,
        accepted,
        λ j less. (solve_pow-verify_pow token n j found (omega arith)).0 ∙ (ground (arith, less)),
      )
