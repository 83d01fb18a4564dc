-- ===== src/RateLimit/Floats.antt =====
-- The float64 operations that the limiter uses, and the laws of exact arithmetic.
use ravenguard.Common.{ℕ, ◌+◌, ◌-◌, ◌*◌, ◌/◌, ◌≡◌, Bool, true, false, arith, ltb}

-- `seconds` is time.Duration.Seconds, of nanoseconds.
pub record Arithmetic : Type 1 where
  pub Num : Type 0
  pub of_int : ℕ → Num
  pub seconds : ℕ → Num
  pub plus : Num → Num → Num
  pub minus : Num → Num → Num
  pub times : Num → Num → Num
  pub divide : Num → Num → Num
  pub less : Num → Num → Bool

-- The laws of numbers that are not negative. Floating-point operations obey the equations up to
-- rounding only.
pub record IsExact (A : Arithmetic) : Type 0 where
  pub le_refl : (a : A.Num) → A.less a a ≡ false
  pub le_trans : (a b c : A.Num) → A.less b a ≡ false → A.less c b ≡ false → A.less c a ≡ false
  pub le-of_less : (a b : A.Num) → A.less a b ≡ true → A.less b a ≡ false
  pub le-plus : (a b : A.Num) → A.less (A.plus a b) a ≡ false
  pub plus_mono : (a b c : A.Num) → A.less b a ≡ false → A.less (A.plus c b) (A.plus c a) ≡ false
  pub plus_assoc : (a b c : A.Num) → A.plus (A.plus a b) c ≡ A.plus a (A.plus b c)
  pub plus_comm : (a b : A.Num) → A.plus a b ≡ A.plus b a
  pub plus-minus : (a b : A.Num) → A.less a b ≡ false → A.plus b (A.minus a b) ≡ a
  pub of_int-plus : (m n : ℕ) → A.of_int (m + n) ≡ A.plus (A.of_int m) (A.of_int n)
  pub of_int_zero : (a : A.Num) → A.plus (A.of_int 0) a ≡ a
  pub seconds-plus :
      (m n : ℕ) (r : A.Num)
      → A.times (A.seconds (m + n)) r ≡ A.plus (A.times (A.seconds m) r) (A.times (A.seconds n) r)

-- Billionths of a token: a rate in whole tokens for each second makes every step exact.
abbrev pub nano : Arithmetic
nano = record {
  Num = ℕ;
  of_int = λ n. n * 1000000000;
  seconds = λ d. d;
  plus = ◌+◌;
  minus = ◌-◌;
  times = ◌*◌;
  divide = ◌/◌;
  less = ltb;
}

pub nano-IsExact : IsExact nano
nano-IsExact = record {
  le_refl = λ a. ground arith;
  le_trans = λ a b c p q. ground arith;
  le-of_less = λ a b p. ground arith;
  le-plus = λ a b. ground arith;
  plus_mono = λ a b c p. ground arith;
  plus_assoc = λ a b c. omega arith;
  plus_comm = λ a b. omega arith;
  plus-minus = λ a b p. ground arith;
  of_int-plus = λ m n. omega arith;
  of_int_zero = λ a. omega arith;
  seconds-plus = λ m n r. omega arith;
}
