-- ===== src/RateLimit/Refill.antt =====
-- One bucket under exact arithmetic: the cap, and what is spent against what has come in.
use ravenguard.Common.{
  ℕ, ◌+◌, ◌-◌, ◌≤◌, ◌≡◌, false, arith, if◌then◌else◌, Instant, since, Bool-cases, inl, inr, ap, ◌∙◌,
}
use ravenguard.RateLimit.Floats.{Arithmetic, IsExact}
use ravenguard.RateLimit.{Entry, refilled, refill_allow}

module _ (A : Arithmetic) (exact : IsExact A) where
  open A use {Num, of_int, seconds, plus, minus, times, less}
  open exact use {
    le_refl, le_trans, le-of_less, le-plus, plus_mono, plus_assoc, plus_comm, plus-minus,
    of_int-plus, seconds-plus, of_int_zero,
  }

  -- a is at most b.
  abbrev pub AtMost : Num → Num → Type 0
  AtMost a b = less b a ≡ false

  pub refilled-le_burst :
      (rate burst : Num) (now : Instant) (e : Entry Num)
      → AtMost (refilled A rate burst now e) burst
  unfolding refilled
  refilled-le_burst rate burst now e =
      elim (Bool-cases (less burst (plus e.tokens (times (seconds (since now e.last)) rate)))) [
        | inl p ↦ rw p (le_refl burst)
        | inr p ↦ rw p p
      ]

  pub refilled-le_filled :
      (rate burst : Num) (now : Instant) (e : Entry Num)
      → AtMost
          (refilled A rate burst now e)
          (plus e.tokens (times (seconds (since now e.last)) rate))
  unfolding refilled
  refilled-le_filled rate burst now e =
      elim (Bool-cases (less burst (plus e.tokens (times (seconds (since now e.last)) rate)))) [
        | inl p ↦ rw p (le-of_less _ _ p)
        | inr p ↦ rw p (le_refl _)
      ]

  mono_left : (a b c : Num) → AtMost a b → AtMost (plus a c) (plus b c)
  mono_left a b c h = rw (plus_comm a c, plus_comm b c) (plus_mono a b c h)

  pub earned_mono : (m n : ℕ) (r : Num) → m ≤ n → AtMost (times (seconds m) r) (times (seconds n) r)
  earned_mono m n r h =
      let e : n ≡ m + (n - m) = omega arith in
      rw (ap (λ (k : ℕ). times (seconds k) r) e ∙ seconds-plus m (n - m) r) (le-plus _ _)

  -- What a client may have spent since `from`: a full bucket and what the rate has added.
  abbrev pub earned : Num → Num → Instant → Instant → Num
  earned rate burst from now = plus burst (times (seconds (now - from)) rate)

  -- The tokens that are left and those that are spent stay below what was earned.
  pub record Ledger (rate burst : Num) (from : Instant) (spent : ℕ) (e : Entry Num) : Type 0 where
    pub after : from ≤ e.last
    pub covered : AtMost (plus (of_int spent) e.tokens) (earned rate burst from e.last)

  refill-Ledger :
      (rate burst : Num) (from now : Instant) (spent : ℕ) (e : Entry Num)
      → Ledger rate burst from spent e
      → e.last ≤ now
      → AtMost (plus (of_int spent) (refilled A rate burst now e)) (earned rate burst from now)
  refill-Ledger rate burst from now spent e l le =
      le_trans _ _ _ (plus_mono _ _ (of_int spent) (refilled-le_filled rate burst now e)) (
        rw (← plus_assoc (of_int spent) e.tokens income) (
          le_trans _ _ _ (mono_left _ _ income l.covered) (
            rw (plus_assoc burst old income) (
              plus_mono _ _ burst (
                rw (← seconds-plus (e.last - from) (since now e.last) rate)
                  (earned_mono _ _ rate (omega (arith, l.after))))))))
    where
      income : Num
      income = times (seconds (since now e.last)) rate

      old : Num
      old = times (seconds (e.last - from)) rate

  spend :
      (spent cost : ℕ) (t : Num)
      → AtMost (of_int cost) t
      → plus (of_int (spent + cost)) (minus t (of_int cost)) ≡ plus (of_int spent) t
  spend spent cost t h = rw (
    of_int-plus spent cost,
    plus_assoc (of_int spent) (of_int cost) (minus t (of_int cost)),
    plus-minus t (of_int cost) h,
  )

  -- A ledger holds with less spent, too.
  pub Ledger-less :
      (rate burst : Num) (from : Instant) (m n : ℕ) (e : Entry Num)
      → m ≤ n
      → Ledger rate burst from n e
      → Ledger rate burst from m e
  Ledger-less rate burst from m n e h l =
      let split : of_int n ≡ plus (of_int m) (of_int (n - m)) =
        let k : n ≡ m + (n - m) = omega arith in ap of_int k ∙ of_int-plus m (n - m) in
      let more : AtMost (of_int m) (of_int n) = rw split (le-plus _ _) in
      record { after = l.after; covered = le_trans _ _ _ (mono_left _ _ e.tokens more) l.covered }

  -- One charge keeps the ledger, with the cost on it if the charge passes.
  pub refill_allow-Ledger :
      (rate burst : Num) (from now : Instant) (spent cost : ℕ) (e : Entry Num)
      → Ledger rate burst from spent e
      → e.last ≤ now
      → Ledger rate burst from
          (if (refill_allow A rate burst (of_int cost) now e).1 then spent + cost else spent)
          (refill_allow A rate burst (of_int cost) now e).0
  unfolding refill_allow
  refill_allow-Ledger rate burst from now spent cost e l le =
      let income = refill-Ledger rate burst from now spent e l le in
      elim (Bool-cases (less (refilled A rate burst now e) (of_int cost))) [
        | inl p ↦ rw p (record { after = omega (arith, l.after); covered = income })
        | inr p ↦ rw p (record {
          after = omega (arith, l.after);
          covered = rw (spend spent cost (refilled A rate burst now e) p) income;
        })
      ]

  pub refill_allow-last :
      (rate burst need : Num) (now : Instant) (e : Entry Num)
      → (refill_allow A rate burst need now e).0.last ≡ now
  unfolding refill_allow
  refill_allow-last rate burst need now e =
      elim (Bool-cases (less (refilled A rate burst now e) need)) [ inl p ↦ rw p | inr p ↦ rw p ]

  -- A bucket that starts full.
  pub full-Ledger :
      (rate burst : Num) (from now : Instant)
      → from ≤ now
      → Ledger rate burst from 0 (record { tokens = burst; last = now })
  full-Ledger rate burst from now le = record {
    after = le;
    covered = rw (of_int_zero burst) (le-plus _ _);
  }

  -- What is spent by a ledger's entry at a later time.
  pub Ledger-spent :
      (rate burst : Num) (from now : Instant) (spent : ℕ) (e : Entry Num)
      → Ledger rate burst from spent e
      → e.last ≤ now
      → AtMost (of_int spent) (earned rate burst from now)
  Ledger-spent rate burst from now spent e l le =
      le_trans _ _ _ (le-plus (of_int spent) e.tokens)
        (le_trans _ _ _ l.covered (plus_mono _ _ burst (earned_mono _ _ rate (omega arith))))

  pub nothing_spent : (x : Num) → AtMost (of_int 0) x
  nothing_spent x = rw (of_int_zero x) at (le-plus (of_int 0) x)
