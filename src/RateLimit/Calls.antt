-- ===== src/RateLimit/Calls.antt =====
-- Single calls of the limiter.
use ravenguard.Common.{
  ℕ, ◌≡◌, true, false, none, Instant, since, Bool-cases, inl, inr, Bytes, str_eq,
}
use ravenguard.Common.Dict.{get-nil}
use ravenguard.Common.Sharded
use ravenguard.Common.Sharded.{get-put}
use ravenguard.RateLimit.Floats.{Arithmetic, IsExact}
use ravenguard.RateLimit.{
  LiveCfg, Limiter, bucket_allow, allow_n, cost_of, refill_allow, refilled, charge,
}

module _ (A : Arithmetic) where
  open A use {Num, of_int, seconds, plus, times, less}

  -- A call of one client does not change the answer to a call of another client.
  pub allow_n-other :
      (ip path : Bytes) (cost : ℕ) (now : Instant) (j path' : Bytes) (cost' : ℕ) (now' : Instant)
      (l : Limiter Num)
      → str_eq ip j ≡ false
      → (allow_n A j path' cost' now' (allow_n A ip path cost now l).0).1
        ≡ (allow_n A j path' cost' now' l).1
  unfolding allow_n
  allow_n-other ip path cost now j path' cost' now' l ne = rw (get-put, ne)

module _ (A : Arithmetic) (exact : IsExact A) where
  open A use {Num, of_int, seconds, plus, times, less}

  pub full_passes :
      (cfg : LiveCfg Num) (cost : ℕ) (now : Instant)
      → less cfg.burst_f (of_int cost) ≡ false
      → (charge A cfg cost now (record { tokens = cfg.burst_f; last = now })).1 ≡ true
  unfolding refill_allow refilled
  full_passes cfg cost now fits =
      let filled = plus cfg.burst_f (times (seconds (since now now)) cfg.rate) in
      elim (Bool-cases (less cfg.burst_f filled)) [
        | inl p ↦ rw (p, fits)
        | inr p ↦ rw (p, exact.le_trans (of_int cost) cfg.burst_f filled fits (exact.le-plus _ _))
      ]

  -- Under exact arithmetic, the first call of a client is let through if its cost is at most the
  -- burst, in either mode.
  pub first_call :
      (ip path : Bytes) (cost : ℕ) (now : Instant) (l : Limiter Num)
      → Sharded.get ip l.shards ≡ none
      → less l.live.burst_f (of_int (cost_of A cost)) ≡ false
      → (allow_n A ip path cost now l).1 ≡ true
  unfolding allow_n bucket_allow
  first_call ip path cost now l new fits =
      let passes = full_passes l.live (cost_of A cost) now fits in
      elim (Bool-cases l.live.per_path) [
        | inl p ↦ rw (new, p, get-nil, passes)
        | inr p ↦ rw (new, p, passes)
      ]
