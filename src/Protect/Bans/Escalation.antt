-- ===== src/Protect/Bans/Escalation.antt =====
-- The length of a ban for a repeat offender.
use Prim.Native.Nat.{◌^◌}
use ravenguard.Common.{
  ℕ, suc, ◌+◌, ◌-◌, ◌*◌, ◌≤◌, ◌<◌, min, ◌≡◌, arith, leb, ◌==◌, ◌||◌, Bool-cases, inl, inr,
}
use native.Mathlib.Nat.{pow-suc, mod-eq_of_lt, pow-le-pow_right, mul-le-mul_left}
use ravenguard.Protect.Config.{Config}
use ravenguard.Protect.Bans.{ban_ttl_with_escalation}

-- The number of doublings after `bans` bans.
unfoldable pub doublings : Config → ℕ → ℕ
doublings cfg bans = min (min (bans - 1) cfg.ban_escalation) 30

-- With no overflow, a ban is BanTTL doubled once for each earlier ban, at most BanEscalation and at
-- most 30 times.
pub ban_ttl_exact :
    (cfg : Config) (bans : ℕ)
    → cfg.ban_ttl * 2 ^ doublings cfg bans < 2 ^ 64
    → ban_ttl_with_escalation cfg bans ≡ cfg.ban_ttl * 2 ^ doublings cfg bans
unfolding ban_ttl_with_escalation doublings
ban_ttl_exact cfg bans h = elim (Bool-cases (cfg.ban_escalation == 0 || leb bans 1)) [
  | inl flat ↦
      let none_yet : doublings cfg bans ≡ 0 = unfold doublings in ground arith in
      rw (flat, none_yet) (omega arith)
  | inr more ↦ rw more (mod-eq_of_lt h)
]

-- The longest ban.
unfoldable pub longest : Config → ℕ
longest cfg = cfg.ban_ttl * 2 ^ min cfg.ban_escalation 30

scale_mono : (n a b : ℕ) → a ≤ b → n * 2 ^ a ≤ n * 2 ^ b
scale_mono n a b h = mul-le-mul_left n (pow-le-pow_right (omega arith) h)

doublings-le : (cfg : Config) (bans : ℕ) → doublings cfg bans ≤ min cfg.ban_escalation 30
unfolding doublings
doublings-le cfg bans = omega arith

exact_below :
    (cfg : Config) (bans : ℕ)
    → longest cfg < 2 ^ 63
    → ban_ttl_with_escalation cfg bans ≡ cfg.ban_ttl * 2 ^ doublings cfg bans
unfolding longest
exact_below cfg bans h =
    ban_ttl_exact cfg bans (omega (arith, scale_mono cfg.ban_ttl _ _ (doublings-le cfg bans)))

doublings_mono :
    (cfg : Config) (bans later : ℕ) → bans ≤ later → doublings cfg bans ≤ doublings cfg later
unfolding doublings
doublings_mono cfg bans later h = omega arith

doublings_next :
    (cfg : Config) (bans : ℕ)
    → 1 ≤ bans
    → bans ≤ min cfg.ban_escalation 30
    → doublings cfg (bans + 1) ≡ suc (doublings cfg bans)
unfolding doublings
doublings_next cfg bans p q = omega arith

-- Where the longest ban fits an int64, every ban lasts at least BanTTL and at most the longest one,
-- and a later ban lasts no shorter than an earlier one.
pub escalation_bounds :
    (cfg : Config) (bans later : ℕ)
    → longest cfg < 2 ^ 63
    → bans ≤ later
    → (cfg.ban_ttl ≤ ban_ttl_with_escalation cfg bans)
      × (ban_ttl_with_escalation cfg bans ≤ ban_ttl_with_escalation cfg later)
      × (ban_ttl_with_escalation cfg later ≤ longest cfg)
escalation_bounds cfg bans later fits le =
    rw (exact_below cfg bans fits, exact_below cfg later fits)
      (
        at_least (doublings cfg bans),
        scale_mono cfg.ban_ttl _ _ (doublings_mono cfg bans later le),
        unfold longest in scale_mono cfg.ban_ttl _ _ (doublings-le cfg later),
      )
  where
    at_least : (d : ℕ) → cfg.ban_ttl ≤ cfg.ban_ttl * 2 ^ d
    at_least d = omega (arith, scale_mono cfg.ban_ttl 0 d (omega arith))

-- Where the longest ban fits an int64, each ban up to the cap is twice as long as the one before.
pub escalation_doubles :
    (cfg : Config) (bans : ℕ)
    → longest cfg < 2 ^ 63
    → 1 ≤ bans
    → bans ≤ min cfg.ban_escalation 30
    → ban_ttl_with_escalation cfg (bans + 1) ≡ 2 * ban_ttl_with_escalation cfg bans
escalation_doubles cfg bans fits p q =
    rw
      (
        exact_below cfg bans fits,
        exact_below cfg (bans + 1) fits,
        doublings_next cfg bans p q,
        pow-suc,
      )
      (omega arith)
