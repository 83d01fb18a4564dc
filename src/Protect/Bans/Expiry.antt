-- ===== src/Protect/Bans/Expiry.antt =====
-- Who is banned, and until when: BanUntil, Unban, Sweep and the state change of Banned itself.
use ravenguard.Common.{
  ℕ, ◌+◌, ◌-◌, ◌≤◌, ◌≡◌, ◌≢◌, refl, Bool, true, false, not, ◌&&◌, Option, none, some, arith, leb,
  ◌==◌, if◌then◌else◌, Instant, Bytes, str_eq, str_eq_iff, [],
}
use ravenguard.Common.Sharded
use ravenguard.Common.Sharded.{get-put, get-delete, get-keep}
use ravenguard.Protect.Guard.{Guard, BanEntry}
use ravenguard.Protect.Bans.{
  inactive, banned, banned_entry, unban_entry, ban_until, sweep, unban, is_stale, prior_bans,
}

-- The answer of Banned.
abbrev pub is_banned : Bytes → Instant → Guard → Bool
is_banned key t g = (banned key t g).1

-- An entry bans its key at the instant t.
abbrev pub covers : Instant → Option BanEntry → Bool
covers t none = false
covers t (some e) = not (e.banned_until == 0) && leb t e.banned_until

-- Banned answers by the entry of its key alone.
pub is_banned-covers :
    (key : Bytes) (t : Instant) (g : Guard)
    → is_banned key t g ≡ (if inactive g key then false else covers t (Sharded.get key g.bans))
unfolding banned
is_banned-covers key t g = ground arith

-- A state that has the same configuration, and the same entry of a key, bans the key as before.
same_answer :
    (key : Bytes) (t : Instant) (g g' : Guard)
    → g'.cfg ≡ g.cfg
    → Sharded.get key g'.bans ≡ Sharded.get key g.bans
    → is_banned key t g' ≡ is_banned key t g
same_answer key t g g' e f = ground (arith, is_banned-covers key t g, is_banned-covers key t g')

abbrev given : Bytes → Instant → Instant → Guard → BanEntry
given key until now g = record {
  banned_until = until;
  strikes = g.cfg.ban_after_strikes;
  window_start = now;
  bans = prior_bans (Sharded.get key g.bans) + 1;
}

module _ (key : Bytes) (until now : Instant) (g : Guard) (on : inactive g key ≡ false)
    (nz : until ≢ 0) (le : now ≤ until) where
  ban_until-get :
      (j : Bytes)
      → Sharded.get j (ban_until key until now g).bans
        ≡ (if str_eq key j then some (given key until now g) else Sharded.get j g.bans)
  unfolding ban_until
  ban_until-get j = ground (arith, on, nz, le, get-put key j (given key until now g) g.bans)

  ban_until-cfg : (ban_until key until now g).cfg ≡ g.cfg
  unfolding ban_until
  ban_until-cfg = ground (arith, on, nz, le)

  -- BanUntil with a time that is not past bans its key until that time, the last instant included,
  -- and no longer; every other key is banned as before.
  pub ban_until-exact :
      (j : Bytes) (t : Instant)
      → is_banned j t (ban_until key until now g)
        ≡ (if str_eq key j then leb t until else is_banned j t g)
  ban_until-exact j t = ground (
    arith,
    on,
    nz,
    is_banned-covers j t (ban_until key until now g),
    ban_until-cfg,
    ban_until-get j,
    is_banned-covers j t g,
    str_eq_iff key j,
  )

reset_answer :
    (key j : Bytes) (now t : Instant) (g : Guard) (o : Option BanEntry)
    → now ≤ t
    → o ≡ Sharded.get key g.bans
    → is_banned j t (banned_entry key now g o).0 ≡ is_banned j t g
unfolding banned_entry
reset_answer key j now t g none le p = refl
reset_answer key j now t g (some e) le p = ground (
  arith,
  is_banned-covers j t g,
  is_banned-covers j t (banned_entry key now g (some e)).0,
  get-put key j (record e { banned_until = 0; strikes = 0 }) g.bans,
  str_eq_iff key j,
)

-- The answer of Banned, which may reset an expired ban, does not change a later answer of it, for
-- any key.
pub banned-banned :
    (key j : Bytes) (now t : Instant) (g : Guard)
    → now ≤ t
    → is_banned j t (banned key now g).0 ≡ is_banned j t g
unfolding banned
banned-banned key j now t g le =
    ground (arith, reset_answer key j now t g (Sharded.get key g.bans) le refl)

-- A sweep, whatever its age, changes no answer of Banned at the time of the sweep or later.
pub sweep-banned :
    (key : Bytes) (now t : Instant) (age : ℕ) (g : Guard)
    → now ≤ t
    → is_banned key t (sweep now age g) ≡ is_banned key t g
unfolding sweep
sweep-banned key now t age g le = ground (
  arith,
  is_banned-covers key t g,
  is_banned-covers key t (sweep now age g),
  get-keep (λ _ e. not (is_stale (now - age) e)) key g.bans,
)

abbrev pub has_entry : Option BanEntry → Bool
has_entry none = false
has_entry (some e) = true

unban_answer :
    (key j : Bytes) (t : Instant) (g : Guard) (o : Option BanEntry)
    → o ≡ Sharded.get key g.bans
    → is_banned j t (unban_entry key g o).0 ≡ (if str_eq key j then false else is_banned j t g)
unfolding unban_entry
unban_answer key j t g none p = ground (arith, is_banned-covers j t g, str_eq_iff key j)
unban_answer key j t g (some e) p = ground (
  arith,
  is_banned-covers j t g,
  is_banned-covers j t (unban_entry key g (some e)).0,
  get-delete key j g.bans,
  str_eq_iff key j,
)

unban_has : (key : Bytes) (g : Guard) (o : Option BanEntry) → (unban_entry key g o).1 ≡ has_entry o
unfolding unban_entry
unban_has key g none = refl
unban_has key g (some e) = refl

-- Unban of a key answers whether the key had an entry, and afterwards the key is not banned and
-- every other key is banned as before.
pub unban-exact :
    (key j : Bytes) (t : Instant) (g : Guard)
    → str_eq key [] ≡ false
    → ((unban key g).1 ≡ has_entry (Sharded.get key g.bans))
      × (is_banned j t (unban key g).0 ≡ (if str_eq key j then false else is_banned j t g))
unfolding unban
unban-exact key j t g ne =
    let o = Sharded.get key g.bans in rw ne (unban_has key g o, unban_answer key j t g o refl)
