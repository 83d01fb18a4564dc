-- ===== src/Protect/Bans.antt =====
-- internal/protect/protect.go: strikes and bans. Every operation reads the clock through its
-- argument `now`. `Banned` changes the state too: it resets an expired ban.
pub mod Expiry
pub mod Strikes
pub mod Pool
pub mod Escalation
use Prim.Native.Nat.{◌^◌}
use ravenguard.Common.{
  ℕ, suc, ◌+◌, ◌-◌, ◌*◌, ◌%◌, min, Bool, true, false, ◌&&◌, ◌||◌, not, Option, none, some, List, [],
  ◌∷◌, ◌++◌, ltb, leb, ◌==◌, if◌then◌else◌, Instant, since, Bytes, str_eq, length,
}
use ravenguard.Common.Sharded
use ravenguard.Common.Dict
use ravenguard.Common.Dict.{Dict}
use ravenguard.Common.Int.{ℤ, pos, negsuc}
use ravenguard.Protect.Config.{Config}
use ravenguard.Protect.Guard.{Guard, BanEntry, zero_entry, pool_get, pool_rest}

-- The guards `!cfg.Enabled || key == ""`.
abbrev pub inactive : Guard → Bytes → Bool
inactive g key = not g.cfg.enabled || str_eq key []

-- now.After(e.bannedUntil) for an entry that has a ban.
abbrev pub is_over : Instant → BanEntry → Bool
is_over now e = not (e.banned_until == 0) && ltb e.banned_until now

unfoldable pub banned_entry : Bytes → Instant → Guard → Option BanEntry → Guard × Bool
banned_entry key now g none = (g, false)
banned_entry key now g (some e) =
    if e.banned_until == 0 || ltb e.banned_until now
    then (
      if is_over now e
          then record g {
            bans = Sharded.put key (record e { banned_until = 0; strikes = 0 }) g.bans;
          }
          else g,
      false,
    )
    else (g, true)

-- Banned
unfoldable pub banned : Bytes → Instant → Guard → Guard × Bool
unfolding banned_entry
banned key now g =
    if inactive g key then (g, false) else banned_entry key now g (Sharded.get key g.bans)

-- banTTLWithEscalation: an int64 product, as its 64-bit pattern.
unfoldable pub ban_ttl_with_escalation : Config → ℕ → ℕ
ban_ttl_with_escalation cfg bans =
    if cfg.ban_escalation == 0 || leb bans 1
    then cfg.ban_ttl
    else (cfg.ban_ttl * 2 ^ min (min (bans - 1) cfg.ban_escalation) 30) % 2 ^ 64

-- now.Add(d) for the bit pattern of an int64.
unfoldable pub add_int64 : Instant → ℕ → Instant
add_int64 now d = if ltb d (2 ^ 63) then now + d else now - (2 ^ 64 - d)

-- The entry that Strike works on: a pooled one for a new key, else the entry of the key, whose
-- window is started again when it is older than BanTTL.
unfoldable pub strike_target : Config → Instant → List BanEntry → Option BanEntry → BanEntry
strike_target cfg now pool none = record (pool_get pool) {
  banned_until = 0;
  bans = 0;
  window_start = now;
}
strike_target cfg now pool (some e) =
    if ltb cfg.ban_ttl (since now e.window_start)
    then record e { banned_until = 0; strikes = 0; window_start = now }
    else e

-- e.strikes++ and the ban at the threshold.
unfoldable pub add_strike : Config → Instant → BanEntry → BanEntry
add_strike cfg now e =
    if leb cfg.ban_after_strikes (e.strikes + 1)
    then record e {
      strikes = e.strikes + 1;
      bans = e.bans + 1;
      banned_until = add_int64 now (ban_ttl_with_escalation cfg (e.bans + 1));
    }
    else record e { strikes = e.strikes + 1 }

unfoldable pub pool_after : List BanEntry → Option BanEntry → List BanEntry
unfolding pool_rest
pool_after pool none = pool_rest pool
pool_after pool (some e) = pool

-- Strike
unfoldable pub strike : Bytes → Instant → Guard → Guard
unfolding strike_target add_strike pool_get pool_after
strike key now g = if inactive g key then g else record g {
  bans =
      Sharded.put key
        (add_strike g.cfg now (strike_target g.cfg now g.pool (Sharded.get key g.bans))) g.bans;
  pool = pool_after g.pool (Sharded.get key g.bans);
}

abbrev pub prior_bans : Option BanEntry → ℕ
prior_bans none = 0
prior_bans (some e) = e.bans

abbrev pub recycled : Option BanEntry → List BanEntry → List BanEntry
recycled none pool = pool
recycled (some old) pool = zero_entry ∷ pool

-- BanUntil: the old entry goes back to the pool and an entry of the pool takes its place. All of
-- the fields of that entry are set.
unfoldable pub ban_until : Bytes → Instant → Instant → Guard → Guard
unfolding pool_rest
ban_until key until now g =
    if inactive g key || until == 0 then g else if ltb until now then g else record g {
      bans =
          Sharded.put key
            (record {
              banned_until = until;
              strikes = g.cfg.ban_after_strikes;
              window_start = now;
              bans = prior_bans (Sharded.get key g.bans) + 1;
            })
            g.bans;
      pool = pool_rest (recycled (Sharded.get key g.bans) g.pool);
    }

-- BanNow; BanUntil reads the clock again.
unfoldable pub ban_now : Bytes → Instant → Instant → Guard → Guard
unfolding ban_until
ban_now key now now' g = if inactive g key then g else ban_until key (now + g.cfg.ban_ttl) now' g

-- What Sweep deletes.
abbrev pub is_stale : Instant → BanEntry → Bool
is_stale cutoff e =
    not (e.banned_until == 0) && ltb e.banned_until cutoff
    || (e.banned_until == 0) && ltb e.window_start cutoff

-- c.n.Load() == 0
abbrev pub is_idle : ℤ → Bool
is_idle (pos n) = n == 0
is_idle (negsuc n) = false

-- The entries that Sweep puts back into the pool; the count of bans is not cleared.
unfoldable pub swept : Instant → Dict BanEntry → List BanEntry → List BanEntry
swept cutoff [] pool = pool
swept cutoff ((k, e) ∷ m) pool =
    let rest = swept cutoff m pool in
    if is_stale cutoff e
    then record e { banned_until = 0; strikes = 0; window_start = 0 } ∷ rest
    else rest

-- Sweep
unfoldable pub sweep : Instant → ℕ → Guard → Guard
unfolding swept Sharded.entries
sweep now max_age g = record g {
  bans = Sharded.keep (λ _ e. not (is_stale (now - max_age) e)) g.bans;
  pool = swept (now - max_age) (Sharded.entries g.bans) g.pool;
  clients = Dict.keep (λ _ n. not (is_idle n)) g.clients;
}

pub record BanInfo : Type 0 where
  pub key : Bytes
  pub strikes : ℕ
  pub bans : ℕ
  pub banned_until : Instant
  pub window_start : Instant
  pub active : Bool

abbrev pub is_active : Instant → BanEntry → Bool
is_active now e = not (e.banned_until == 0) && ltb now e.banned_until

abbrev info : Bytes → Instant → BanEntry → BanInfo
info k now e = record {
  key = k;
  strikes = e.strikes;
  bans = e.bans;
  banned_until = e.banned_until;
  window_start = e.window_start;
  active = is_active now e;
}

unfoldable pub list_entries : Instant → Dict BanEntry → List BanInfo
list_entries now [] = []
list_entries now ((k, e) ∷ m) =
    let rest = list_entries now m in
    if not (is_active now e) && (e.strikes == 0) && (e.bans == 0) then rest else info k now e ∷ rest

-- ListBans, and the count of the active ones, BanCount.
unfoldable pub list_bans : Instant → Guard → List BanInfo
unfolding list_entries Sharded.entries
list_bans now g = list_entries now (Sharded.entries g.bans)

unfoldable pub count_entries : Instant → Dict BanEntry → ℕ
count_entries now [] = 0
count_entries now ((k, e) ∷ m) =
    if is_active now e then suc (count_entries now m) else count_entries now m

unfoldable pub ban_count : Instant → Guard → ℕ
unfolding count_entries Sharded.entries
ban_count now g = count_entries now (Sharded.entries g.bans)

unfoldable pub unban_entry : Bytes → Guard → Option BanEntry → Guard × Bool
unban_entry key g none = (g, false)
unban_entry key g (some e) = (
  record g {
    bans = Sharded.delete key g.bans;
    pool = record e { banned_until = 0; strikes = 0; window_start = 0 } ∷ g.pool;
  },
  true,
)

-- Unban, which ClearStrikes is too.
unfoldable pub unban : Bytes → Guard → Guard × Bool
unfolding unban_entry
unban key g = if str_eq key [] then (g, false) else unban_entry key g (Sharded.get key g.bans)
