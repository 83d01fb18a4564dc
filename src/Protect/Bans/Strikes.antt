-- ===== src/Protect/Bans/Strikes.antt =====
-- Strikes: how many within the window ban a client, and for how long.
use Prim.Native.Nat.{◌^◌}
use ravenguard.Common.{
  ℕ, suc, ◌+◌, ◌-◌, ◌*◌, ◌≤◌, ◌<◌, ◌≡◌, refl, true, false, ◌&&◌, none, some, List, [], ◌∷◌, arith,
  ltb, leb, if◌then◌else◌, Instant, since, Bytes, str_eq, str_eq_refl, ap, ◌∙◌, length, All,
}
use ravenguard.Common.Sharded
use ravenguard.Common.Sharded.{get-put}
use ravenguard.Protect.Config.{Config}
use ravenguard.Protect.Guard.{Guard, BanEntry}
use ravenguard.Protect.Bans.{
  inactive, strike, strike_target, add_strike, ban_ttl_with_escalation, add_int64,
}
use ravenguard.Protect.Bans.Expiry.{is_banned, covers, is_banned-covers}
use ravenguard.Protect.Bans.Pool.{IsClear, pool_get-strikes}
use ravenguard.Protect.Bans.Escalation.{doublings, ban_ttl_exact}

-- The entry of the key after a strike.
abbrev struck_entry : Bytes → Instant → Guard → BanEntry
struck_entry key now g =
    add_strike g.cfg now (strike_target g.cfg now g.pool (Sharded.get key g.bans))

pub strike-get :
    (key j : Bytes) (now : Instant) (g : Guard)
    → inactive g key ≡ false
    → Sharded.get j (strike key now g).bans
      ≡ (if str_eq key j then some (struck_entry key now g) else Sharded.get j g.bans)
unfolding strike
strike-get key j now g on = rw on (get-put key j (struck_entry key now g) g.bans)

pub strike-cfg : (key : Bytes) (now : Instant) (g : Guard) → (strike key now g).cfg ≡ g.cfg
unfolding strike
strike-cfg key now g = ground arith

-- What n strikes within one window, the first at `first` and the last at `last`, make of a client
-- that had no entry.
unfoldable pub entry_after : Config → Instant → Instant → ℕ → BanEntry
entry_after cfg first last n = record {
  banned_until =
      if ltb n cfg.ban_after_strikes
      then 0
      else add_int64 last (ban_ttl_with_escalation cfg (n + 1 - cfg.ban_after_strikes));
  strikes = n;
  window_start = first;
  bans = n + 1 - cfg.ban_after_strikes;
}

first_strike :
    (cfg : Config) (now : Instant) (pool : List BanEntry)
    → 0 < cfg.ban_after_strikes
    → IsClear pool
    → add_strike cfg now (strike_target cfg now pool none) ≡ entry_after cfg now now 1
unfolding add_strike strike_target entry_after
first_strike cfg now pool set clear = ground (arith, pool_get-strikes pool clear)

next_strike :
    (cfg : Config) (first last now : Instant) (n : ℕ) (pool : List BanEntry)
    → 0 < cfg.ban_after_strikes
    → since now first ≤ cfg.ban_ttl
    → add_strike cfg now (strike_target cfg now pool (some (entry_after cfg first last n)))
      ≡ entry_after cfg first now (n + 1)
unfolding add_strike strike_target entry_after
next_strike cfg first last now n pool set within = ground arith

-- Strikes of one client, one after the other.
unfoldable pub strike_all : Bytes → List Instant → Guard → Guard
strike_all key [] g = g
strike_all key (now ∷ later) g = strike_all key later (strike key now g)

abbrev pub last_of : Instant → List Instant → Instant
last_of first [] = first
last_of first (t ∷ later) = last_of t later

abbrev WithinWindow : Config → Instant → List Instant → Type 0
WithinWindow cfg first times = All (λ now. since now first ≤ cfg.ban_ttl) times

strike_on :
    (key : Bytes) (now : Instant) (g : Guard)
    → inactive g key ≡ false
    → inactive (strike key now g) key ≡ false
strike_on key now g on = rw (strike-cfg key now g) on

strike_more :
    (cfg : Config) (key : Bytes) (first last : Instant) (later : List Instant) (n : ℕ) (g : Guard)
    → g.cfg ≡ cfg
    → inactive g key ≡ false
    → 0 < cfg.ban_after_strikes
    → WithinWindow cfg first later
    → Sharded.get key g.bans ≡ some (entry_after cfg first last n)
    → Sharded.get key (strike_all key later g).bans
      ≡ some (entry_after cfg first (last_of last later) (n + length later))
unfolding strike_all
strike_more cfg key first last [] n g same on set within e =
    let z : n + 0 ≡ n = omega arith in rw z e
strike_more cfg key first last (now ∷ later) n g same on set (here, rest) e =
    let regroup : n + suc (length later) ≡ n + 1 + length later = omega arith in
    let struck : Sharded.get key (strike key now g).bans
        ≡ some (entry_after cfg first now (n + 1)) =
      rw (strike-get key key now g on, str_eq_refl key, e, same)
        (ap some (next_strike cfg first last now n g.pool set here)) in
    rw regroup (
      strike_more cfg key first now later (n + 1) (strike key now g) (strike-cfg key now g ∙ same)
        (strike_on key now g on) set rest struck)

-- A client with no entry that gets strikes within one window of BanTTL, the first and those at
-- `later`, has as many strikes as it got. It has no ban below the threshold; from the threshold on
-- each strike is a ban of its own, the last one running from the last strike.
pub strikes_entry :
    (key : Bytes) (first : Instant) (later : List Instant) (g : Guard)
    → inactive g key ≡ false
    → 0 < g.cfg.ban_after_strikes
    → IsClear g.pool
    → WithinWindow g.cfg first later
    → Sharded.get key g.bans ≡ none
    → Sharded.get key (strike_all key (first ∷ later) g).bans
      ≡ some (entry_after g.cfg first (last_of first later) (1 + length later))
unfolding strike_all
strikes_entry key first later g on set clear within e =
    let struck : Sharded.get key (strike key first g).bans
        ≡ some (entry_after g.cfg first first 1) =
      rw (strike-get key key first g on, str_eq_refl key, e)
        (ap some (first_strike g.cfg first g.pool set clear)) in
    strike_more g.cfg key first first later 1 (strike key first g) (strike-cfg key first g)
      (strike_on key first g on) set within struck

strike_all-cfg :
    (key : Bytes) (times : List Instant) (g : Guard) → (strike_all key times g).cfg ≡ g.cfg
unfolding strike_all
strike_all-cfg key [] g = refl
strike_all-cfg key (now ∷ times) g =
    strike_all-cfg key times (strike key now g) ∙ strike-cfg key now g

-- In an enabled guard with a positive threshold, a flat ban (no escalation, BanTTL positive and within
-- an int64) and a pool of clear entries, a client with a key and no entry that gets strikes within one
-- window is banned by them exactly from the threshold on: below it never, and else at an instant t
-- exactly when t is at most BanTTL after the last strike.
pub strikes_ban :
    (key : Bytes) (first : Instant) (later : List Instant) (t : Instant) (g : Guard)
    → inactive g key ≡ false
    → 0 < g.cfg.ban_after_strikes
    → 0 < g.cfg.ban_ttl
    → g.cfg.ban_ttl < 2 ^ 63
    → g.cfg.ban_escalation ≡ 0
    → IsClear g.pool
    → WithinWindow g.cfg first later
    → Sharded.get key g.bans ≡ none
    → is_banned key t (strike_all key (first ∷ later) g)
      ≡ leb g.cfg.ban_after_strikes (1 + length later)
        && leb t (last_of first later + g.cfg.ban_ttl)
unfolding entry_after add_int64 ban_ttl_with_escalation
strikes_ban key first later t g on set ttl fits flat clear within e =
    rw
      (
        is_banned-covers key t (strike_all key (first ∷ later) g),
        strike_all-cfg key (first ∷ later) g,
        on,
        strikes_entry key first later g on set clear within e,
      )
      (ground (arith, flat))

-- The int64 product of an escalated ban can pass 2^63: then the ban is negative, and the strike
-- that should start the longest ban leaves the client free at once.
pub escalation_overflow :
    (key : Bytes) (now t : Instant) (e : BanEntry) (g : Guard)
    → inactive g key ≡ false
    → Sharded.get key g.bans ≡ some e
    → since now e.window_start ≤ g.cfg.ban_ttl
    → g.cfg.ban_after_strikes ≤ e.strikes + 1
    → 2 ^ 63 ≤ g.cfg.ban_ttl * 2 ^ doublings g.cfg (e.bans + 1)
    → g.cfg.ban_ttl * 2 ^ doublings g.cfg (e.bans + 1) < 2 ^ 64
    → now ≤ t
    → is_banned key t (strike key now g) ≡ false
unfolding strike_target add_strike add_int64
escalation_overflow key now t e g on known within threshold low high le =
    rw
      (
        is_banned-covers key t (strike key now g),
        strike-cfg key now g,
        on,
        strike-get key key now g on,
        str_eq_refl key,
        known,
      )
      (ground (arith, ban_ttl_exact g.cfg (e.bans + 1) high))

-- A strike of a client whose window is older than BanTTL lifts the ban of that client, however long
-- the ban still has to run, where one strike is below the threshold.
pub strike_lifts_ban :
    (key : Bytes) (now t : Instant) (e : BanEntry) (g : Guard)
    → inactive g key ≡ false
    → Sharded.get key g.bans ≡ some e
    → covers now (some e) ≡ true
    → g.cfg.ban_ttl < since now e.window_start
    → 1 < g.cfg.ban_after_strikes
    → (is_banned key now g ≡ true) × (is_banned key t (strike key now g) ≡ false)
unfolding strike_target add_strike
strike_lifts_ban key now t e g on known active old threshold = (
  rw (is_banned-covers key now g, on, known) active,
  rw
      (
        is_banned-covers key t (strike key now g),
        strike-cfg key now g,
        on,
        strike-get key key now g on,
        str_eq_refl key,
        known,
      )
      (ground arith),
)
