-- ===== src/Protect/Bans/Pool.antt =====
-- The entries that are put back into banEntryPool have no strikes, so a new offender starts at 0.
use ravenguard.Common.{
  ℕ, ◌-◌, ◌≡◌, refl, List, [], ◌∷◌, Bytes, Instant, arith, All, Option, none, some,
}
use ravenguard.Common.Dict.{Dict}
use ravenguard.Common.Sharded
use ravenguard.Protect.Config.{Config}
use ravenguard.Protect.Guard.{Guard, BanEntry, pool_get, pool_rest, new}
use ravenguard.Protect.Bans.{
  banned, banned_entry, strike, ban_until, sweep, unban, unban_entry, swept, recycled, pool_after,
}

abbrev pub IsClear : List BanEntry → Type 0
IsClear pool = All (λ e. e.strikes ≡ 0) pool

pub pool_get-strikes : (pool : List BanEntry) → IsClear pool → (pool_get pool).strikes ≡ 0
unfolding pool_get
pool_get-strikes [] h = refl
pool_get-strikes (e ∷ rest) h = h.0

pool_rest-IsClear : (pool : List BanEntry) → IsClear pool → IsClear (pool_rest pool)
unfolding pool_rest
pool_rest-IsClear [] h = tt
pool_rest-IsClear (e ∷ rest) h = h.1

swept-IsClear :
    (cutoff : Instant) (m : Dict BanEntry) (pool : List BanEntry)
    → IsClear pool
    → IsClear (swept cutoff m pool)
unfolding swept
swept-IsClear cutoff [] pool h = h
swept-IsClear cutoff ((k, e) ∷ m) pool h = ground (arith, swept-IsClear cutoff m pool h)

recycled-IsClear :
    (o : Option BanEntry) (pool : List BanEntry) → IsClear pool → IsClear (recycled o pool)
recycled-IsClear none pool h = h
recycled-IsClear (some e) pool h = (refl, h)

pool_after-IsClear :
    (o : Option BanEntry) (pool : List BanEntry) → IsClear pool → IsClear (pool_after pool o)
unfolding pool_after
pool_after-IsClear none pool h = pool_rest-IsClear pool h
pool_after-IsClear (some e) pool h = h

-- One call of an operation that works on the bans, at any time.
pub data BanOp : Type 0 where
  do_banned : Bytes → Instant → BanOp
  do_strike : Bytes → Instant → BanOp
  do_ban : Bytes → Instant → Instant → BanOp
  do_unban : Bytes → BanOp
  do_sweep : Instant → ℕ → BanOp

unfoldable pub run : BanOp → Guard → Guard
run (do_banned key now) g = (banned key now g).0
run (do_strike key now) g = strike key now g
run (do_ban key until now) g = ban_until key until now g
run (do_unban key) g = (unban key g).0
run (do_sweep now age) g = sweep now age g

banned_pool :
    (key : Bytes) (now : Instant) (g : Guard) (o : Option BanEntry)
    → IsClear g.pool
    → IsClear (banned_entry key now g o).0.pool
unfolding banned_entry
banned_pool key now g none h = h
banned_pool key now g (some e) h = ground (arith, h)

unban_pool :
    (key : Bytes) (g : Guard) (o : Option BanEntry)
    → IsClear g.pool
    → IsClear (unban_entry key g o).0.pool
unfolding unban_entry
unban_pool key g none h = h
unban_pool key g (some e) h = (refl, h)

run-IsClear : (op : BanOp) (g : Guard) → IsClear g.pool → IsClear (run op g).pool
unfolding run
run-IsClear (do_banned key now) g h =
    unfold banned in ground (arith, banned_pool key now g (Sharded.get key g.bans) h)
run-IsClear (do_strike key now) g h =
    unfold strike in ground (arith, pool_after-IsClear (Sharded.get key g.bans) g.pool h)
run-IsClear (do_ban key until now) g h =
    unfold ban_until in
    ground (arith, pool_rest-IsClear _ (recycled-IsClear (Sharded.get key g.bans) g.pool h))
run-IsClear (do_unban key) g h =
    unfold unban in ground (arith, unban_pool key g (Sharded.get key g.bans) h)
run-IsClear (do_sweep now age) g h =
    unfold sweep in swept-IsClear (now - age) (Sharded.entries g.bans) g.pool h

unfoldable pub run_all : List BanOp → Guard → Guard
unfolding run
run_all [] g = g
run_all (op ∷ ops) g = run_all ops (run op g)

run_all_from : (ops : List BanOp) (g : Guard) → IsClear g.pool → IsClear (run_all ops g).pool
unfolding run_all
run_all_from [] g h = h
run_all_from (op ∷ ops) g h = run_all_from ops (run op g) (run-IsClear op g h)

-- After any calls on the bans of a new guard, every pooled entry has no strikes.
pub run_all-IsClear : (ops : List BanOp) (cfg : Config) → IsClear (run_all ops (new cfg)).pool
run_all-IsClear ops cfg = run_all_from ops (new cfg) (unfold new in tt)
