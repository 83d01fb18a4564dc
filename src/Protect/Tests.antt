-- ===== src/Protect/Tests.antt =====
-- The protect theorems at concrete inputs, and tests of the operations.
use ravenguard.Common.{◌≡◌, refl, true, false, [], ◌∷◌, arith, Bytes, bytes, str_eq}
use ravenguard.Common.Int.{pos}
use ravenguard.Common.Sharded
use ravenguard.Protect.Config.{
  Config, with_defaults, check_request_size, url_too_large, method_cost,
}
use ravenguard.Protect.Guard.{Guard, BanEntry, new, reconfigure}
use ravenguard.Protect.Bans.{
  banned, strike, ban_until, sweep, unban, ban_count, list_bans, add_int64, ban_ttl_with_escalation,
}
use ravenguard.Protect.Bans.Expiry.{is_banned}
use ravenguard.Common.Dict
use ravenguard.Protect.Bans.Strikes.{strike_all, strikes_ban}
use ravenguard.Protect.Slots.{acquire, release, counter}
use ravenguard.Protect.Slots.Refinement.{Holds, has_room, after_acquire, acquire-Holds}

runs : Unit {0}
unfolding banned strike ban_until sweep unban ban_count list_bans acquire release new add_int64
    ban_ttl_with_escalation strike_all Sharded.get Sharded.put Sharded.delete Sharded.keep has_room
    reconfigure
runs = tt

abbrev pub cfg : Config
cfg = record {
  enabled = true;
  max_body_bytes = 0;
  max_header_bytes = 0;
  max_url_bytes = 20;
  max_concurrent_global = 2;
  max_concurrent_client = 1;
  ban_after_strikes = 2;
  ban_ttl = 100;
  ban_escalation = 0;
  attack_block = true;
  attack_score = 0;
  write_method_cost = 0;
}

abbrev cfg_off : Config
cfg_off = record cfg { enabled = false }

abbrev alice : Bytes
alice = bytes "a"

abbrev guard : Guard
guard = new cfg

too_long :
    check_request_size (with_defaults cfg) (bytes "/aaaaaaaaa") (bytes "bbbbbbbbbb") (pos 3)
    ≡ url_too_large
unfolding check_request_size with_defaults str_eq
too_long = refl

write_is_dear : method_cost (bytes "PUT") 0 ≡ 3
unfolding method_cost
write_is_dear = refl

strikes_ban_example : is_banned alice 1110 (strike_all alice (1000 ∷ 1050 ∷ []) guard) ≡ true
unfolding runs
strikes_ban_example =
    strikes_ban alice 1000 (1050 ∷ []) 1110 guard refl (omega arith) (omega arith) (omega arith)
      refl tt (omega arith) refl

abbrev serving : Guard
serving = ban_until alice 60 50 guard

abbrev escalating : Config
escalating = record cfg { ban_ttl = 600000000000; ban_escalation = 30 }

abbrev offender : BanEntry
offender = record { banned_until = 0; strikes = 4; window_start = 1000; bans = 24 }

abbrev repeat_guard : Guard
repeat_guard = record guard { cfg = escalating; bans = Sharded.put alice offender guard.bans }

guard_start : Holds guard []
unfolding runs counter Dict.get with_defaults
guard_start = record { enabled = refl; total = refl; each = λ k. ground arith }

acquire-Holds_example :
    ((acquire alice guard).1 ≡ has_room guard.cfg alice [])
    × Holds (acquire alice guard).0 (after_acquire guard.cfg alice [])
acquire-Holds_example = acquire-Holds alice guard [] guard_start
