-- ===== src/Protect/Slots.antt =====
-- internal/protect/protect.go: in-flight slots, Acquire and Release, each run without another
-- operation between its steps.
pub mod Refinement
pub mod Traffic
use ravenguard.Common.{
  ℕ, Bool, true, false, not, Option, none, some, [], ltb, if◌then◌else◌, Bytes, str_eq, length,
}
use ravenguard.Common.Int.{ℤ, pos, ltb_ℤ, inc, dec}
use ravenguard.Common.Dict
use ravenguard.Common.Dict.{Dict}
use ravenguard.Protect.Guard.{Guard}

-- What the counter of a client reads; LoadOrStore starts a new one at 0.
unfoldable pub counter : Option ℤ → ℤ
counter none = pos 0
counter (some n) = n

-- The part of Acquire behind the global slot.
unfoldable pub acquire_client : Bytes → Guard → Guard × Bool
unfolding counter inc dec
acquire_client key g =
    let n = inc (counter (Dict.get key g.clients)) in
    if ltb_ℤ (pos g.cfg.max_concurrent_client) n
    then (record g { clients = Dict.put key (dec n) g.clients; global = dec g.global }, false)
    else (record g { clients = Dict.put key n g.clients }, true)

-- Acquire
unfoldable pub acquire : Bytes → Guard → Guard × Bool
unfolding acquire_client
acquire key g =
    if not g.cfg.enabled
    then (g, true)
    else if not (ltb_ℤ g.global (pos g.cfg.max_concurrent_global))
    then (g, false)
    else if str_eq key []
    then (record g { global = inc g.global }, true)
    else acquire_client key (record g { global = inc g.global })

unfoldable pub release_client : Bytes → Dict ℤ → Option ℤ → Dict ℤ
unfolding dec
release_client key clients none = clients
release_client key clients (some n) = Dict.put key (dec n) clients

-- Release
unfoldable pub release : Bytes → Guard → Guard
unfolding release_client
release key g =
    if not g.cfg.enabled
    then g
    else if str_eq key []
    then record g { global = dec g.global }
    else record g {
      global = dec g.global;
      clients = release_client key g.clients (Dict.get key g.clients);
    }

-- Concurrency: the global counter and the number of client counters.
unfoldable pub concurrency : Guard → ℤ × ℕ
concurrency g = (g.global, length g.clients)
