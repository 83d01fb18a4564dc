-- ===== src/Protect/Guard.antt =====
-- internal/protect/protect.go: the guard's state.
use ravenguard.Common.{ℕ, List, [], ◌∷◌, Instant}
use ravenguard.Common.Int.{ℤ, pos}
use ravenguard.Common.Dict.{Dict}
use ravenguard.Common.Sharded
use ravenguard.Common.Sharded.{Sharded}
use ravenguard.Protect.Config.{Config, with_defaults, update_config}

pub record BanEntry : Type 0 where
  pub banned_until : Instant
  pub strikes : ℕ
  pub window_start : Instant
  pub bans : ℕ

-- `clients` holds the counter of each client, and `pool` the entries put back into banEntryPool.
pub record Guard : Type 0 where
  pub cfg : Config
  pub global : ℤ
  pub clients : Dict ℤ
  pub bans : Sharded BanEntry
  pub pool : List BanEntry

abbrev pub zero_entry : BanEntry
zero_entry = record { banned_until = 0; strikes = 0; window_start = 0; bans = 0 }

-- New
unfoldable pub new : Config → Guard
unfolding with_defaults Sharded.empty
new cfg = record {
  cfg = with_defaults cfg;
  global = pos 0;
  clients = [];
  bans = Sharded.empty 64;
  pool = [];
}

-- banEntryPool.Get(): an entry that was put back, or a new one.
unfoldable pub pool_get : List BanEntry → BanEntry
pool_get [] = zero_entry
pool_get (e ∷ rest) = e

unfoldable pub pool_rest : List BanEntry → List BanEntry
pool_rest [] = []
pool_rest (e ∷ rest) = rest

-- UpdateConfig
unfoldable pub reconfigure : Config → Guard → Guard
unfolding update_config
reconfigure cfg g = record g { cfg = update_config g.cfg cfg }
