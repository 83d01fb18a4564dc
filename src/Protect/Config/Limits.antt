-- ===== src/Protect/Config/Limits.antt =====
-- The limits of a running guard, and the size check.
use ravenguard.Common.{◌<◌, List, [], ◌∷◌, arith}
use ravenguard.Protect.Config.{Config, with_defaults, update_config}

-- Every limit is positive; BanEscalation is no limit and may be 0.
pub record HasLimits (cfg : Config) : Type 0 where
  pub body : 0 < cfg.max_body_bytes
  pub header : 0 < cfg.max_header_bytes
  pub url : 0 < cfg.max_url_bytes
  pub global : 0 < cfg.max_concurrent_global
  pub client : 0 < cfg.max_concurrent_client
  pub strikes : 0 < cfg.ban_after_strikes
  pub ttl : 0 < cfg.ban_ttl
  pub score : 0 < cfg.attack_score
  pub cost : 0 < cfg.write_method_cost

with_defaults-HasLimits : (cfg : Config) → HasLimits (with_defaults cfg)
unfolding with_defaults
with_defaults-HasLimits cfg = ground arith

update_config-HasLimits : (cur cfg : Config) → HasLimits cur → HasLimits (update_config cur cfg)
unfolding update_config
update_config-HasLimits cur cfg h = ground arith

-- The configuration of a guard after some updates.
unfoldable pub updated : Config → List Config → Config
updated cur [] = cur
updated cur (cfg ∷ later) = updated (update_config cur cfg) later

updated-HasLimits :
    (cur : Config) (updates : List Config) → HasLimits cur → HasLimits (updated cur updates)
unfolding updated
updated-HasLimits cur [] h = h
updated-HasLimits cur (cfg ∷ later) h =
    updated-HasLimits (update_config cur cfg) later (update_config-HasLimits cur cfg h)

-- Whatever a guard is made and updated with, every one of its limits is positive.
pub limits_set :
    (cfg : Config) (updates : List Config) → HasLimits (updated (with_defaults cfg) updates)
limits_set cfg updates = updated-HasLimits (with_defaults cfg) updates (with_defaults-HasLimits cfg)
