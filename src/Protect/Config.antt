-- ===== src/Protect/Config.antt =====
-- internal/protect/protect.go: the configuration, its defaults and its live update.
-- Go's ints are read as ℕ here: a negative setting is treated by every test below as 0 is.
pub mod Limits
use ravenguard.Common.{
  ℕ, ◌+◌, ◌<◌, ◌≤◌, ◌≡◌, Bool, true, false, ◌||◌, not, Option, none, some, [], arith, ltb, leb,
  ◌==◌, if◌then◌else◌, Bytes, bytes, str_eq, length,
}
use ravenguard.Common.Int.{ℤ, ltb_ℤ, pos}

pub record Config : Type 0 where
  pub enabled : Bool
  pub max_body_bytes : ℕ
  pub max_header_bytes : ℕ
  pub max_url_bytes : ℕ
  pub max_concurrent_global : ℕ
  pub max_concurrent_client : ℕ
  pub ban_after_strikes : ℕ
  pub ban_ttl : ℕ
  pub ban_escalation : ℕ
  pub attack_block : Bool
  pub attack_score : ℕ
  pub write_method_cost : ℕ

-- `if x <= 0 { x = d }`
abbrev pub or_default : ℕ → ℕ → ℕ
or_default x d = if x == 0 then d else x

-- The defaults that New fills in; a duration is in nanoseconds.
unfoldable pub with_defaults : Config → Config
with_defaults cfg = record cfg {
  max_body_bytes = or_default cfg.max_body_bytes 1048576;
  max_header_bytes = or_default cfg.max_header_bytes 16384;
  max_url_bytes = or_default cfg.max_url_bytes 8192;
  max_concurrent_global = or_default cfg.max_concurrent_global 2048;
  max_concurrent_client = or_default cfg.max_concurrent_client 16;
  ban_after_strikes = or_default cfg.ban_after_strikes 5;
  ban_ttl = or_default cfg.ban_ttl 600000000000;
  write_method_cost = or_default cfg.write_method_cost 3;
  attack_score = or_default cfg.attack_score 90;
}

-- UpdateConfig: a setting that is 0 leaves the current one; the two switches are always taken.
unfoldable pub update_config : Config → Config → Config
update_config cur cfg = record {
  enabled = cfg.enabled;
  max_body_bytes = or_default cfg.max_body_bytes cur.max_body_bytes;
  max_header_bytes = or_default cfg.max_header_bytes cur.max_header_bytes;
  max_url_bytes = or_default cfg.max_url_bytes cur.max_url_bytes;
  max_concurrent_global = or_default cfg.max_concurrent_global cur.max_concurrent_global;
  max_concurrent_client = or_default cfg.max_concurrent_client cur.max_concurrent_client;
  ban_after_strikes = or_default cfg.ban_after_strikes cur.ban_after_strikes;
  ban_ttl = or_default cfg.ban_ttl cur.ban_ttl;
  ban_escalation = or_default cfg.ban_escalation cur.ban_escalation;
  attack_block = cfg.attack_block;
  attack_score = or_default cfg.attack_score cur.attack_score;
  write_method_cost = or_default cfg.write_method_cost cur.write_method_cost;
}

-- The getters; `none` is a nil guard.
unfoldable pub max_body_bytes : Option Config → ℕ
max_body_bytes none = 1048576
max_body_bytes (some cfg) = cfg.max_body_bytes

unfoldable pub max_header_bytes : Option Config → ℕ
max_header_bytes none = 16384
max_header_bytes (some cfg) = cfg.max_header_bytes

unfoldable pub write_cost : Option Config → ℕ
write_cost none = 3
write_cost (some cfg) = or_default cfg.write_method_cost 3

unfoldable pub attack_score : Option Config → ℕ
attack_score none = 90
attack_score (some cfg) = cfg.attack_score

pub data SizeVerdict : Type 0 where
  size_ok url_too_large body_too_large : SizeVerdict

-- len(r.URL.Path), and the query with its question mark.
unfoldable pub url_length : Bytes → Bytes → ℕ
url_length path query = length path + (if str_eq query [] then 0 else 1 + length query)

-- CheckRequestSize for a request with a URL; an unknown content length is -1.
unfoldable pub check_request_size : Config → Bytes → Bytes → ℤ → SizeVerdict
unfolding url_length
check_request_size cfg path query content_length =
    if not cfg.enabled
    then size_ok
    else if ltb cfg.max_url_bytes (url_length path query)
    then url_too_large
    else if ltb_ℤ (pos cfg.max_body_bytes) content_length
    then body_too_large
    else size_ok

-- LimitBody: the cap that http.MaxBytesReader is given, if the body is wrapped.
unfoldable pub limit_body : Config → Option ℕ
limit_body cfg = if cfg.enabled then some cfg.max_body_bytes else none

-- MethodCost
unfoldable pub method_cost : Bytes → ℕ → ℕ
unfolding str_eq
method_cost method cost =
    if str_eq method (bytes "POST")
      || str_eq method (bytes "PUT")
      || str_eq method (bytes "PATCH")
      || str_eq method (bytes "DELETE")
    then or_default cost 3
    else 1
