-- ===== src/ThreatShare/Tests.antt =====
-- The threat overlay at concrete inputs.
use ravenguard.Common.{◌≡◌, refl, Bool, true, false, [], ◌∷◌, none, Bytes, bytes, str_eq}
use ravenguard.Common.Dict
use ravenguard.Common.Ascii.{trim_last_dot, trim_space, contains}
use ravenguard.ThreatShare.{
  Overlay, new_overlay, ThreatEntry, expiry, apply_key, apply_one, note_seen, put_ua, put_dns,
  put_ip, put_ja4, ua_blocked, ip_blocked, ja4_blocked, dns_blocked, sweep,
}
use ravenguard.ThreatShare.Blocks.{targets}
use ravenguard.ThreatShare.Seen.{run_all}

runs : Unit {0}
unfolding apply_one apply_key note_seen expiry put_ua put_dns put_ip put_ja4 trim_last_dot
    trim_space contains ua_blocked ip_blocked ja4_blocked dns_blocked sweep new_overlay Dict.get
    Dict.put Dict.delete Dict.keep str_eq run_all
runs = tt

abbrev no_ip : Bytes → Bool
no_ip s = false

abbrev bad_agent : ThreatEntry
bad_agent = record {
  id = bytes "1";
  key_type = bytes " UA";
  key = bytes "Bot";
  ttl_seconds = 60;
  reason = [];
  expires_at_unix = 0;
}

abbrev bad_host : ThreatEntry
bad_host = record bad_agent { id = bytes "2"; key_type = bytes "dns"; key = bytes "Bad.org." }

abbrev start : Overlay
start = new_overlay 10

abbrev after_agent : Overlay
after_agent = record start { ua = (bytes "bot", 60000000005) ∷ []; seen = (bytes "1", true) ∷ [] }

abbrev after_host : Overlay
after_host = record start {
  dns = (bytes "bad.org", 60000000005) ∷ [];
  seen = (bytes "2", true) ∷ [];
}

agent_applied :
    apply_one no_ip bad_agent 5 6 (targets none start) ≡ (targets none after_agent, true)
unfolding runs
agent_applied = refl

host_applied : apply_one no_ip bad_host 5 6 (targets none start) ≡ (targets none after_host, true)
unfolding runs
host_applied = refl
