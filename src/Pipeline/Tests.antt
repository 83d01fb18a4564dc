-- ===== src/Pipeline/Tests.antt =====
-- guard at concrete inputs.
use ravenguard.Common.{
  Option, Bytes, ◌∷◌, ℕ, ◌≡◌, refl, true, false, none, some, [], bytes, arith, str_eq,
}
use ravenguard.Common.Int.{pos}
use ravenguard.Common.Sharded
use ravenguard.Common.Dict
use ravenguard.Detect.Forge.{forge_auto}
use ravenguard.Protect.Config.{Config, check_request_size, url_length, with_defaults}
use ravenguard.Protect.Guard.{Guard, new}
use ravenguard.Protect.Bans.{banned, ban_until, banned_entry}
use ravenguard.Protect.Slots.Refinement.{Holds, held}
use ravenguard.Protect.Slots.{counter}
use ravenguard.RateLimit.Floats.{nano}
use ravenguard.Pipeline.{ai_allow, trap_ban, count_block, wba_none, Settings, Facts, proxied, Edge}
use ravenguard.Pipeline.Steps.{global_step, subnet_step, client_step}
use ravenguard.Pipeline.Detection.{
  visit_step, score_step, threshold_step, missing_step, penalty_step,
}
use ravenguard.Pipeline.Gates.{is_proxied}
use ravenguard.Pipeline.Serve.{guard}
use ravenguard.Pipeline.Barred.{guard-barred}
use ravenguard.Pipeline.Slots.{HoldsIn, guard-Holds}
use ravenguard.Common.Ascii.{has_prefix, trim_space}
use ravenguard.Pipeline.Requests.{strip_port}
use ravenguard.Pipeline.Redirect.{
  Parsed, IsRooted, Kept, any_unsafe, safe_next_path, challenge_return_to,
  challenge_return_to-IsRooted,
}

abbrev pub cfg : Config
cfg = record {
  enabled = true;
  max_body_bytes = 0;
  max_header_bytes = 0;
  max_url_bytes = 0;
  max_concurrent_global = 2;
  max_concurrent_client = 1;
  ban_after_strikes = 2;
  ban_ttl = 100;
  ban_escalation = 0;
  attack_block = true;
  attack_score = 0;
  write_method_cost = 0;
}

abbrev pub prot : Guard
prot = new cfg

abbrev pub settings : Settings
settings = record {
  rate_limit = true;
  challenge_over = false;
  detect = true;
  challenge = true;
  challenge_always = false;
  block_score = 100;
  challenge_score = 50;
  write_cost = 3;
  forge_rate_cost = 5;
  forge_flavor = forge_auto;
  ai_policy = ai_allow;
  wba_spoof = 40;
  crawler_spoof = 40;
  high404_action = count_block;
  pen_action = count_block;
  trap_action = trap_ban;
  trap_ban_ttl = 3600;
  caches_misses = false;
}

abbrev pub visit : Facts
visit = record {
  key = bytes "a";
  path = bytes "/";
  raw_query = [];
  method = bytes "GET";
  user_agent = bytes "x";
  content_length = pos 0;
  has_client_ip = true;
  subnet_key = [];
  allowed = false;
  git_smart_http = false;
  stream = false;
  websocket = false;
  sse_subresource = false;
  wants_html = true;
  subrequest = false;
  ip_blocked = false;
  host_blocked = false;
  ua_blocked = false;
  shared_ip = false;
  shared_host = false;
  shared_ua = false;
  shared_ja4 = false;
  feed_ip = false;
  feed_domain = false;
  trap = false;
  upstream_healthy = true;
  coraza_block = false;
  coraza_mode_block = false;
  attack = false;
  semantic_stop = none;
  ml_extra = 0;
  semantic_challenge = false;
  web_bot = wba_none;
  score = λ forgiven. 10;
  crawler_spoofed = false;
  ai_ua = false;
  ai_paid = false;
  has_challenge = true;
  skip_challenge = false;
  has_clearance = false;
  access_ok = true;
  schema_ok = true;
  status = 200;
}

abbrev attacker : Facts
attacker = record visit { attack = true }

abbrev listed_client : Facts
listed_client = record visit { allowed = true; shared_ip = true }

abbrev pub edge : Edge ℕ
edge = record {
  prot = some prot;
  global_limit = none;
  subnet_limit = none;
  limiter = none;
  beh = none;
  nf = none;
  pen = none;
}

guard-barred_example : is_proxied (guard settings listed_client 10 nano edge).1 ≡ false
guard-barred_example = guard-barred settings listed_client 10 nano edge refl

prot_start : Holds prot []
unfolding new with_defaults Dict.get counter held
prot_start = record { enabled = refl; total = refl; each = λ k. ground arith }

guard-Holds_example : HoldsIn (guard settings visit 10 nano edge).0.prot []
guard-Holds_example = guard-Holds settings visit 10 nano edge prot [] refl prot_start

abbrev pub banning : Guard
banning = ban_until (bytes "a") 50 10 prot

runs : Unit {0}
unfolding new with_defaults banned banned_entry ban_until check_request_size url_length Sharded.get
    Sharded.put Sharded.delete Sharded.empty Dict.get Dict.put Dict.delete str_eq
runs = tt

serves : Unit {0}
unfolding guard new with_defaults banned banned_entry check_request_size url_length Sharded.get
    Sharded.empty Dict.get Dict.put Dict.delete str_eq global_step subnet_step client_step
    visit_step score_step threshold_step missing_step penalty_step
serves = tt

-- A visit with a low score passes.
visit_passes : (guard settings visit 10 nano edge).1 ≡ proxied
unfolding serves
visit_passes = refl

abbrev parsed_as : Bytes → Option Parsed
parsed_as referer = some (record {
  host = bytes "Example.org:443";
  escaped_path = bytes "/list";
  raw_query = bytes "p=2";
})

challenge_return_to-IsRooted_example :
    IsRooted (
      challenge_return_to parsed_as
        (bytes "https://Example.org:443/list?p=2")
        (bytes "example.org"))
    × Kept (bytes "//evil.example/") (safe_next_path (bytes "//evil.example/"))
unfolding trim_space
challenge_return_to-IsRooted_example =
    challenge_return_to-IsRooted parsed_as (bytes "https://Example.org:443/list?p=2")
      (bytes "example.org") (bytes "//evil.example/")

redirects : Unit {0}
unfolding safe_next_path challenge_return_to any_unsafe has_prefix trim_space strip_port str_eq
redirects = tt

returns_to_list :
    challenge_return_to parsed_as (bytes "https://Example.org:443/list?p=2") (bytes "example.org")
    ≡ bytes "/list?p=2"
unfolding redirects
returns_to_list = refl

-- A tab between two slashes is kept.
tab_passes : safe_next_path (b'/' ∷ 9 ∷ bytes "/evil.example") ≡ b'/' ∷ 9 ∷ bytes "/evil.example"
unfolding redirects
tab_passes = refl
