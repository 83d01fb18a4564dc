-- ===== src/Pipeline/Composed/Sample.antt =====
-- A handler and a request for the tests. An address is a text of digits and dots, and a network an
-- address.
use ravenguard.Common.{
  ℕ, Bool, true, false, ◌&&◌, ◌||◌, none, some, [], ◌∷◌, ◌==◌, leb, if◌then◌else◌, Bytes, bytes,
  str_eq, Instant, length,
}
use ravenguard.Common.Int.{pos}
use ravenguard.Common.Net.{Net}
use ravenguard.BodyBuf.{no_body}
use ravenguard.Detect.Forge.{forge_auto}
use ravenguard.Detect.Requests.{Request}
use ravenguard.Detect.Score
use ravenguard.IpUtil.Forwarded.{forwarded_for}
use ravenguard.Pipeline.Handler.{HttpRequest, Packages, Handler}
use ravenguard.Semantic.Decoders.{query_unescape}

abbrev pub is_dotted : Bytes → Bool
is_dotted [] = true
is_dotted (c ∷ s) = (leb b'0' c && leb c b'9' || c == b'.') && is_dotted s

abbrev pub dotted_net : Net
dotted_net = record {
  Ip = Bytes;
  Cidr = Bytes;
  parse_ip = λ s. if is_dotted s then some s else none;
  parse_cidr = λ s. none;
  split_host = λ s. none;
  host_net = λ ip. ip;
  holds = λ n ip. str_eq n ip;
  show = λ ip. ip;
}

abbrev pub packages : Packages dotted_net
packages = record {
  bind = λ ip. if str_eq ip (bytes "9.9.9.9") then bytes "a" else ip;
  subnet = λ ip. ip;
  found = λ ps s. false;
  path_unescape = query_unescape;
  query_unescape = query_unescape;
  hmac = λ key message. length message ∷ key;
}

abbrev pub scores : Score.Config
scores = record {
  missing_ua_score = 40;
  scanner_ua_score = 60;
  ai_ua_score = 0;
  probe_path_score = 35;
  odd_method_score = 20;
  missing_accept_score = 10;
  missing_accept_lang_score = 10;
  missing_sec_fetch_score = 15;
  sec_ch_ua_mismatch_score = 25;
  star_accept_browser_score = 10;
  empty_form_context_score = 10;
  forum_write_path_score = 15;
  forge_expensive_score = 0;
  forge_flavor = forge_auto;
  proxy_bot_low_score = 0;
  proxy_bot_header = [];
  proxy_bot_score_header = [];
  missing_accept_enc_score = 12;
  sec_ch_ua_non_chromium_score = 25;
  http10_browser_score = 20;
  missing_content_type_score = 10;
  long_ua_score = 20;
  missing_uir_score = 0;
  sni_host_mismatch_score = 0;
  ai_ua_action = [];
}

abbrev pub handler : Handler dotted_net
handler = record {
  behind_proxy = true;
  trusted = bytes "10.0.0.1" ∷ [];
  real_ip_header = forwarded_for;
  lists = none;
  allows = none;
  threat_overlay = none;
  traps = none;
  semantic = none;
  ml = none;
  max_body_inspect = 0;
  routes = none;
  skip_path_prefixes = [];
  access = none;
  detect_cfg = scores;
}

abbrev pub base : Request
base = record {
  method = bytes "GET";
  path = bytes "/";
  raw_query = [];
  host = bytes "www.Evil.example:443";
  proto_major = 1;
  proto_minor = 1;
  server_name = none;
  has_body = false;
  header = λ name. if str_eq name forwarded_for then bytes "6.6.6.6,9.9.9.9" else [];
}

abbrev pub request : HttpRequest
request = record {
  base = base;
  raw_path = [];
  remote_addr = bytes "10.0.0.1";
  tls = false;
  content_length = pos 0;
  body = record { body = no_body; content_length = some 0; get_body = none };
  cookie = λ name. none;
}

abbrev pub still : ℕ → Instant
still n = 5
