-- ===== src/Detect/Score/Tests.antt =====
-- The score of a concrete request.
use ravenguard.Common.{
  ◌≡◌, refl, true, false, Bool, [], ◌∷◌, List, Bytes, bytes, none, if◌then◌else◌, str_eq,
}
use ravenguard.Common.Ascii.{contains}
use ravenguard.Faststr.{has_prefix_fold, contains_fold}
use ravenguard.Detect.Forge.{forge_auto}
use ravenguard.Detect.Requests.{
  Request, header_has_token_fold, is_document_path, looks_browser_bytes, is_git_smart_http,
  ua_anomalous, is_document_get, missing_sec_fetch, sec_ch_ua_mismatch_bytes,
  sec_ch_ua_on_non_chromium_bytes, chromium_or_firefox_ua, missing_content_type_on_write,
  sni_host_mismatch,
}
use ravenguard.Detect.Paths.{is_write_method}
use ravenguard.Detect.Score.{Config, score, missing_accept_encoding, missing_fetch, probe_path}
use ravenguard.Detect.Score.Reasons.{sum_worth, Rising, score_reasons}

token_found : header_has_token_fold (bytes "keep-alive, Upgrade ") (bytes "upgrade") ≡ true
unfolding header_has_token_fold
token_found = refl

asset : is_document_path (bytes "/a.d/app.JS") ≡ false
unfolding is_document_path
asset = refl

abbrev settings : Config
settings = record {
  missing_ua_score = 40;
  scanner_ua_score = 60;
  ai_ua_score = 0;
  probe_path_score = 35;
  odd_method_score = 20;
  missing_accept_score = 10;
  missing_accept_lang_score = 10;
  missing_sec_fetch_score = 15;
  sec_ch_ua_mismatch_score = 25;
  star_accept_browser_score = 10;
  empty_form_context_score = 10;
  forum_write_path_score = 15;
  forge_expensive_score = 0;
  forge_flavor = forge_auto;
  proxy_bot_low_score = 0;
  proxy_bot_header = [];
  proxy_bot_score_header = [];
  missing_accept_enc_score = 12;
  sec_ch_ua_non_chromium_score = 25;
  http10_browser_score = 20;
  missing_content_type_score = 10;
  long_ua_score = 20;
  missing_uir_score = 0;
  sni_host_mismatch_score = 0;
  ai_ua_action = [];
}

abbrev headers : Bytes → Bytes
headers name =
    if str_eq name (bytes "User-Agent")
    then bytes "Mozilla/5.0"
    else if str_eq name (bytes "Accept")
    then bytes "text/html"
    else if str_eq name (bytes "Accept-Language")
    then bytes "de"
    else []

abbrev probing : Request
probing = record {
  method = bytes "GET";
  path = bytes "/.ENV";
  raw_query = [];
  host = bytes "a";
  proto_major = 1;
  proto_minor = 1;
  server_name = none;
  has_body = false;
  header = headers;
}

abbrev nowhere : List Bytes → Bytes → Bool
nowhere texts low = false

probing_reasons :
    (score nowhere probing settings true).reasons
    ≡ missing_accept_encoding ∷ missing_fetch ∷ probe_path ∷ []
unfolding score looks_browser_bytes is_git_smart_http has_prefix_fold contains_fold ua_anomalous
    is_document_get missing_sec_fetch sec_ch_ua_mismatch_bytes sec_ch_ua_on_non_chromium_bytes
    chromium_or_firefox_ua missing_content_type_on_write sni_host_mismatch is_write_method str_eq
    contains
probing_reasons = refl

score_reasons_example :
    ((score nowhere probing settings false).score ≡ (score nowhere probing settings true).score)
    × ((score nowhere probing settings false).reasons ≡ [])
    × ((score nowhere probing settings true).score
        ≡ sum_worth settings (score nowhere probing settings true).reasons)
    × Rising 0 22 (score nowhere probing settings true).reasons
score_reasons_example = score_reasons nowhere probing settings
