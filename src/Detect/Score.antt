-- ===== src/Detect/Score.antt =====
-- internal/detect/detect.go: Score and ScoreDebug. The search of faststr.Matcher for one of several
-- texts is a parameter.
pub mod Reasons
mod Tests
use ravenguard.Common.{
  ℕ, ◌+◌, Bool, true, false, ◌&&◌, ◌||◌, not, List, [], ◌∷◌, ◌++◌, ltb, leb, ◌==◌, if◌then◌else◌,
  Bytes, bytes, str_eq,
}
use ravenguard.Faststr.{append_lower_ascii, contains_fold, has_prefix_fold}
use ravenguard.Detect.Forge.{ForgeClass, forge_hot, ForgeFlavor, classify_request, eq_fold}
use ravenguard.Detect.Paths.{is_write_method, forum_write_path}
use ravenguard.Detect.Tables.{scanner_ua, ai_ua, probe_paths}
use ravenguard.Detect.Requests.{
  Request, lacks, is_git_smart_http, looks_browser_bytes, is_document_get, is_document_path,
  missing_sec_fetch, ua_anomalous, chromium_or_firefox_ua, sec_ch_ua_on_non_chromium_bytes,
  missing_content_type_on_write, sni_host_mismatch, sec_ch_ua_mismatch_bytes,
  is_browser_form_content_type, proxy_header_low,
}

pub record Config : Type 0 where
  pub missing_ua_score : ℕ
  pub scanner_ua_score : ℕ
  pub ai_ua_score : ℕ
  pub probe_path_score : ℕ
  pub odd_method_score : ℕ
  pub missing_accept_score : ℕ
  pub missing_accept_lang_score : ℕ
  pub missing_sec_fetch_score : ℕ
  pub sec_ch_ua_mismatch_score : ℕ
  pub star_accept_browser_score : ℕ
  pub empty_form_context_score : ℕ
  pub forum_write_path_score : ℕ
  pub forge_expensive_score : ℕ
  pub forge_flavor : ForgeFlavor
  pub proxy_bot_low_score : ℕ
  pub proxy_bot_header : Bytes
  pub proxy_bot_score_header : Bytes
  pub missing_accept_enc_score : ℕ
  pub sec_ch_ua_non_chromium_score : ℕ
  pub http10_browser_score : ℕ
  pub missing_content_type_score : ℕ
  pub long_ua_score : ℕ
  pub missing_uir_score : ℕ
  pub sni_host_mismatch_score : ℕ
  pub ai_ua_action : Bytes

-- The reason strings, in the order in which the code may add them.
pub data Reason : Type 0 where
  git_ua_on_non_smart_path missing_ua scanner ai ua_anomaly missing_accept : Reason
  missing_accept_lang missing_accept_encoding missing_fetch sec_ch_ua_mismatch : Reason
  sec_ch_ua_non_chromium http10_browser missing_upgrade_insecure missing_content_type : Reason
  star_accept_browser empty_form_context forum_write_page sni_mismatch odd_method : Reason
  probe_path forge_expensive proxy_bot_score : Reason

pub record Result : Type 0 where
  pub score : ℕ
  pub reasons : List Reason

-- One signal: what it adds to the score and, if the reasons are wanted, to them.
unfoldable pub signal : Bool → Bool → Reason → ℕ → Result → Result
signal want test reason points res =
    if test
    then record {
      score = res.score + points;
      reasons = if want then res.reasons ++ reason ∷ [] else res.reasons;
    }
    else res

abbrev pub ai_points : Config → ℕ
ai_points cfg = if cfg.ai_ua_score == 0 then cfg.scanner_ua_score else cfg.ai_ua_score

abbrev is_known_method : Bytes → Bool
is_known_method m =
    str_eq m (bytes "GET")
    || str_eq m (bytes "HEAD")
    || str_eq m (bytes "POST")
    || str_eq m (bytes "PUT")
    || str_eq m (bytes "PATCH")
    || str_eq m (bytes "DELETE")
    || str_eq m (bytes "OPTIONS")

abbrev any_probe : Bytes → List Bytes → Bool
any_probe path [] = false
any_probe path (p ∷ ps) = has_prefix_fold path p || contains_fold path p || any_probe path ps

abbrev is_hot : ForgeClass → Bool
is_hot c = elim c [ forge_hot ↦ true | _ ↦ false ]

module _ (found : List Bytes → Bytes → Bool) (r : Request) (cfg : Config) (want : Bool) where
  abbrev ua : Bytes
  ua = r.header (bytes "User-Agent")

  abbrev low : Bytes
  low = append_lower_ascii ua

  -- The lines about the User-Agent and Accept.
  unfoldable pub score_agent : Result → Result
  score_agent res =
      let some_ua = not (str_eq ua []) in
      let res =
        signal want (has_prefix_fold ua (bytes "git/")) git_ua_on_non_smart_path
          cfg.scanner_ua_score res in
      let res = signal want (not some_ua) missing_ua cfg.missing_ua_score res in
      let res = signal want (some_ua && found scanner_ua low) scanner cfg.scanner_ua_score res in
      let res =
        signal want (some_ua && (found ai_ua low && not (eq_fold cfg.ai_ua_action (bytes "allow"))))
          ai (ai_points cfg) res in
      let res =
        signal want (some_ua && (ua_anomalous ua && ltb 0 cfg.long_ua_score)) ua_anomaly
          cfg.long_ua_score res in
      signal want (lacks r (bytes "Accept")) missing_accept cfg.missing_accept_score res

  -- scoreFormSpam
  unfoldable pub score_form_spam : Result → Result
  score_form_spam res =
      if not (is_write_method r.method)
      then res
      else let empty_ctx = lacks r (bytes "Origin") && lacks r (bytes "Referer") in
        let form_like = is_browser_form_content_type (r.header (bytes "Content-Type")) in
        let forum_path = forum_write_path r.path in
        let res =
          signal want
            (empty_ctx && (ltb 0 cfg.empty_form_context_score && (form_like || forum_path)))
            empty_form_context cfg.empty_form_context_score res in
        signal want
          (forum_path && (ltb 0 cfg.forum_write_path_score && (empty_ctx || missing_sec_fetch r)))
          forum_write_page cfg.forum_write_path_score res

  -- The lines for a User-Agent that looks like a browser's.
  unfoldable pub score_browser : Result → Result
  unfolding score_form_spam
  score_browser res =
      let mismatch = sec_ch_ua_mismatch_bytes r low in
      let res =
        signal want (lacks r (bytes "Accept-Language") && ltb 0 cfg.missing_accept_lang_score)
          missing_accept_lang cfg.missing_accept_lang_score res in
      let res =
        signal want (lacks r (bytes "Accept-Encoding") && ltb 0 cfg.missing_accept_enc_score)
          missing_accept_encoding cfg.missing_accept_enc_score res in
      let res =
        signal want
          (is_document_get r && (missing_sec_fetch r && ltb 0 cfg.missing_sec_fetch_score))
          missing_fetch cfg.missing_sec_fetch_score res in
      let res =
        signal want (mismatch && ltb 0 cfg.sec_ch_ua_mismatch_score) sec_ch_ua_mismatch
          cfg.sec_ch_ua_mismatch_score res in
      let res =
        signal want
          (not mismatch
            && (sec_ch_ua_on_non_chromium_bytes r low && ltb 0 cfg.sec_ch_ua_non_chromium_score))
          sec_ch_ua_non_chromium cfg.sec_ch_ua_non_chromium_score res in
      let res =
        signal want (r.proto_major == 1 && (r.proto_minor == 0 && ltb 0 cfg.http10_browser_score))
          http10_browser cfg.http10_browser_score res in
      let res =
        signal want
          (chromium_or_firefox_ua low
            && (is_document_get r
                && (lacks r (bytes "Upgrade-Insecure-Requests") && ltb 0 cfg.missing_uir_score)))
          missing_upgrade_insecure cfg.missing_uir_score res in
      let res =
        signal want (missing_content_type_on_write r && ltb 0 cfg.missing_content_type_score)
          missing_content_type cfg.missing_content_type_score res in
      let res =
        signal want
          (str_eq (r.header (bytes "Accept")) (bytes "*/*")
            && (is_document_path r.path && ltb 0 cfg.star_accept_browser_score))
          star_accept_browser cfg.star_accept_browser_score res in
      score_form_spam res

  -- The lines about the connection, the method and the path.
  unfoldable pub score_target : Result → Result
  score_target res =
      let res =
        signal want (ltb 0 cfg.sni_host_mismatch_score && sni_host_mismatch r) sni_mismatch
          cfg.sni_host_mismatch_score res in
      let res = signal want (not (is_known_method r.method)) odd_method cfg.odd_method_score res in
      let res = signal want (any_probe r.path probe_paths) probe_path cfg.probe_path_score res in
      signal want
        (ltb 0 cfg.forge_expensive_score
          && is_hot (classify_request cfg.forge_flavor r.path r.raw_query))
        forge_expensive cfg.forge_expensive_score res

  -- The test of scoreProxySignals for one of the two headers.
  abbrev named_low : Bytes → Bool
  named_low name = not (str_eq name []) && proxy_header_low r name

  -- scoreProxySignals: the second header counts only if the first does not.
  unfoldable pub score_proxy_signals : Result → Result
  score_proxy_signals res =
      if cfg.proxy_bot_low_score == 0
      then res
      else if named_low cfg.proxy_bot_header
      then signal want true proxy_bot_score cfg.proxy_bot_low_score res
      else signal want (named_low cfg.proxy_bot_score_header) proxy_bot_score
          cfg.proxy_bot_low_score res

  unfoldable pub score : Result
  unfolding score_agent score_browser score_target score_proxy_signals signal
  score =
      let start : Result = record { score = 0; reasons = [] } in
      let agent = score_agent start in
      let browser = if looks_browser_bytes low then score_browser agent else agent in
      if is_git_smart_http r then start else score_proxy_signals (score_target browser)

-- IsAIUA and IsScannerUA, by way of matchAnyFold
unfoldable pub match_any_fold : (List Bytes → Bytes → Bool) → Bytes → List Bytes → Bool
match_any_fold found ua list = if str_eq ua [] then false else found list (append_lower_ascii ua)

abbrev pub is_ai_ua : (List Bytes → Bytes → Bool) → Bytes → Bool
is_ai_ua found ua = match_any_fold found ua ai_ua

abbrev pub is_scanner_ua : (List Bytes → Bytes → Bool) → Bytes → Bool
is_scanner_ua found ua = match_any_fold found ua scanner_ua || match_any_fold found ua ai_ua
