-- ===== src/Detect/Requests.antt =====
-- internal/detect/detect.go: what the score asks of a request.
use mathlib.Core.List.{reverse}
use ravenguard.Common.{
  ℕ, Bool, true, false, ◌&&◌, ◌||◌, not, Option, none, some, List, [], ◌∷◌, ltb, leb, ◌==◌,
  if◌then◌else◌, Bytes, bytes, str_eq, length,
}
use ravenguard.Common.Ascii.{has_prefix, has_suffix, to_lower, trim_space, lower_char}
use ravenguard.Common.Strings.{parse_int}
use ravenguard.Common.Int64.{Int64}
use ravenguard.Faststr.{
  contains_bytes, contains_fold, has_prefix_fold, append_lower_ascii, trim_blanks,
}
use ravenguard.Detect.Forge.{eq_fold}
use ravenguard.Detect.Paths.{is_write_method}
use ravenguard.Detect.RawQuery.{raw_query_value}

-- What is read of an http.Request. `header` is Header.Get, a missing name or value being empty;
-- `server_name` is that of a TLS connection; `has_body` says that the length is not 0 or that there
-- is a body.
pub record Request : Type 0 where
  pub method : Bytes
  pub path : Bytes
  pub raw_query : Bytes
  pub host : Bytes
  pub proto_major : ℕ
  pub proto_minor : ℕ
  pub server_name : Option Bytes
  pub has_body : Bool
  pub header : Bytes → Bytes

abbrev pub lacks : Request → Bytes → Bool
lacks r name = str_eq (r.header name) []

unfoldable pub is_git_smart_http : Request → Bool
unfolding has_prefix_fold has_suffix raw_query_value
is_git_smart_http r =
    if not (has_prefix_fold (r.header (bytes "User-Agent")) (bytes "git/"))
    then false
    else if has_suffix r.path (bytes "/git-upload-pack")
        || has_suffix r.path (bytes "/git-receive-pack")
    then true
    else if has_suffix r.path (bytes "/info/refs")
    then elim (raw_query_value r.raw_query (bytes "service")) [
      | none ↦ false
      | some svc ↦ eq_fold svc (bytes "git-upload-pack") || eq_fold svc (bytes "git-receive-pack")
    ]
    else false

unfoldable pub looks_browser_bytes : Bytes → Bool
looks_browser_bytes low =
    ltb 0 (length low)
    && (contains_bytes low (bytes "mozilla/")
        || contains_bytes low (bytes "chrome/")
        || contains_bytes low (bytes "safari/")
        || contains_bytes low (bytes "firefox/")
        || contains_bytes low (bytes "edg/"))

-- The loop of isDocumentPath, over the reversed path: the text from the last dot of the last segment.
abbrev extension : Bytes → Bytes → Option Bytes
extension [] behind = none
extension (c ∷ s) behind =
    let rest = extension s (c ∷ behind) in
    if c == b'/' then none else if c == b'.' then some (c ∷ behind) else rest

unfoldable pub equal_fold_ext : Bytes → Bytes → Bool
equal_fold_ext [] [] = true
equal_fold_ext [] (b ∷ t) = false
equal_fold_ext (a ∷ s) [] = false
equal_fold_ext (a ∷ s) (b ∷ t) = (a == b || lower_char a == b) && equal_fold_ext s t

abbrev any_ext : Bytes → List Bytes → Bool
any_ext ext [] = false
any_ext ext (w ∷ ws) = equal_fold_ext ext w || any_ext ext ws

abbrev asset_exts : List Bytes
asset_exts =
    bytes ".js"
    ∷ bytes ".css"
    ∷ bytes ".png"
    ∷ bytes ".jpg"
    ∷ bytes ".jpeg"
    ∷ bytes ".gif"
    ∷ bytes ".webp"
    ∷ bytes ".ico"
    ∷ bytes ".svg"
    ∷ bytes ".woff"
    ∷ bytes ".woff2"
    ∷ bytes ".ttf"
    ∷ bytes ".map"
    ∷ bytes ".json"
    ∷ bytes ".xml"
    ∷ []

abbrev page_exts : List Bytes
page_exts =
    bytes ".html" ∷ bytes ".htm" ∷ bytes ".php" ∷ bytes ".asp" ∷ bytes ".aspx" ∷ bytes ".jsp" ∷ []

unfoldable pub is_document_path : Bytes → Bool
unfolding equal_fold_ext str_eq
is_document_path path =
    if str_eq path [] || str_eq path (bytes "/") then true else elim (extension (reverse path) []) [
      | none ↦ true
      | some ext ↦
          if any_ext ext page_exts then true else if any_ext ext asset_exts then false else true
    ]

unfoldable pub is_document_get : Request → Bool
unfolding is_document_path
is_document_get r = str_eq r.method (bytes "GET") && is_document_path r.path

unfoldable pub missing_sec_fetch : Request → Bool
missing_sec_fetch r =
    lacks r (bytes "Sec-Fetch-Site")
    && lacks r (bytes "Sec-Fetch-Mode")
    && lacks r (bytes "Sec-Fetch-Dest")

abbrev any_control : Bytes → Bool
any_control [] = false
any_control (c ∷ s) = (ltb c 0x20 && not (c == 9)) || any_control s

unfoldable pub ua_anomalous : Bytes → Bool
ua_anomalous ua = if ltb 280 (length ua) then true else any_control ua

unfoldable pub chromium_or_firefox_ua : Bytes → Bool
chromium_or_firefox_ua low =
    contains_bytes low (bytes "chrome/")
    || contains_bytes low (bytes "edg/")
    || contains_bytes low (bytes "firefox/")

unfoldable pub sec_ch_ua_on_non_chromium_bytes : Request → Bytes → Bool
sec_ch_ua_on_non_chromium_bytes r low =
    if lacks r (bytes "Sec-CH-UA")
    then false
    else not (
        contains_bytes low (bytes "chrome/")
        || contains_bytes low (bytes "chromium")
        || contains_bytes low (bytes "edg/")
        || contains_bytes low (bytes "opr/"))

unfoldable pub missing_content_type_on_write : Request → Bool
unfolding is_write_method
missing_content_type_on_write r =
    if not (is_write_method r.method) then false else r.has_body && lacks r (bytes "Content-Type")

abbrev before_colon : Bytes → Bytes
before_colon [] = []
before_colon (c ∷ s) = let rest = before_colon s in if c == b':' then [] else c ∷ rest

abbrev trim_reversed : Bytes → Bytes
trim_reversed [] = []
trim_reversed (c ∷ s) = if c == b'.' then s else c ∷ s

-- strings.TrimSuffix with a dot.
abbrev trim_dot : Bytes → Bytes
trim_dot s = reverse (trim_reversed (reverse s))

abbrev other_site : Bytes → Bytes → Bool
other_site host name =
    if str_eq name []
    then false
    else let host = trim_dot (before_colon host) in
      if str_eq host [] then false else not (eq_fold host (trim_dot name))

unfoldable pub sni_host_mismatch : Request → Bool
sni_host_mismatch r = elim r.server_name [ none ↦ false | some name ↦ other_site r.host name ]

unfoldable pub sec_ch_ua_mismatch_bytes : Request → Bytes → Bool
sec_ch_ua_mismatch_bytes r low =
    if lacks r (bytes "Sec-CH-UA")
    then false
    else let hints = append_lower_ascii (r.header (bytes "Sec-CH-UA")) in
      if contains_bytes low (bytes "firefox/") && contains_bytes hints (bytes "chrome")
      then true
      else if contains_bytes low (bytes "edg/")
      then false
      else if contains_bytes low (bytes "chrome/")
          && not (contains_bytes low (bytes "edg/"))
          && contains_bytes hints (bytes "firefox")
      then true
      else contains_bytes low (bytes "safari/")
        && not (contains_bytes low (bytes "chrome/"))
        && contains_bytes hints (bytes "chrome")

unfoldable pub is_browser_form_content_type : Bytes → Bool
unfolding has_prefix
is_browser_form_content_type ct =
    let ct = to_lower (trim_space ct) in
    if str_eq ct []
    then false
    else has_prefix ct (bytes "application/x-www-form-urlencoded")
      || has_prefix ct (bytes "multipart/form-data")

-- A score of the proxy in front, in the named header, from 1 to 29.
abbrev is_low : Option Int64 → Bool
is_low none = false
is_low (some n) = ltb 0 n && ltb n 30

-- The test of scoreProxyHeader.
unfoldable pub proxy_header_low : Request → Bytes → Bool
unfolding parse_int trim_blanks
proxy_header_low r name =
    let raw = trim_blanks (r.header name) in if str_eq raw [] then false else is_low (parse_int raw)

unfoldable pub is_sse : Request → Bool
unfolding contains_fold
is_sse r = contains_fold (r.header (bytes "Accept")) (bytes "text/event-stream")

abbrev is_gap : ℕ → Bool
is_gap c = c == 32 || c == 9

abbrev trim_gaps : Bytes → Bytes
trim_gaps [] = []
trim_gaps (c ∷ s) = let rest = trim_gaps s in if is_gap c then rest else c ∷ s

-- One part of a list of tokens, without the white space around it.
abbrev is_token : Bytes → Bytes → Bool
is_token part token = equal_fold_ext (reverse (trim_gaps (reverse (trim_gaps part)))) token

-- The loop of headerHasTokenFold; `part` is the current part, reversed.
abbrev token_from : Bytes → Bytes → Bytes → Bool
token_from part [] token = is_token (reverse part) token
token_from part (c ∷ s) token =
    let more = token_from (c ∷ part) s token in
    let next = token_from [] s token in
    if c == b',' then is_token (reverse part) token || next else more

unfoldable pub header_has_token_fold : Bytes → Bytes → Bool
unfolding equal_fold_ext
header_has_token_fold s [] = true
header_has_token_fold s (c ∷ t) = token_from [] s (c ∷ t)

unfoldable pub is_websocket_upgrade : Request → Bool
unfolding header_has_token_fold
is_websocket_upgrade r =
    if not (eq_fold (r.header (bytes "Upgrade")) (bytes "websocket"))
    then false
    else header_has_token_fold (r.header (bytes "Connection")) (bytes "upgrade")

unfoldable pub is_web_transport : Request → Bool
is_web_transport r =
    if str_eq r.method (bytes "CONNECT") && leb 3 r.proto_major
    then true
    else if eq_fold (r.header (bytes "Upgrade")) (bytes "webtransport")
    then true
    else not (lacks r (bytes "Sec-WebTransport-Version"))

unfoldable pub is_stream_protocol : Request → Bool
unfolding is_sse is_websocket_upgrade is_web_transport
is_stream_protocol r = is_sse r || is_websocket_upgrade r || is_web_transport r
