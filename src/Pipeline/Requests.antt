-- ===== src/Pipeline/Requests.antt =====
-- internal/pipeline: what guard asks of the headers of a request (challenge_ajax.go), and stripPort of
-- pipeline.go. Text is ASCII.
use ravenguard.Common.{
  ℕ, suc, Bool, true, false, ◌&&◌, ◌||◌, not, Option, none, some, [], ◌∷◌, ltb, ◌==◌, if◌then◌else◌,
  Bytes, bytes, str_eq, drop,
}
use ravenguard.Common.Ascii.{has_prefix}
use ravenguard.Detect.Forge.{eq_fold}
use ravenguard.Detect.Requests.{Request}
use ravenguard.Faststr.{contains_fold, trim_blanks}
use ravenguard.Router.{before, count_byte, strip_plain}

-- The first of two texts that is there.
abbrev or_text : Bytes → Option Bytes → Bytes
or_text s none = s
or_text s (some t) = t

abbrev strip_key : Bytes → Bytes
strip_key [] = []
strip_key (c ∷ s) =
    if c == b'[' then or_text (strip_plain (c ∷ s)) (before b']' s) else strip_plain (c ∷ s)

-- stripPort
unfoldable pub strip_port : Bytes → Bytes
unfolding before count_byte
strip_port host = strip_key host

-- strings.Index; none stands for -1.
unfoldable pub index_of : Bytes → Bytes → Option ℕ
unfolding has_prefix
index_of [] t = if has_prefix [] t then some 0 else none
index_of (c ∷ s) t =
    let rest = index_of s t in
    if has_prefix (c ∷ s) t then some 0 else elim rest [ none ↦ none | some i ↦ some (suc i) ]

-- What stands before the first of "/", "?" and "#".
unfoldable pub authority : Bytes → Bytes
authority [] = []
authority (c ∷ s) =
    let rest = authority s in if c == b'/' || c == b'?' || c == b'#' then [] else c ∷ rest

-- What stands behind the last "@", if it is there.
unfoldable pub behind_user : Bytes → Option Bytes
behind_user [] = none
behind_user (c ∷ s) =
    let rest = behind_user s in
    elim rest [ none ↦ (if c == b'@' then some s else none) | some t ↦ some t ]

abbrev host_part : Bytes → Bytes
host_part s = strip_port (or_text (authority s) (behind_user (authority s)))

-- hostFromURL
unfoldable pub host_from_url : Bytes → Bytes
unfolding index_of authority behind_user strip_port
host_from_url s = elim (index_of s (bytes "://")) [
  | some i ↦ host_part (drop (suc (suc (suc i))) s)
  | none ↦ if has_prefix s (bytes "//") then host_part (drop 2 s) else []
]

abbrev fetch_dest : Request → Bytes
fetch_dest r = trim_blanks (r.header (bytes "Sec-Fetch-Dest"))

abbrev is_page : Bytes → Bool
is_page dest = eq_fold dest (bytes "document") || eq_fold dest (bytes "iframe")

unfoldable pub is_top_level_navigation : Request → Bool
unfolding trim_blanks
is_top_level_navigation r =
    if is_page (fetch_dest r)
    then true
    else eq_fold (trim_blanks (r.header (bytes "Sec-Fetch-Mode"))) (bytes "navigate")

-- jsonIdx >= 0 && (htmlIdx < 0 || jsonIdx < htmlIdx). The second test for an event stream, behind it, is
-- never reached.
abbrev json_first : Option ℕ → Option ℕ → Bool
json_first none html = false
json_first (some j) none = true
json_first (some j) (some i) = ltb j i

unfoldable pub wants_html_challenge : Request → Bool
unfolding is_top_level_navigation index_of contains_fold trim_blanks str_eq
wants_html_challenge r =
    let accept = r.header (bytes "Accept") in
    if not (str_eq (r.header (bytes "HX-Request")) [])
    then false
    else if eq_fold (r.header (bytes "X-Requested-With")) (bytes "XMLHttpRequest")
    then false
    else if is_top_level_navigation r
    then true
    else if contains_fold accept (bytes "text/event-stream")
    then false
    else if is_page (fetch_dest r)
    then true
    else if not (str_eq (fetch_dest r) [])
    then false
    else if not (str_eq accept [])
        && json_first (index_of accept (bytes "application/json"))
            (index_of accept (bytes "text/html"))
    then false
    else true

-- One turn of the loop over Origin and Referer.
abbrev from_here : Bytes → Bytes → Bool
from_here host v =
    not (str_eq v []) && not (str_eq (host_from_url v) []) && eq_fold (host_from_url v) host

unfoldable pub is_same_origin_request : Request → Bool
unfolding host_from_url strip_port trim_blanks
is_same_origin_request r =
    let site = trim_blanks (r.header (bytes "Sec-Fetch-Site")) in
    let host = strip_port r.host in
    if str_eq r.host []
    then false
    else if eq_fold site (bytes "same-origin") || eq_fold site (bytes "same-site")
    then true
    else if eq_fold site (bytes "cross-site") || eq_fold site (bytes "none")
    then false
    else from_here host (trim_blanks (r.header (bytes "Origin")))
      || from_here host (trim_blanks (r.header (bytes "Referer")))

unfoldable pub is_browser_same_origin_subrequest : Request → Bool
unfolding wants_html_challenge is_same_origin_request
is_browser_same_origin_subrequest r = not (wants_html_challenge r) && is_same_origin_request r
