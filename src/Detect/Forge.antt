-- ===== src/Detect/Forge.antt =====
-- internal/detect/forge.go: the cost of a forge's path.
-- The slice p[:i], p[i+1:] at the first '/' is `cut`.
pub mod Segments
use ravenguard.Common.{
  ℕ, zero, suc, ◌+◌, ◌-◌, Bool, true, false, ◌&&◌, ◌||◌, not, Option, none, some, List, [], ◌∷◌,
  ltb, leb, ◌==◌, if◌then◌else◌, Bytes, bytes, str_eq, length, take, drop, ◌++◌,
}
use ravenguard.Detect.RawQuery.{raw_query_value}
use ravenguard.Common.Ascii.{to_lower, has_prefix}

pub data ForgeClass : Type 0 where
  forge_none forge_browse forge_hot : ForgeClass

pub data ForgeFlavor : Type 0 where
  forge_auto forge_gitea forge_cgit : ForgeFlavor

-- eqFoldASCII
abbrev pub eq_fold : Bytes → Bytes → Bool
eq_fold a b = str_eq (to_lower a) (to_lower b)

-- ParseForgeFlavor
unfoldable pub parse_forge_flavor : Bytes → ForgeFlavor
parse_forge_flavor s =
    if eq_fold s (bytes "gitea") || eq_fold s (bytes "forgejo")
    then forge_gitea
    else if eq_fold s (bytes "cgit")
    then forge_cgit
    else forge_auto

abbrev pub slash : ℕ
slash = b'/'

abbrev onto_cut : ℕ → Bytes × Bytes → Bytes × Bytes
onto_cut c (seg, rest) = (c ∷ seg, rest)

-- The loop of nextSeg.
unfoldable pub cut : Bytes → Bytes × Bytes
cut [] = ([], [])
cut (c ∷ p) = let later = cut p in if c == slash then ([], p) else onto_cut c later

-- skipLeadSlash
abbrev pub skip_lead_slash : Bytes → Bytes
skip_lead_slash [] = []
skip_lead_slash (c ∷ p) = if c == slash then p else c ∷ p

-- nextSeg
unfoldable pub next_seg : Bytes → Bytes × Bytes
unfolding cut
next_seg p = cut (skip_lead_slash p)

-- hasPathSuffix
unfoldable pub has_path_suffix : Bytes → Bytes → Bool
has_path_suffix path suffix =
    not (ltb (length path) (length suffix))
    && str_eq (drop (length path - length suffix) path) suffix

-- isSmartHTTPPath
unfoldable pub is_smart_http_path : Bytes → Bool
unfolding has_path_suffix
is_smart_http_path path =
    has_path_suffix path (bytes "/info/refs")
    || has_path_suffix path (bytes "/git-upload-pack")
    || has_path_suffix path (bytes "/git-receive-pack")

-- classifyForgeAction
unfoldable pub classify_forge_action : Bytes → ForgeClass
classify_forge_action seg =
    if length seg == 3
    then (if eq_fold seg (bytes "src") || eq_fold seg (bytes "raw")
        then forge_browse
        else forge_none)
    else if length seg == 5
    then (if eq_fold seg (bytes "blame")
        then forge_hot
        else if eq_fold seg (bytes "media")
        then forge_browse
        else forge_none)
    else if length seg == 6
    then (if eq_fold seg (bytes "commit") then forge_browse else forge_none)
    else if length seg == 7
    then (if eq_fold seg (bytes "compare") || eq_fold seg (bytes "archive")
        then forge_hot
        else if eq_fold seg (bytes "commits")
        then forge_browse
        else forge_none)
    else forge_none

-- classifyCgitCmd
unfoldable pub classify_cgit_cmd : Bytes → ForgeClass
classify_cgit_cmd seg =
    if length seg == 3
    then (if eq_fold seg (bytes "log") || eq_fold seg (bytes "tag")
        then forge_browse
        else forge_none)
    else if length seg == 4
    then (if eq_fold seg (bytes "tree")
          || eq_fold seg (bytes "blob")
          || eq_fold seg (bytes "atom")
          || eq_fold seg (bytes "refs")
        then forge_browse
        else if eq_fold seg (bytes "diff")
        then forge_hot
        else forge_none)
    else if length seg == 5
    then (if eq_fold seg (bytes "plain")
          || eq_fold seg (bytes "about")
          || eq_fold seg (bytes "clone")
          || eq_fold seg (bytes "graph")
          || eq_fold seg (bytes "stats")
        then forge_browse
        else if eq_fold seg (bytes "blame") || eq_fold seg (bytes "patch")
        then forge_hot
        else forge_none)
    else if length seg == 6
    then (if eq_fold seg (bytes "commit") || eq_fold seg (bytes "branch")
        then forge_browse
        else forge_none)
    else if length seg == 7
    then (if eq_fold seg (bytes "summary") then forge_browse else forge_none)
    else if length seg == 8
    then (if eq_fold seg (bytes "snapshot") then forge_hot else forge_none)
    else forge_none

-- The first class unless it is ForgeNone.
abbrev pub or_class : ForgeClass → ForgeClass → ForgeClass
or_class forge_none d = d
or_class forge_browse d = forge_browse
or_class forge_hot d = forge_hot

-- The loop of gitlabDashClass; its fuel is the length of the path.
unfoldable pub dash_from : ℕ → Bytes → ForgeClass
dash_from zero rest = forge_none
dash_from (suc fuel) [] = forge_none
dash_from (suc fuel) (c ∷ p) =
    let (seg, rest) = next_seg (c ∷ p) in
    let later = dash_from fuel rest in
    let act = (next_seg rest).0 in
    if str_eq seg (bytes "-")
    then or_class (classify_forge_action act) (classify_cgit_cmd act)
    else later

-- gitlabDashClass
abbrev pub gitlab_dash_class : Bytes → ForgeClass
gitlab_dash_class path = dash_from (length path) path

-- The loop of Classify for cgit; its fuel is the length of the path.
unfoldable pub cgit_from : ℕ → Bytes → ForgeClass
cgit_from zero rest = forge_none
cgit_from (suc fuel) [] = forge_none
cgit_from (suc fuel) (c ∷ p) =
    let (seg, rest) = next_seg (c ∷ p) in
    let later = cgit_from fuel rest in
    if str_eq seg [] then later else or_class (classify_cgit_cmd seg) later

abbrev is_digit : ℕ → Bool
is_digit c = leb b'0' c && leb c b'9'

unfoldable pub skip_digits : Bytes → Bytes
skip_digits [] = []
skip_digits (c ∷ s) = let rest = skip_digits s in if is_digit c then rest else c ∷ s

-- "/repos/" after the version of the API; the rest, or the path as it was.
unfoldable pub past_repos : Bytes → Bytes → Bytes
past_repos p [] = p
past_repos p (c ∷ s) = elim (drop 5 s) [
  | [] ↦ p
  | d ∷ t ↦
      if (c == slash) && eq_fold (take 5 s) (bytes "repos") && (d == slash)
      then skip_lead_slash t
      else p
]

-- The digits of the version: there is at least one.
unfoldable pub past_version : Bytes → Bytes → Bytes
unfolding past_repos skip_digits
past_version p [] = p
past_version p (c ∷ s) = let rest = past_repos p (skip_digits s) in if is_digit c then rest else p

abbrev is_v : Bytes → Bool
is_v [] = false
is_v (c ∷ s) = (c == b'v') || (c == b'V')

-- /api/vN/repos/ at the start of a path is dropped.
unfoldable pub past_api : Bytes → Bytes
unfolding past_version
past_api p =
    if leb 6 (length p) && eq_fold (take 4 p) (bytes "api/") && is_v (drop 4 p)
    then past_version p (drop 5 p)
    else p

-- forgeActionSeg
unfoldable pub forge_action_seg : Bytes → Bytes × Bytes
unfolding past_api next_seg
forge_action_seg path =
    let (seg0, rest0) = next_seg (past_api (skip_lead_slash path)) in
    let (seg1, rest1) = next_seg rest0 in
    let (action, rest2) = next_seg rest1 in
    let (next, rest3) = next_seg rest2 in
    if str_eq (skip_lead_slash path) []
      || str_eq seg0 []
      || str_eq rest0 []
      || str_eq seg1 []
      || str_eq rest1 []
      || str_eq action []
    then ([], [])
    else (action, next)

-- The class of the action of Gitea's layout.
abbrev action_class : Bytes × Bytes → ForgeClass
action_class (action, next) =
    if str_eq action []
    then forge_none
    else if eq_fold action (bytes "git")
    then (if eq_fold next (bytes "trees") || eq_fold next (bytes "blobs")
        then forge_hot
        else forge_none)
    else or_class (classify_forge_action action) (classify_cgit_cmd action)

-- The flat layout of cgit, /{repo}/{cmd}.
abbrev flat_class : Bytes → ForgeClass
flat_class path =
    let rest = (next_seg (skip_lead_slash path)).1 in
    let cmd = (next_seg rest).0 in
    if str_eq rest [] || str_eq cmd [] then forge_none else classify_cgit_cmd cmd

abbrev pub classify_layout : ForgeFlavor → Bytes → ForgeClass
classify_layout forge_auto path =
    or_class (action_class (forge_action_seg path))
      (or_class (gitlab_dash_class path) (flat_class path))
classify_layout forge_gitea path =
    or_class (action_class (forge_action_seg path)) (gitlab_dash_class path)
classify_layout forge_cgit path = cgit_from (length path) path

-- Classify
unfoldable pub classify : ForgeFlavor → Bytes → ForgeClass
unfolding is_smart_http_path forge_action_seg dash_from cgit_from classify_forge_action
    classify_cgit_cmd next_seg
classify f path =
    if str_eq path [] || str_eq path (slash ∷ []) || is_smart_http_path path
    then forge_none
    else classify_layout f path

abbrev by_query : ForgeFlavor → Bytes → Option Bytes → ForgeClass
by_query f path none = forge_none
by_query f path (some u) =
    if str_eq u [] || not (str_eq (next_seg (skip_lead_slash path)).1 [])
    then forge_none
    else classify f (slash ∷ u)

abbrev query_class : ForgeFlavor → Bytes → Bytes → ForgeClass
query_class forge_auto path raw_query =
    by_query forge_auto path (raw_query_value raw_query (bytes "url"))
query_class forge_gitea path raw_query = forge_none
query_class forge_cgit path raw_query =
    by_query forge_cgit path (raw_query_value raw_query (bytes "url"))

-- ClassifyRequest
unfoldable pub classify_request : ForgeFlavor → Bytes → Bytes → ForgeClass
unfolding classify raw_query_value
classify_request f path raw_query = or_class (classify f path) (query_class f path raw_query)
