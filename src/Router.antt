-- ===== src/Router.antt =====
-- internal/router/router.go: routes by host and path prefix. `build` is whether buildProxy makes
-- the proxy of an upstream with a strip flag and a prefix; the proxies and the health checkers
-- themselves are not part of the state. Host names are ASCII.
pub mod Hosts
pub mod Sorting
pub mod Best
pub mod Tests
use mathlib.Core.List.{reverse}
use ravenguard.Common.{
  ℕ, zero, suc, Bool, true, false, ◌&&◌, ◌||◌, not, Option, none, some, List, [], ◌∷◌, ◌++◌, ltb,
  leb, ◌==◌, if◌then◌else◌, Bytes, bytes, str_eq, length,
}
use ravenguard.Common.Ascii.{trim_space, to_lower, has_prefix}
use ravenguard.Common.Dict
use ravenguard.Common.Dict.{Dict}
use ravenguard.Common.Int.{ℤ, ltb_ℤ}

-- The fields that the table or the pipeline reads.
pub record Upstream : Type 0 where
  pub id : Bytes
  pub url : Bytes

pub record Route : Type 0 where
  pub id : Bytes
  pub enabled : Bool
  pub hosts : List Bytes
  pub path_prefix : Bytes
  pub upstream_id : Bytes
  pub strip_prefix : Bool
  pub priority : ℤ
  pub skip_challenge : Bool
  pub access_policy_id : Bytes

pub record Compiled : Type 0 where
  pub route : Route
  pub hosts : List Bytes
  pub prefix : Bytes
  pub upstream : Upstream

-- upByID: the last upstream with an id stays.
unfoldable pub by_id : List Upstream → Dict Upstream → Dict Upstream
by_id [] m = m
by_id (u ∷ us) m = by_id us (Dict.put u.id u m)

abbrev pub slashed : Bytes → Bytes
slashed prefix = if has_prefix prefix (bytes "/") then prefix else b'/' ∷ prefix

-- The prefix of a route, "/" if it has none, with its leading slash.
abbrev pub route_prefix : Bytes → Bytes
route_prefix prefix = if str_eq prefix [] then bytes "/" else slashed prefix

abbrev pub host_key : Bytes → Bytes
host_key h = to_lower (trim_space h)

-- The host names of a route; those that are empty are left out.
unfoldable pub host_set : List Bytes → List Bytes
host_set [] = []
host_set (h ∷ hs) =
    let rest = host_set hs in if str_eq (host_key h) [] then rest else host_key h ∷ rest

abbrev compile : Route → Upstream → Compiled
compile rt up = record {
  route = rt;
  hosts = host_set rt.hosts;
  prefix = route_prefix rt.path_prefix;
  upstream = up;
}

-- Whether the exchange of Replace puts `b` before `a`.
unfoldable pub precedes : Compiled → Compiled → Bool
precedes b a =
    ltb_ℤ a.route.priority b.route.priority
    || not (ltb_ℤ b.route.priority a.route.priority) && ltb (length a.prefix) (length b.prefix)

-- The inner loop: the entry at the front is exchanged with each later one that goes before it.
unfoldable pub exchange : Compiled → List Compiled → Compiled × List Compiled
exchange a [] = (a, [])
exchange a (b ∷ cs) =
    let (front, rest) = exchange (if precedes b a then b else a) cs in
    (front, (if precedes b a then a else b) ∷ rest)

-- The outer loop, for a number of rounds that is the number of entries.
unfoldable pub exchange_sort : ℕ → List Compiled → List Compiled
unfolding exchange
exchange_sort zero cs = cs
exchange_sort (suc rounds) [] = []
exchange_sort (suc rounds) (a ∷ cs) =
    let (front, rest) = exchange a cs in front ∷ exchange_sort rounds rest

-- The state of a table, less what serves requests.
pub record Table : Type 0 where
  pub compiled : List Compiled

module _ (build : Upstream → Bool → Bytes → Bool) where
  abbrev compile_with : Route → Option Upstream → Option (List Compiled) → Option (List Compiled)
  compile_with rt none rest = rest
  compile_with rt (some up) rest =
      if not (build up rt.strip_prefix (route_prefix rt.path_prefix))
      then none
      else elim rest [ none ↦ none | some cs ↦ some (compile rt up ∷ cs) ]

  -- The loop over the routes; none if a proxy can not be built.
  unfoldable pub compile_all : Dict Upstream → List Route → Option (List Compiled)
  compile_all ups [] = some []
  compile_all ups (rt ∷ rts) =
      let rest = compile_all ups rts in
      if not rt.enabled then rest else compile_with rt (Dict.get rt.upstream_id ups) rest

  abbrev install : Table → Option (List Compiled) → Table × Bool
  install t none = (t, false)
  install t (some cs) = (record { compiled = exchange_sort (length cs) cs }, true)

  -- Replace; false stands for an error.
  unfoldable pub replace : List Upstream → List Route → Table → Table × Bool
  replace upstreams routes t = install t (compile_all (by_id upstreams []) routes)

-- strings.TrimSuffix(s, "/")
unfoldable pub trim_slash : Bytes → Bytes
trim_slash [] = []
trim_slash (c ∷ []) = if c == b'/' then [] else c ∷ []
trim_slash (c ∷ d ∷ s) = c ∷ trim_slash (d ∷ s)

-- matchPrefix
unfoldable pub match_prefix : Bytes → Bytes → Bool
unfolding trim_slash
match_prefix path prefix =
    if str_eq prefix [] || str_eq prefix (bytes "/")
    then true
    else if str_eq path prefix
    then true
    else str_eq path (trim_slash prefix) || has_prefix path (trim_slash prefix ++ bytes "/")

unfoldable pub has_host : Bytes → List Bytes → Bool
has_host h [] = false
has_host h (k ∷ ks) = str_eq k h || has_host h ks

-- Whether an entry serves a host and a path.
unfoldable pub serves : Bytes → Bytes → Compiled → Bool
serves host path c = (leb (length c.hosts) 0 || has_host host c.hosts) && match_prefix path c.prefix

unfoldable pub first_match : Bytes → Bytes → List Compiled → Option Compiled
first_match host path [] = none
first_match host path (c ∷ cs) =
    let rest = first_match host path cs in if serves host path c then some c else rest

-- What stands before the first of a byte, if it is there.
unfoldable pub before : ℕ → Bytes → Option Bytes
before c [] = none
before c (d ∷ s) =
    let rest = before c s in
    if d == c then some [] else elim rest [ none ↦ none | some t ↦ some (d ∷ t) ]

unfoldable pub count_byte : ℕ → Bytes → ℕ
count_byte c [] = 0
count_byte c (d ∷ s) = let rest = count_byte c s in if d == c then suc rest else rest

abbrev bracketed : Bytes → Option Bytes → Bytes
bracketed host none = host
bracketed host (some inner) = inner

abbrev pub strip_plain : Bytes → Bytes
strip_plain host =
    if count_byte b':' host == 1 then elim (before b':' host) [ none ↦ host | some t ↦ t ] else host

abbrev strip_key : Bytes → Bytes
strip_key [] = []
strip_key (c ∷ s) = if c == b'[' then bracketed (c ∷ s) (before b']' s) else strip_plain (c ∷ s)

-- stripPort; the only colon is the last one too.
unfoldable pub strip_port : Bytes → Bytes
unfolding before count_byte
strip_port host = strip_key (trim_space (to_lower host))

-- matchLocked, and Lookup, which answers with its route and upstream
unfoldable pub lookup : Bytes → Bytes → Table → Option Compiled
lookup host path t =
    first_match (strip_port host) (if str_eq path [] then bytes "/" else path) t.compiled
