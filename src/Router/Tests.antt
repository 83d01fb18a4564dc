-- ===== src/Router/Tests.antt =====
-- The router at concrete inputs.
use mathlib.Core.List.{mem-cons_self}
use mathlib.Core.Option
use ravenguard.Common.{◌≡◌, refl, Bool, true, false, some, List, [], ◌∷◌, Bytes, bytes, str_eq}
use ravenguard.Common.Dict
use ravenguard.Common.Int.{pos}
use ravenguard.Common.Ascii.{has_prefix, trim_space}
use ravenguard.Common.Strings.{split}
use ravenguard.Router.{
  Upstream, Route, Compiled, Table, by_id, host_set, precedes, exchange, exchange_sort, compile_all,
  replace, trim_slash, match_prefix, has_host, serves, first_match, before, count_byte, strip_port,
  lookup,
}
use ravenguard.Router.Best.{Best, replace-lookup}
use ravenguard.Router.Hosts.{starts_with, match_prefix-parts}

runs : Unit {0}
unfolding by_id host_set precedes exchange exchange_sort compile_all replace trim_slash match_prefix
    has_host serves first_match before count_byte strip_port lookup Dict.get Dict.put Dict.delete
    str_eq trim_space has_prefix split starts_with
runs = tt

abbrev builds : Upstream → Bool → Bytes → Bool
builds up strip prefix = true

abbrev up : Upstream
up = record { id = bytes "u"; url = bytes "http://a" }

abbrev site : Route
site = record {
  id = bytes "1";
  enabled = true;
  hosts = bytes " Example.org" ∷ [];
  path_prefix = [];
  upstream_id = bytes "u";
  strip_prefix = false;
  skip_challenge = false;
  access_policy_id = [];
  priority = pos 0;
}

abbrev api : Route
api = record site { id = bytes "2"; path_prefix = bytes "api/" }

abbrev site_entry : Compiled
site_entry = record {
  route = site;
  hosts = bytes "example.org" ∷ [];
  prefix = bytes "/";
  upstream = up;
}

abbrev api_entry : Compiled
api_entry = record {
  route = api;
  hosts = bytes "example.org" ∷ [];
  prefix = bytes "/api/";
  upstream = up;
}

abbrev table : Table
table = (replace builds (up ∷ []) (site ∷ api ∷ []) (record { compiled = [] })).0

abbrev entries : List Compiled
entries = site_entry ∷ api_entry ∷ []

all_compiled : compile_all builds (by_id (up ∷ []) []) (site ∷ api ∷ []) ≡ some entries
unfolding runs
all_compiled = refl

longest_wins : lookup (bytes "EXAMPLE.org:8080") (bytes "/api") table ≡ some api_entry
unfolding runs
longest_wins = refl

abbrev urgent : Route
urgent = record site { id = bytes "3"; priority = pos 7 }

-- The entry of a higher priority answers, though its prefix is shorter.
priority_wins :
    Option.map
      (λ c. c.route.id)
      (lookup
        (bytes "example.org")
        (bytes "/api")
        (replace builds (up ∷ []) (api ∷ urgent ∷ []) (record { compiled = [] })).0)
    ≡ some (bytes "3")
unfolding runs
priority_wins = refl

replace-lookup_example :
    Best
      (bytes "example.org")
      (bytes "/api")
      entries
      (lookup (bytes "EXAMPLE.org:8080") (bytes "/api") table)
unfolding strip_port before count_byte trim_space str_eq
replace-lookup_example =
    replace-lookup builds (up ∷ []) (site ∷ api ∷ []) (record { compiled = [] }) entries site_entry
      (bytes "EXAMPLE.org:8080") (bytes "/api") all_compiled mem-cons_self (unfold runs in refl)

match_prefix-parts_example : match_prefix (bytes "/apix") (bytes "/api/") ≡ false
unfolding runs
match_prefix-parts_example = match_prefix-parts (bytes "/apix") (bytes "/api/") refl
