-- ===== src/Detect/Crawler/Tests.antt =====
-- Runs of internal/detect/crawler.go, and its theorem at a concrete resolver.
use mathlib.Core.List.{Mem}
use ravenguard.Common.Dict
use ravenguard.Common.{
  ◌≤◌, ◌<◌, ◌+◌, ◌⊎◌, length, Instant, ℕ, ◌≡◌, refl, Bool, Option, none, some, List, [], ◌∷◌, ◌==◌,
  if◌then◌else◌, Bytes, bytes, str_eq,
}
use ravenguard.Common.Ascii.{trim_last_dot, contains, has_prefix, has_suffix}
use ravenguard.Detect.Crawler.{
  CrawlerSpec, verified, spoofed, unknown, match_crawler_spec, first_spec, suffix_allowed,
  any_equal, verify_names, verify,
}
use ravenguard.Detect.Crawler.Cache.{
  max_crawler_cache, Lifetimes, lifetimes, CrawlerCache, new_cache, ttl_of, evict, sweep, load,
  store, cache_key, check,
}
use ravenguard.Detect.Crawler.Fresh.{logged, start, claimed, Reached-fresh}
use ravenguard.Detect.Crawler.Verdicts.{Accords, verify-Accords}

abbrev same_ip : ℕ → ℕ → Bool
same_ip a b = a == b

-- Address 1 is a crawler; 2 and 3 borrow its names, and 4 has one of its own.
abbrev lookup_addr : ℕ → Option (List Bytes)
lookup_addr ip =
    if ip == 1
    then some (bytes "Crawl-1.Googlebot.com." ∷ [])
    else if ip == 2
    then some (bytes "crawl-1.googlebot.com" ∷ [])
    else if ip == 3
    then some (bytes "gone.googlebot.com" ∷ [])
    else if ip == 4
    then some (bytes "evilgooglebot.com" ∷ [])
    else none

abbrev lookup_ip : Bytes → Option (List ℕ)
lookup_ip name = if str_eq name (bytes "crawl-1.googlebot.com") then some (7 ∷ 1 ∷ []) else none

abbrev googlebot : CrawlerSpec
googlebot = record {
  ua_sub = bytes "googlebot";
  suffixes = bytes "googlebot.com" ∷ bytes "google.com" ∷ [];
}

claims_google :
    match_crawler_spec (bytes "Mozilla/5.0 (compatible; Googlebot/2.1)") ≡ some googlebot
unfolding match_crawler_spec first_spec contains has_prefix
claims_google = refl

claims_nothing : match_crawler_spec (bytes "Mozilla/5.0 YaBrowser") ≡ none
unfolding match_crawler_spec first_spec contains has_prefix
claims_nothing = refl

checked :
    (verify same_ip lookup_ip lookup_addr 1 googlebot ≡ verified)
    × (verify same_ip lookup_ip lookup_addr 2 googlebot ≡ spoofed)
    × (verify same_ip lookup_ip lookup_addr 3 googlebot ≡ unknown)
    × (verify same_ip lookup_ip lookup_addr 4 googlebot ≡ spoofed)
    × (verify same_ip lookup_ip lookup_addr 5 googlebot ≡ unknown)
unfolding verify verify_names suffix_allowed trim_last_dot any_equal has_suffix has_prefix str_eq
checked = (refl, refl, refl, refl, refl)

verify-Accords_example :
    Accords same_ip lookup_ip 1
      (bytes "googlebot.com" ∷ bytes "google.com" ∷ [])
      (lookup_addr 1)
      (verify same_ip lookup_ip lookup_addr 1 googlebot)
verify-Accords_example =
    verify-Accords same_ip lookup_ip 1 (bytes "googlebot.com" ∷ bytes "google.com" ∷ []) lookup_addr
      (bytes "googlebot")

abbrev day : Lifetimes
day = lifetimes 0 0

abbrev show_ip : ℕ → Bytes
show_ip ip = ip ∷ []

abbrev agent : Bytes
agent = bytes "Googlebot/2.1"

claims : match_crawler_spec agent ≡ some googlebot
unfolding match_crawler_spec first_spec contains has_prefix
claims = refl

abbrev once : CrawlerCache
once = (check day same_ip show_ip lookup_ip lookup_addr 5 6 (some 1) agent new_cache).0

-- A verdict of the first call answers the second, though the resolver has gone.
cached :
    (check day same_ip show_ip (λ name. none) (λ ip. none) 7 8 (some 1) agent once).1 ≡ verified
unfolding check load store sweep evict lifetimes match_crawler_spec first_spec contains has_prefix
    verify verify_names suffix_allowed trim_last_dot any_equal has_suffix str_eq Dict.get Dict.put
    Dict.delete
cached = refl

Reached-fresh_example :
    (length once.entries ≤ max_crawler_cache)
    × (((check day same_ip show_ip lookup_ip lookup_addr 7 8 (some 1) agent once).1
          ≡ verify same_ip lookup_ip lookup_addr 1 googlebot)
        ⊎ ((t : Instant) × Mem
              (
                cache_key show_ip googlebot 1,
                (check day same_ip show_ip lookup_ip lookup_addr 7 8 (some 1) agent once).1,
                t,
              )
              (logged day
                (cache_key show_ip googlebot 1, verify same_ip lookup_ip lookup_addr 1 googlebot, 6)
                []
                (load (cache_key show_ip googlebot 1) 5 new_cache).1)
            × (7
                < t
                  + ttl_of day
                      (check day same_ip show_ip lookup_ip lookup_addr 7 8 (some 1) agent once).1)))
Reached-fresh_example =
    Reached-fresh day same_ip show_ip
      (logged day
        (cache_key show_ip googlebot 1, verify same_ip lookup_ip lookup_addr 1 googlebot, 6) []
        (load (cache_key show_ip googlebot 1) 5 new_cache).1)
      once lookup_ip lookup_addr 7 8 1 agent googlebot
      (claimed lookup_ip lookup_addr 5 6 1 agent googlebot claims start) claims
