-- ===== src/Detect/Crawler.antt =====
-- internal/detect/crawler.go: which crawler a User-Agent claims to be, and the check of the claim by
-- reverse and forward DNS. The resolver and the equality of addresses are parameters.
pub mod Verdicts
pub mod Cache
pub mod Entries
pub mod Fresh
mod Tests
use ravenguard.Common.{
  ℕ, Bool, true, false, ◌&&◌, ◌||◌, not, Option, none, some, List, [], ◌∷◌, ◌==◌, if◌then◌else◌,
  Bytes, bytes, str_eq,
}
use ravenguard.Common.Ascii.{trim_last_dot, to_lower, has_suffix}
use ravenguard.Faststr.{append_lower_ascii, contains_bytes}

pub data CrawlerVerdict : Type 0 where
  not_claimed : CrawlerVerdict
  unknown : CrawlerVerdict
  verified : CrawlerVerdict
  spoofed : CrawlerVerdict

pub record CrawlerSpec : Type 0 where
  pub ua_sub : Bytes
  pub suffixes : List Bytes

abbrev pub crawler_specs : List CrawlerSpec
crawler_specs =
    record {
      ua_sub = bytes "googlebot";
      suffixes = bytes "googlebot.com" ∷ bytes "google.com" ∷ [];
    }
    ∷ record {
      ua_sub = bytes "google-inspectiontool";
      suffixes = bytes "googlebot.com" ∷ bytes "google.com" ∷ [];
    }
    ∷ record {
      ua_sub = bytes "googleother";
      suffixes = bytes "googlebot.com" ∷ bytes "google.com" ∷ [];
    }
    ∷ record { ua_sub = bytes "adsbot-google"; suffixes = bytes "google.com" ∷ [] }
    ∷ record { ua_sub = bytes "mediapartners-google"; suffixes = bytes "google.com" ∷ [] }
    ∷ record { ua_sub = bytes "feedfetcher-google"; suffixes = bytes "google.com" ∷ [] }
    ∷ record { ua_sub = bytes "apis-google"; suffixes = bytes "google.com" ∷ [] }
    ∷ record { ua_sub = bytes "google-read-aloud"; suffixes = bytes "google.com" ∷ [] }
    ∷ record { ua_sub = bytes "bingbot"; suffixes = bytes "search.msn.com" ∷ [] }
    ∷ record { ua_sub = bytes "bingpreview"; suffixes = bytes "search.msn.com" ∷ [] }
    ∷ record { ua_sub = bytes "adidxbot"; suffixes = bytes "search.msn.com" ∷ [] }
    ∷ record { ua_sub = bytes "duckduckbot"; suffixes = bytes "duckduckgo.com" ∷ [] }
    ∷ record { ua_sub = bytes "duckassistbot"; suffixes = bytes "duckduckgo.com" ∷ [] }
    ∷ record { ua_sub = bytes "baiduspider"; suffixes = bytes "baidu.com" ∷ bytes "baidu.jp" ∷ [] }
    ∷ record {
      ua_sub = bytes "yandexbot";
      suffixes = bytes "yandex.ru" ∷ bytes "yandex.net" ∷ bytes "yandex.com" ∷ [];
    }
    ∷ record {
      ua_sub = bytes "yandexmobilebot";
      suffixes = bytes "yandex.ru" ∷ bytes "yandex.net" ∷ bytes "yandex.com" ∷ [];
    }
    ∷ record {
      ua_sub = bytes "yandeximages";
      suffixes = bytes "yandex.ru" ∷ bytes "yandex.net" ∷ bytes "yandex.com" ∷ [];
    }
    ∷ record {
      ua_sub = bytes "yandexmetrika";
      suffixes = bytes "yandex.ru" ∷ bytes "yandex.net" ∷ bytes "yandex.com" ∷ [];
    }
    ∷ record {
      ua_sub = bytes "yandexaccessibilitybot";
      suffixes = bytes "yandex.ru" ∷ bytes "yandex.net" ∷ bytes "yandex.com" ∷ [];
    }
    ∷ record { ua_sub = bytes "applebot"; suffixes = bytes "applebot.apple.com" ∷ [] }
    ∷ record { ua_sub = bytes "qwantify"; suffixes = bytes "qwant.com" ∷ [] }
    ∷ record { ua_sub = bytes "exabot"; suffixes = bytes "exabot.com" ∷ [] }
    ∷ record { ua_sub = bytes "sogou web spider"; suffixes = bytes "sogou.com" ∷ [] }
    ∷ record { ua_sub = bytes "sogou inst spider"; suffixes = bytes "sogou.com" ∷ [] }
    ∷ record { ua_sub = bytes "seznambot"; suffixes = bytes "seznam.cz" ∷ [] }
    ∷ record {
      ua_sub = bytes "mj12bot";
      suffixes = bytes "majestic12.co.uk" ∷ bytes "majestic.com" ∷ [];
    }
    ∷ record { ua_sub = bytes "dotbot"; suffixes = bytes "moz.com" ∷ [] }
    ∷ []

-- The loop of matchCrawlerSpec.
unfoldable pub first_spec : List CrawlerSpec → Bytes → Option CrawlerSpec
first_spec [] low = none
first_spec (spec ∷ specs) low =
    let rest = first_spec specs low in if contains_bytes low spec.ua_sub then some spec else rest

unfoldable pub match_crawler_spec : Bytes → Option CrawlerSpec
match_crawler_spec [] = none
match_crawler_spec (c ∷ ua) = first_spec crawler_specs (append_lower_ascii (c ∷ ua))

unfoldable pub suffix_allowed : Bytes → List Bytes → Bool
suffix_allowed name [] = false
suffix_allowed name (s ∷ ss) = str_eq name s || has_suffix name (b'.' ∷ s) || suffix_allowed name ss

-- The name that verify compares and resolves.
abbrev pub host_name : Bytes → Bytes
host_name raw = trim_last_dot (to_lower raw)

-- What one turn of the loop of verify comes to.
pub data Turn : Type 0 where
  skip : Turn
  failed : Turn
  elsewhere : Turn
  confirmed : Turn

-- The loop over the names that are left, and the two flags.
abbrev pub after_turn : Turn → (Bool → Bool → CrawlerVerdict) → Bool → Bool → CrawlerVerdict
after_turn skip next saw_suffix saw_forward = next saw_suffix saw_forward
after_turn failed next saw_suffix saw_forward = next true saw_forward
after_turn elsewhere next saw_suffix saw_forward = next true true
after_turn confirmed next saw_suffix saw_forward = verified

module _ {Ip : Type 0} (equal : Ip → Ip → Bool) (lookup_ip : Bytes → Option (List Ip)) where
  unfoldable pub any_equal : Ip → List Ip → Bool
  any_equal ip [] = false
  any_equal ip (a ∷ ips) = equal a ip || any_equal ip ips

  abbrev pub forward : Ip → Option (List Ip) → Turn
  forward ip none = failed
  forward ip (some ips) = if any_equal ip ips then confirmed else elsewhere

  abbrev pub turn : Ip → List Bytes → Bytes → Turn
  turn ip allowed name = if suffix_allowed name allowed then forward ip (lookup_ip name) else skip

  unfoldable pub verify_names : Ip → List Bytes → List Bytes → Bool → Bool → CrawlerVerdict
  verify_names ip allowed [] saw_suffix saw_forward =
      if not saw_suffix then spoofed else if not saw_forward then unknown else spoofed
  verify_names ip allowed (raw ∷ names) saw_suffix saw_forward =
      after_turn (turn ip allowed (host_name raw)) (verify_names ip allowed names) saw_suffix
        saw_forward

  unfoldable pub verify : (Ip → Option (List Bytes)) → Ip → CrawlerSpec → CrawlerVerdict
  verify lookup_addr ip spec = elim (lookup_addr ip) [
    | none ↦ unknown
    | some names ↦ verify_names ip spec.suffixes names false false
  ]
