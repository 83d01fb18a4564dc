-- ===== src/Detect/Crawler/Cache.antt =====
-- internal/detect/crawler.go: the cache of verdicts (Check, sweep, NewCrawlerVerifier). A lookup that
-- is shared by concurrent calls is one step. The counter of entries does not drop below 0, for it is at
-- least the number of entries.
use ravenguard.Common.{
  ℕ, ◌+◌, ◌-◌, ◌*◌, ◌/◌, Bool, not, Option, none, some, List, [], ◌∷◌, ◌++◌, ltb, leb, ◌==◌,
  if◌then◌else◌, Bytes, Instant, length,
}
use ravenguard.Common.Dict
use ravenguard.Common.Dict.{Dict}
use ravenguard.Detect.Crawler.{
  CrawlerVerdict, not_claimed, unknown, verified, spoofed, CrawlerSpec, match_crawler_spec, verify,
}

abbrev pub max_crawler_cache : ℕ
max_crawler_cache = 65536

pub record CrawlerEntry : Type 0 where
  pub verdict : CrawlerVerdict
  pub expires : Instant

-- The lifetimes that NewCrawlerVerifier sets, in nanoseconds.
pub record Lifetimes : Type 0 where
  pub pos_ttl : ℕ
  pub neg_ttl : ℕ
  pub unk_ttl : ℕ

-- The cache and its counter.
pub record CrawlerCache : Type 0 where
  pub entries : Dict CrawlerEntry
  pub size : ℕ

-- NewCrawlerVerifier, less its timeout
unfoldable pub lifetimes : ℕ → ℕ → Lifetimes
lifetimes pos_ttl neg_ttl = record {
  pos_ttl = if pos_ttl == 0 then 86400000000000 else pos_ttl;
  neg_ttl = if neg_ttl == 0 then 3600000000000 else neg_ttl;
  unk_ttl = 300000000000;
}

abbrev pub new_cache : CrawlerCache
new_cache = record { entries = []; size = 0 }

abbrev pub ttl_of : Lifetimes → CrawlerVerdict → ℕ
ttl_of t not_claimed = t.unk_ttl
ttl_of t unknown = t.unk_ttl
ttl_of t verified = t.pos_ttl
ttl_of t spoofed = t.neg_ttl

-- The second loop of sweep, over the entries in any order: it deletes while there are too many.
unfoldable pub evict : ℕ → ℕ → Dict CrawlerEntry → Dict CrawlerEntry × ℕ
evict target n [] = ([], n)
evict target n (e ∷ es) =
    let rest = evict target (n - 1) es in if ltb target n then rest else (e ∷ es, n)

abbrev pub unexpired : Instant → Dict CrawlerEntry → Dict CrawlerEntry
unexpired now es = Dict.keep (λ k e. not (ltb e.expires now)) es

unfoldable pub sweep : Instant → CrawlerCache → CrawlerCache
unfolding evict
sweep now c =
    let live = unexpired now c.entries in
    let (es, n) = evict (max_crawler_cache * 3 / 4) (length live) live in
    if leb (length live) max_crawler_cache
    then record { entries = live; size = length live }
    else record { entries = es; size = n }

-- A cached verdict that has not expired; an entry that has is deleted.
abbrev pub by_entry :
    Bytes → Instant → CrawlerCache → Option CrawlerEntry → CrawlerCache × Option CrawlerVerdict
by_entry key now c none = (c, none)
by_entry key now c (some e) =
    if ltb now e.expires
    then (c, some e.verdict)
    else (record { entries = Dict.delete key c.entries; size = c.size - 1 }, none)

unfoldable pub load : Bytes → Instant → CrawlerCache → CrawlerCache × Option CrawlerVerdict
load key now c = by_entry key now c (Dict.get key c.entries)

abbrev pub cache_key : {Ip : Type 0} → (Ip → Bytes) → CrawlerSpec → Ip → Bytes
cache_key show spec ip = spec.ua_sub ++ b'|' ∷ show ip

module _ (ttls : Lifetimes) where
  abbrev pub added : Bytes → CrawlerVerdict → Instant → CrawlerCache → CrawlerCache
  added key verdict now c = record {
    entries =
        Dict.put key (record { verdict = verdict; expires = now + ttl_of ttls verdict }) c.entries;
    size = c.size + 1;
  }

  -- What the shared lookup stores, at the second reading of the clock.
  unfoldable pub store : Bytes → CrawlerVerdict → Instant → CrawlerCache → CrawlerCache
  unfolding sweep
  store key verdict now c =
      if ltb max_crawler_cache (c.size + 1)
      then sweep now (added key verdict now c)
      else added key verdict now c

  -- A verdict that was loaded, or a new one.
  abbrev pub settle :
      Bytes
      → CrawlerVerdict
      → Instant
      → CrawlerCache × Option CrawlerVerdict
      → CrawlerCache × CrawlerVerdict
  settle key fresh now (c, some verdict) = (c, verdict)
  settle key fresh now (c, none) = (store key fresh now c, fresh)

  module _ {Ip : Type 0} (equal : Ip → Ip → Bool) (show : Ip → Bytes)
      (lookup_ip : Bytes → Option (List Ip)) (lookup_addr : Ip → Option (List Bytes)) where
    abbrev pub check_spec :
        Instant → Instant → Ip → CrawlerCache → Option CrawlerSpec → CrawlerCache × CrawlerVerdict
    check_spec now later ip c none = (c, not_claimed)
    check_spec now later ip c (some spec) =
        settle (cache_key show spec ip) (verify equal lookup_ip lookup_addr ip spec) later
          (load (cache_key show spec ip) now c)

    -- Check, with the two readings of the clock; a missing address is none.
    unfoldable pub check :
        Instant → Instant → Option Ip → Bytes → CrawlerCache → CrawlerCache × CrawlerVerdict
    unfolding load store match_crawler_spec verify
    check now later none ua c = (c, unknown)
    check now later (some ip) ua c = check_spec now later ip c (match_crawler_spec ua)
