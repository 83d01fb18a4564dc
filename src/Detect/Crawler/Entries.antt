-- ===== src/Detect/Crawler/Entries.antt =====
-- internal/detect/crawler.go: the entries of the cache of verdicts, and their number.
use mathlib.Core.Path.{subst}
use ravenguard.Common.{
  ℕ, suc, ◌+◌, ◌-◌, ◌≤◌, ◌<◌, ◌≡◌, refl, inl, inr, Bool, not, Option, none, some, [], ◌∷◌, ltb, leb,
  Bytes, str_eq, str_eq_iff, Instant, length, All, arith, Bool-cases, if_both, if_cases,
}
use ravenguard.Common.Dict
use ravenguard.Common.Dict.{Dict, length-delete}
use ravenguard.Detect.Crawler.{CrawlerVerdict}
use ravenguard.Detect.Crawler.Cache.{
  max_crawler_cache, CrawlerEntry, Lifetimes, CrawlerCache, evict, unexpired, sweep, load, by_entry,
  added, store,
}

module _ (P : Bytes × CrawlerEntry → Type 0) where
  pub get-All :
      (k : Bytes) (m : Dict CrawlerEntry) (e : CrawlerEntry)
      → All P m
      → Dict.get k m ≡ some e
      → P (k, e)
  unfolding Dict.get
  get-All k [] e h g = absurd (ground (arith, g))
  get-All k ((j, v) ∷ m) e (here, h) g = elim (Bool-cases (str_eq j k)) [
    | inl same ↦
        let value : v ≡ e = ground (arith, g, same) in
        let name : j ≡ k = (str_eq_iff j k).0 same in subst (λ t. P t) (λ i. (name i, value i)) here
    | inr other ↦ get-All k m e h (ground (arith, g, other))
  ]

  pub delete-All : (k : Bytes) (m : Dict CrawlerEntry) → All P m → All P (Dict.delete k m)
  unfolding Dict.delete
  delete-All k [] h = tt
  delete-All k ((j, v) ∷ m) (here, h) =
      if_both (All P) (str_eq j k) (Dict.delete k m) ((j, v) ∷ Dict.delete k m) (delete-All k m h)
        (here, delete-All k m h)

  keep-All :
      (q : Bytes → CrawlerEntry → Bool) (m : Dict CrawlerEntry) → All P m → All P (Dict.keep q m)
  unfolding Dict.keep
  keep-All q [] h = tt
  keep-All q ((j, v) ∷ m) (here, h) =
      if_both (All P) (q j v) ((j, v) ∷ Dict.keep q m) (Dict.delete j (Dict.keep q m))
        (here, keep-All q m h) (delete-All j (Dict.keep q m) (keep-All q m h))

  evict-All : (target n : ℕ) (m : Dict CrawlerEntry) → All P m → All P (evict target n m).0
  unfolding evict
  evict-All target n [] h = tt
  evict-All target n (e ∷ m) (here, h) =
      if_both (λ (r : Dict CrawlerEntry × ℕ). All P r.0) (ltb target n) (evict target (n - 1) m)
        (e ∷ m, n) (evict-All target (n - 1) m h) (here, h)

  pub sweep-All : (now : Instant) (c : CrawlerCache) → All P c.entries → All P (sweep now c).entries
  unfolding sweep
  sweep-All now c h =
      let live = unexpired now c.entries in
      let kept : All P live = keep-All (λ k e. not (ltb e.expires now)) c.entries h in
      if_both (λ (r : CrawlerCache). All P r.entries) (leb (length live) max_crawler_cache) _ _ kept
        (evict-All _ (length live) live kept)

-- The counter covers the entries, and is within the limit.
pub record IsBounded (c : CrawlerCache) : Type 0 where
  pub counted : length c.entries ≤ c.size
  pub within : c.size ≤ max_crawler_cache

evict-counted :
    (target n : ℕ) (m : Dict CrawlerEntry)
    → length m ≤ n
    → length (evict target n m).0 ≤ (evict target n m).1
unfolding evict
evict-counted target n [] h = omega arith
evict-counted target n (e ∷ m) h =
    if_both (λ (r : Dict CrawlerEntry × ℕ). length r.0 ≤ r.1) (ltb target n)
      (evict target (n - 1) m) (e ∷ m, n) (evict-counted target (n - 1) m (omega (arith, h))) h

evict-within : (target : ℕ) (m : Dict CrawlerEntry) → (evict target (length m) m).1 ≤ target
unfolding evict
evict-within target [] = omega arith
evict-within target (e ∷ m) =
    let one_less : suc (length m) - 1 ≡ length m = omega arith in
    if_cases (λ (r : Dict CrawlerEntry × ℕ). r.1 ≤ target) (ltb target (suc (length m)))
      (evict target (suc (length m) - 1) m) (e ∷ m, suc (length m))
      (λ over. rw one_less (evict-within target m)) (λ fits. ground (arith, fits))

sweep-IsBounded : (now : Instant) (c : CrawlerCache) → IsBounded (sweep now c)
unfolding sweep
sweep-IsBounded now c =
    let live = unexpired now c.entries in
    if_cases IsBounded (leb (length live) max_crawler_cache) _ _
      (λ few. record { counted = omega arith; within = ground (arith, few) })
      (λ many. record {
        counted = evict-counted 49152 (length live) live (omega arith);
        within = omega (arith, evict-within 49152 live);
      })

-- One entry less for a key that is there.
pub length-delete_found :
    (k : Bytes) (m : Dict CrawlerEntry) (e : CrawlerEntry)
    → Dict.get k m ≡ some e
    → length (Dict.delete k m) < length m
unfolding Dict.get Dict.delete
length-delete_found k [] e g = absurd (ground (arith, g))
length-delete_found k ((j, v) ∷ m) e g =
    ground (arith, length-delete k m, length-delete_found k m e, g)

loaded-IsBounded :
    (k : Bytes) (now : Instant) (c : CrawlerCache) (o : Option CrawlerEntry)
    → IsBounded c
    → Dict.get k c.entries ≡ o
    → IsBounded (by_entry k now c o).0
loaded-IsBounded k now c none h g = h
loaded-IsBounded k now c (some e) h g =
    if_both (λ (r : CrawlerCache × Option CrawlerVerdict). IsBounded r.0) (ltb now e.expires) _ _ h
      (record {
        counted = omega (arith, length-delete_found k c.entries e g, h.counted);
        within = omega (arith, h.within);
      })

load-IsBounded :
    (k : Bytes) (now : Instant) (c : CrawlerCache) → IsBounded c → IsBounded (load k now c).0
unfolding load
load-IsBounded k now c h = loaded-IsBounded k now c (Dict.get k c.entries) h refl

module _ (ttls : Lifetimes) where
  pub store-IsBounded :
      (k : Bytes) (v : CrawlerVerdict) (now : Instant) (c : CrawlerCache)
      → IsBounded c
      → IsBounded (store ttls k v now c)
  unfolding store Dict.put
  store-IsBounded k v now c h =
      if_cases IsBounded (ltb max_crawler_cache (c.size + 1)) _ _
        (λ over. sweep-IsBounded now (added ttls k v now c))
        (λ fits. record {
          counted = omega (arith, length-delete k c.entries, h.counted);
          within = ground (arith, fits);
        })
