-- ===== src/Detect/Crawler/Fresh.antt =====
-- internal/detect/crawler.go: how old a verdict of Check can be, and how large its cache.
use mathlib.Core.List.{Mem, mem-cons}
use mathlib.Core.Logic.Or
use mathlib.Core.Path.{subst}
use ravenguard.Common.{
  ◌+◌, ◌≤◌, ◌<◌, ◌≡◌, refl, ◌⊎◌, inl, inr, Bool, true, Option, none, some, List, [], ◌∷◌, ltb,
  Bytes, Instant, length, All, arith, if_both,
}
use ravenguard.Common.Dict
use ravenguard.Common.Dict.{Dict, length-delete}
use ravenguard.Detect.Crawler.{CrawlerVerdict, CrawlerSpec, match_crawler_spec, verify}
use ravenguard.Detect.Crawler.Cache.{
  max_crawler_cache, CrawlerEntry, Lifetimes, CrawlerCache, new_cache, ttl_of, sweep, load,
  by_entry, added, store, settle, cache_key, check,
}
use ravenguard.Detect.Crawler.Entries.{
  IsBounded, get-All, delete-All, sweep-All, length-delete_found, store-IsBounded,
}

module _ (ttls : Lifetimes) where
  -- A verification that Check ran: its key, its verdict and the time of its end.
  abbrev pub Ran : Type 0
  Ran = Bytes × CrawlerVerdict × Instant

  -- An entry that one of some verifications left.
  abbrev pub LeftBy : List Ran → Bytes × CrawlerEntry → Type 0
  LeftBy ran (k, e) =
      (t : Instant) × Mem (k, e.verdict, t) ran × (e.expires ≡ t + ttl_of ttls e.verdict)

  LeftBy-cons :
      (ran : List Ran) (r : Ran) (m : Dict CrawlerEntry)
      → All (LeftBy ran) m
      → All (LeftBy (r ∷ ran)) m
  LeftBy-cons ran r [] h = tt
  LeftBy-cons ran r ((k, e) ∷ m) ((t, mem, at), h) =
      ((t, mem-cons.1 (Or.inr mem), at), LeftBy-cons ran r m h)

  -- The cache is bounded, and its entries are those of verifications.
  pub record IsSound (ran : List Ran) (c : CrawlerCache) : Type 0 where
    pub bounded : IsBounded c
    pub left : All (LeftBy ran) c.entries

  load-IsSound :
      (ran : List Ran) (k : Bytes) (now : Instant) (c : CrawlerCache) (o : Option CrawlerEntry)
      → IsSound ran c
      → Dict.get k c.entries ≡ o
      → IsSound ran (by_entry k now c o).0
  load-IsSound ran k now c none h g = h
  load-IsSound ran k now c (some e) h g =
      if_both (λ (r : CrawlerCache × Option CrawlerVerdict). IsSound ran r.0) (ltb now e.expires)
        (c, some e.verdict) _ h
        (record {
          bounded = record {
            counted = omega (arith, length-delete_found k c.entries e g, h.bounded.counted);
            within = omega (arith, h.bounded.within);
          };
          left = delete-All (LeftBy ran) k c.entries h.left;
        })

  -- What is loaded is a verdict whose time has not passed.
  loaded_fresh :
      (ran : List Ran) (k : Bytes) (now : Instant) (c : CrawlerCache) (o : Option CrawlerEntry)
      (v : CrawlerVerdict)
      → IsSound ran c
      → Dict.get k c.entries ≡ o
      → (by_entry k now c o).1 ≡ some v
      → (t : Instant) × Mem (k, v, t) ran × (now < t + ttl_of ttls v)
  loaded_fresh ran k now c none v h g l = absurd (ground (arith, l))
  loaded_fresh ran k now c (some e) v h g l =
      let (t, mem, at) = get-All (LeftBy ran) k c.entries e h.left g in
      let live : ltb now e.expires ≡ true = ground (arith, l) in
      let same : e.verdict ≡ v = ground (arith, l, live) in
      (
        t,
        subst (λ w. Mem (k, w, t) ran) same mem,
        subst (λ w. now < t + ttl_of ttls w) same (ground (arith, live, at)),
      )

  store-IsSound :
      (ran : List Ran) (k : Bytes) (v : CrawlerVerdict) (now : Instant) (c : CrawlerCache)
      → IsSound ran c
      → IsSound ((k, v, now) ∷ ran) (store ttls k v now c)
  unfolding store Dict.put
  store-IsSound ran k v now c h =
      let rest =
        delete-All (LeftBy ((k, v, now) ∷ ran)) k c.entries
          (LeftBy-cons ran (k, v, now) c.entries h.left) in
      let entry : LeftBy ((k, v, now) ∷ ran)
          (k, record { verdict = v; expires = now + ttl_of ttls v }) =
        (now, mem-cons.1 (Or.inl refl), refl) in
      record {
        bounded = store-IsBounded ttls k v now c h.bounded;
        left =
            if_both (λ (r : CrawlerCache). All (LeftBy ((k, v, now) ∷ ran)) r.entries)
              (ltb max_crawler_cache (c.size + 1)) (sweep now (added ttls k v now c))
              (added ttls k v now c)
              (sweep-All (LeftBy ((k, v, now) ∷ ran)) now (added ttls k v now c) (entry, rest))
              (entry, rest);
      }

  -- The verifications after a load: a new one, if nothing was loaded.
  abbrev pub logged : Ran → List Ran → Option CrawlerVerdict → List Ran
  logged r ran none = r ∷ ran
  logged r ran (some v) = ran

  settle-IsSound :
      (ran : List Ran) (k : Bytes) (fresh : CrawlerVerdict) (later : Instant)
      (l : CrawlerCache × Option CrawlerVerdict)
      → IsSound ran l.0
      → IsSound (logged (k, fresh, later) ran l.1) (settle ttls k fresh later l).0
  settle-IsSound ran k fresh later (c, none) h = store-IsSound ran k fresh later c h
  settle-IsSound ran k fresh later (c, some v) h = h

  -- What is settled is new, or was loaded.
  settled :
      (k : Bytes) (fresh : CrawlerVerdict) (later : Instant)
      (l : CrawlerCache × Option CrawlerVerdict)
      → ((settle ttls k fresh later l).1 ≡ fresh) ⊎ (l.1 ≡ some (settle ttls k fresh later l).1)
  settled k fresh later (c, none) = inl refl
  settled k fresh later (c, some v) = inr refl

  module _ {Ip : Type 0} (equal : Ip → Ip → Bool) (show : Ip → Bytes) where
    -- The caches that calls of Check lead to, whatever the resolver answers each time, and the
    -- verifications that they ran, the last one first.
    pub data Reached : List Ran → CrawlerCache → Type 0 where
      start : Reached [] new_cache
      unclaimed :
          {ran : List Ran} {c : CrawlerCache} (lookup_ip : Bytes → Option (List Ip))
          (lookup_addr : Ip → Option (List Bytes)) (now later : Instant) (ip : Ip) (ua : Bytes)
          → match_crawler_spec ua ≡ none
          → Reached ran c
          → Reached ran (check ttls equal show lookup_ip lookup_addr now later (some ip) ua c).0
      claimed :
          {ran : List Ran} {c : CrawlerCache} (lookup_ip : Bytes → Option (List Ip))
          (lookup_addr : Ip → Option (List Bytes)) (now later : Instant) (ip : Ip) (ua : Bytes)
          (spec : CrawlerSpec)
          → match_crawler_spec ua ≡ some spec
          → Reached ran c
          → Reached
              (logged
                (cache_key show spec ip, verify equal lookup_ip lookup_addr ip spec, later)
                ran
                (load (cache_key show spec ip) now c).1)
              (check ttls equal show lookup_ip lookup_addr now later (some ip) ua c).0

    Reached-IsSound : (ran : List Ran) (c : CrawlerCache) → Reached ran c → IsSound ran c
    unfolding check load
    Reached-IsSound ran c start = record {
      bounded = record { counted = omega arith; within = omega arith };
      left = tt;
    }
    Reached-IsSound ran c (unclaimed {c = c'} lookup_ip lookup_addr now later ip ua anon before) =
        rw anon (Reached-IsSound ran c' before)
    Reached-IsSound ran c
          (claimed {ran = ran'} {c = c'} lookup_ip lookup_addr now later ip ua spec named before) =
        let k = cache_key show spec ip in
        let h = Reached-IsSound ran' c' before in
        rw named (
          settle-IsSound ran' k (verify equal lookup_ip lookup_addr ip spec) later (load k now c')
            (load-IsSound ran' k now c' (Dict.get k c'.entries) h refl))

    -- After any calls of Check, whatever the resolver answered, the cache has at most 65536 entries, and
    -- the answer to a claim is that of a verification now, or of one of the same claim and address whose
    -- lifetime, by its verdict, has not passed.
    pub Reached-fresh :
        (ran : List Ran) (c : CrawlerCache) (lookup_ip : Bytes → Option (List Ip))
        (lookup_addr : Ip → Option (List Bytes)) (now later : Instant) (ip : Ip) (ua : Bytes)
        (spec : CrawlerSpec)
        → Reached ran c
        → match_crawler_spec ua ≡ some spec
        → (length c.entries ≤ max_crawler_cache)
          × (((check ttls equal show lookup_ip lookup_addr now later (some ip) ua c).1
                ≡ verify equal lookup_ip lookup_addr ip spec)
              ⊎ ((t : Instant) × Mem
                    (
                      cache_key show spec ip,
                      (check ttls equal show lookup_ip lookup_addr now later (some ip) ua c).1,
                      t,
                    )
                    ran
                  × (now
                      < t
                        + ttl_of ttls
                            (check ttls equal show lookup_ip lookup_addr now later
                              (some ip)
                              ua
                              c).1)))
    unfolding check load
    Reached-fresh ran c lookup_ip lookup_addr now later ip ua spec before named =
        let k = cache_key show spec ip in
        let fresh = verify equal lookup_ip lookup_addr ip spec in
        let h = Reached-IsSound ran c before in
        (
          omega (arith, h.bounded.counted, h.bounded.within),
          rw named (elim (settled k fresh later (by_entry k now c (Dict.get k c.entries))) [
            | inl new ↦ inl new
            | inr old ↦ inr (loaded_fresh ran k now c (Dict.get k c.entries) _ h refl old)
          ]),
        )
