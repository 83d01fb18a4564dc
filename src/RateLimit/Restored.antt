-- ===== src/RateLimit/Restored.antt =====
-- The limiter lets a client in again once its buckets have had the time to fill.
use ravenguard.Common.{
  ℕ, ◌≤◌, ◌≡◌, refl, Bool, true, false, Option, none, some, List, [], ◌∷◌, arith, if◌then◌else◌,
  Instant, since, Bool-cases, inl, inr, ap, ◌∙◌, Bytes, str_eq, str_eq_iff,
}
use ravenguard.Common.Dict
use ravenguard.Common.Dict.{Dict, get-nil}
use ravenguard.Common.Sharded
use ravenguard.Common.Sharded.{get-put}
use ravenguard.RateLimit.Floats.{Arithmetic, IsExact}
use ravenguard.RateLimit.{
  LiveCfg, Entry, ClientBucket, Limiter, charge, refill_allow, refilled, or_full, bucket_allow,
  bucket_or_full, allow_n, cost_of, path_key,
}
use ravenguard.RateLimit.Refill.{AtMost, earned_mono, refill_allow-last}
use ravenguard.RateLimit.Calls.{full_passes}
use ravenguard.RateLimit.Bound.{Call, IsOrdered, answer}

-- Nothing of a client was used after a time.
abbrev EntryBy : {N : Type 0} → Instant → Option (Entry N) → Type 0
EntryBy now none = Unit
EntryBy now (some e) = e.last ≤ now

abbrev BucketBy : {N : Type 0} → Instant → Option (ClientBucket N) → Type 0
BucketBy now none = Unit
BucketBy now (some b) = (b.own.last ≤ now) × ((k : Bytes) → EntryBy now (Dict.get k b.paths))

EntryBy-later :
    {N : Type 0} (before now : Instant) (o : Option (Entry N))
    → before ≤ now
    → EntryBy before o
    → EntryBy now o
EntryBy-later before now none le h = tt
EntryBy-later before now (some e) le h = omega arith

BucketBy-later :
    {N : Type 0} (before now : Instant) (o : Option (ClientBucket N))
    → before ≤ now
    → BucketBy before o
    → BucketBy now o
BucketBy-later before now none le h = tt
BucketBy-later before now (some b) le (own, paths) =
    (omega arith, λ k. EntryBy-later before now (Dict.get k b.paths) le (paths k))

-- The time of the last call of a client, or a given time if it has none.
unfoldable pub last_call : Bytes → Instant → List Call → Instant
last_call ip t [] = t
last_call ip t (c ∷ cs) = last_call ip (if str_eq c.ip ip then c.at else t) cs

module _ (A : Arithmetic) where
  open A use {Num}

  -- The limiter after calls.
  unfoldable pub after : List Call → Limiter Num → Limiter Num
  after [] l = l
  after (c ∷ cs) l = after cs (answer A c l).0

module _ (A : Arithmetic) (exact : IsExact A) where
  open A use {Num, of_int, seconds, plus, times, less}

  charge-last :
      (cfg : LiveCfg Num) (cost : ℕ) (now : Instant) (e : Entry Num)
      → (charge A cfg cost now e).0.last ≤ now
  charge-last cfg cost now e =
      rw (refill_allow-last A exact cfg.rate cfg.burst_f (of_int cost) now e) (omega arith)

  put-EntryBy :
      (now : Instant) (path k : Bytes) (e : Entry Num) (m : Dict (Entry Num))
      → e.last ≤ now
      → EntryBy now (Dict.get k m)
      → EntryBy now (Dict.get k (Dict.put path e m))
  put-EntryBy now path k e m le h = elim (Bool-cases (str_eq path k)) [
    | inl p ↦ rw (Dict.get-put path k e m, p) le
    | inr p ↦ rw (Dict.get-put path k e m, p) h
  ]

  bucket_allow-BucketBy :
      (cfg : LiveCfg Num) (path : Bytes) (cost : ℕ) (now : Instant) (b : ClientBucket Num)
      → BucketBy now (some b)
      → BucketBy now (some (bucket_allow A cfg path cost now b).0)
  unfolding bucket_allow
  bucket_allow-BucketBy cfg path cost now b (own, paths) = elim (Bool-cases cfg.per_path) [
    | inl p ↦ rw p (
      charge-last cfg cost now b.own,
      λ k. put-EntryBy now path k _ b.paths (charge-last cfg cost now _) (paths k),
    )
    | inr p ↦ rw p (charge-last cfg cost now b.own, paths)
  ]

  or_full-BucketBy :
      (cfg : LiveCfg Num) (now : Instant) (o : Option (ClientBucket Num))
      → BucketBy now o
      → BucketBy now (some (bucket_or_full A cfg now o))
  or_full-BucketBy cfg now none h = (omega arith, λ k. rw (get-nil k) tt)
  or_full-BucketBy cfg now (some b) h = h

  after-BucketBy :
      (ip : Bytes) (calls : List Call) (l : Limiter Num) (seen now : Instant)
      → seen ≤ now
      → IsOrdered now calls
      → BucketBy seen (Sharded.get ip l.shards)
      → BucketBy (last_call ip seen calls) (Sharded.get ip (after A calls l).shards)
  unfolding after allow_n last_call
  after-BucketBy ip [] l seen now le order h = h
  after-BucketBy ip (c ∷ cs) l seen now le (later, order) h =
      let b = bucket_or_full A l.live c.at (Sharded.get c.ip l.shards) in
      let paid = (bucket_allow A l.live (path_key A c.path) (cost_of A c.cost) c.at b).0 in
      let stored = get-put c.ip ip paid l.shards in
      let known = BucketBy-later seen c.at (Sharded.get ip l.shards) (omega arith) h in
      let found : (x : Bool)
          → str_eq c.ip ip ≡ x
          → Sharded.get ip (answer A c l).0.shards
            ≡ (if x then some paid else Sharded.get ip l.shards) =
        λ x p. stored ∙ ap (λ (y : Bool). if y then some paid else Sharded.get ip l.shards) p in
      let rest = after-BucketBy ip cs (answer A c l).0 in
      elim (Bool-cases (str_eq c.ip ip)) [
        | inl p ↦
            let same = (str_eq_iff c.ip ip).0 p in
            let own : BucketBy c.at (Sharded.get c.ip l.shards) = rw same known in
            rw p (
              rest c.at c.at (omega arith) order (
                rw (found true p) (
                  bucket_allow-BucketBy l.live (path_key A c.path) (cost_of A c.cost) c.at b
                    (or_full-BucketBy l.live c.at (Sharded.get c.ip l.shards) own))))
        | inr p ↦ rw p (rest seen c.at (omega arith) order (rw (found false p) h))
      ]

  after-live : (calls : List Call) (l : Limiter Num) → (after A calls l).live ≡ l.live
  unfolding after allow_n
  after-live [] l = refl
  after-live (c ∷ cs) l = after-live cs (answer A c l).0

  -- The time between two instants is enough to fill a bucket.
  abbrev pub Fills : LiveCfg Num → Instant → Instant → Type 0
  Fills cfg from now = AtMost A exact cfg.burst_f (times (seconds (since now from)) cfg.rate)

  charge-passes :
      (cfg : LiveCfg Num) (cost : ℕ) (from now : Instant) (e : Entry Num)
      → AtMost A exact (of_int cost) cfg.burst_f
      → Fills cfg from now
      → e.last ≤ from
      → (charge A cfg cost now e).1 ≡ true
  unfolding refill_allow refilled
  charge-passes cfg cost from now e fits waited le =
      let income = times (seconds (since now e.last)) cfg.rate in
      let more : AtMost A exact cfg.burst_f income =
        exact.le_trans _ _ _ waited (earned_mono A exact _ _ cfg.rate (omega arith)) in
      let filled : AtMost A exact cfg.burst_f (plus e.tokens income) =
        exact.le_trans _ _ _ more (rw (exact.plus_comm e.tokens income) (exact.le-plus _ _)) in
      elim (Bool-cases (less cfg.burst_f (plus e.tokens income))) [
        | inl p ↦ rw (p, fits)
        | inr p ↦ rw (p, exact.le_trans _ _ _ fits filled)
      ]

  path-passes :
      (cfg : LiveCfg Num) (cost : ℕ) (from now : Instant) (o : Option (Entry Num))
      → AtMost A exact (of_int cost) cfg.burst_f
      → Fills cfg from now
      → EntryBy from o
      → (charge A cfg cost now (or_full A cfg now o)).1 ≡ true
  path-passes cfg cost from now none fits waited h = full_passes A exact cfg cost now fits
  path-passes cfg cost from now (some e) fits waited h =
      charge-passes cfg cost from now e fits waited h

  own-passes :
      (cfg : LiveCfg Num) (cost : ℕ) (from now : Instant) (o : Option (ClientBucket Num))
      → AtMost A exact (of_int cost) cfg.burst_f
      → Fills cfg from now
      → BucketBy from o
      → (charge A cfg cost now (bucket_or_full A cfg now o).own).1 ≡ true
  own-passes cfg cost from now none fits waited h = full_passes A exact cfg cost now fits
  own-passes cfg cost from now (some b) fits waited h =
      charge-passes cfg cost from now b.own fits waited h.0

  paths_by :
      (cfg : LiveCfg Num) (from now : Instant) (k : Bytes) (o : Option (ClientBucket Num))
      → BucketBy from o
      → EntryBy from (Dict.get k (bucket_or_full A cfg now o).paths)
  paths_by cfg from now k none h = rw (get-nil k) tt
  paths_by cfg from now k (some b) h = h.1 k

  bucket-passes :
      (cfg : LiveCfg Num) (path : Bytes) (cost : ℕ) (from now : Instant)
      (o : Option (ClientBucket Num))
      → AtMost A exact (of_int cost) cfg.burst_f
      → Fills cfg from now
      → BucketBy from o
      → (bucket_allow A cfg path cost now (bucket_or_full A cfg now o)).1 ≡ true
  unfolding bucket_allow
  bucket-passes cfg path cost from now o fits waited h =
      let own = own-passes cfg cost from now o fits waited h in
      let on_path =
        path-passes cfg cost from now (Dict.get path (bucket_or_full A cfg now o).paths) fits waited
          (paths_by cfg from now path o h) in
      elim (Bool-cases cfg.per_path) [ inl p ↦ rw (p, own, on_path) | inr p ↦ rw (p, own) ]

  -- Under exact arithmetic, a call of a client that was new before the given calls, of whatever
  -- clients and paths, is let through if its cost is at most the burst and the time since the last
  -- call of the client, or since the start if it has none, fills a bucket. It does not matter
  -- which calls were refused before it, nor whether paths have buckets of their own.
  pub waited_call :
      (ip path : Bytes) (cost : ℕ) (calls : List Call) (l : Limiter Num) (from now : Instant)
      → IsOrdered from calls
      → Sharded.get ip l.shards ≡ none
      → AtMost A exact (of_int (cost_of A cost)) l.live.burst_f
      → Fills l.live (last_call ip from calls) now
      → (allow_n A ip path cost now (after A calls l)).1 ≡ true
  unfolding allow_n
  waited_call ip path cost calls l from now order new fits waited =
      let live = after-live calls l in
      let used = after-BucketBy ip calls l from from (omega arith) order (rw new tt) in
      rw live (
        bucket-passes l.live (path_key A path) (cost_of A cost) (last_call ip from calls) now _ fits
          waited used)
