-- ===== src/RateLimit.antt =====
-- internal/ratelimit/ratelimit.go: token buckets, one for each client and, if asked for, one for
-- each path of a client. The float64 operations are those of an `Arithmetic`. The pools of entries
-- and buckets hand out values whose fields are all set before they are read, so they are new values
-- here; a nil map of paths is an empty one.
pub mod Floats
pub mod Refill
pub mod Bound
pub mod Calls
pub mod Restored
pub mod Tests
use ravenguard.Common.{
  ℕ, Bool, true, false, ◌&&◌, ◌||◌, not, Option, none, some, List, [], ◌∷◌, ltb, ◌==◌,
  if◌then◌else◌, Instant, since, Bytes, str_eq, bytes, length, ◌-◌,
}
use ravenguard.Common.Dict
use ravenguard.Common.Dict.{Dict}
use ravenguard.Common.Sharded
use ravenguard.Common.Sharded.{Sharded}
use ravenguard.RateLimit.Floats.{Arithmetic}

pub record LiveCfg (N : Type 0) : Type 0 where
  pub rate : N
  pub burst_f : N
  pub per_path : Bool

pub record Entry (N : Type 0) : Type 0 where
  pub tokens : N
  pub last : Instant

pub record ClientBucket (N : Type 0) : Type 0 where
  pub own : Entry N
  pub paths : Dict (Entry N)

pub record Limiter (N : Type 0) : Type 0 where
  pub requests : ℕ
  pub burst : ℕ
  pub window : ℕ
  pub live : LiveCfg N
  pub shards : Sharded (ClientBucket N)

-- `if burst <= 0 { burst = requests }` and `if window <= 0 { window = time.Minute }`
abbrev pub effective_burst : ℕ → ℕ → ℕ
effective_burst requests burst = if burst == 0 then requests else burst

abbrev pub effective_window : ℕ → ℕ
effective_window window = if window == 0 then 60000000000 else window

module _ (A : Arithmetic) where
  open A use {Num, of_int, seconds, plus, minus, times, divide, less}

  abbrev pub live_cfg : ℕ → ℕ → ℕ → Bool → LiveCfg Num
  live_cfg requests burst window per_path = record {
    rate = divide (of_int requests) (seconds (effective_window window));
    burst_f = of_int (effective_burst requests burst);
    per_path = per_path;
  }

  -- New
  unfoldable pub new : ℕ → ℕ → ℕ → Bool → Limiter Num
  unfolding Sharded.empty
  new requests burst window per_path = record {
    requests = requests;
    burst = effective_burst requests burst;
    window = effective_window window;
    live = live_cfg requests burst window per_path;
    shards = Sharded.empty 256;
  }

  -- Update; a request count of 0 changes nothing, and the buckets stay.
  unfoldable pub update : ℕ → ℕ → ℕ → Bool → Limiter Num → Limiter Num
  update requests burst window per_path l = if requests == 0 then l else record l {
    requests = requests;
    burst = effective_burst requests burst;
    window = effective_window window;
    live = live_cfg requests burst window per_path;
  }

  -- The tokens after the refill, capped at the burst.
  unfoldable pub refilled : Num → Num → Instant → Entry Num → Num
  refilled rate burst now e =
      let filled = plus e.tokens (times (seconds (since now e.last)) rate) in
      if less burst filled then burst else filled

  -- refillAllow
  unfoldable pub refill_allow : Num → Num → Num → Instant → Entry Num → Entry Num × Bool
  refill_allow rate burst need now e =
      if less (refilled rate burst now e) need
      then (record { tokens = refilled rate burst now e; last = now }, false)
      else (record { tokens = minus (refilled rate burst now e) need; last = now }, true)

  -- A bucket that is not there yet is full.
  abbrev pub or_full : LiveCfg Num → Instant → Option (Entry Num) → Entry Num
  or_full cfg now none = record { tokens = cfg.burst_f; last = now }
  or_full cfg now (some e) = e

  abbrev pub bucket_or_full : LiveCfg Num → Instant → Option (ClientBucket Num) → ClientBucket Num
  bucket_or_full cfg now none = record {
    own = record { tokens = cfg.burst_f; last = now };
    paths = [];
  }
  bucket_or_full cfg now (some b) = b

  abbrev pub charge : LiveCfg Num → ℕ → Instant → Entry Num → Entry Num × Bool
  charge cfg cost now e = refill_allow cfg.rate cfg.burst_f (of_int cost) now e

  -- The work on one bucket: the client is charged always, its path on top in the per-path mode.
  unfoldable pub bucket_allow :
      LiveCfg Num → Bytes → ℕ → Instant → ClientBucket Num → ClientBucket Num × Bool
  bucket_allow cfg path cost now b =
      let (own, client_ok) = charge cfg cost now b.own in
      if not cfg.per_path
      then (record b { own = own }, client_ok)
      else (let (e, path_ok) = charge cfg cost now (or_full cfg now (Dict.get path b.paths)) in
          (record { own = own; paths = Dict.put path e b.paths }, client_ok && path_ok))

  -- `if path == "" { path = "/" }`
  abbrev pub path_key : Bytes → Bytes
  path_key path = if str_eq path [] then bytes "/" else path

  abbrev pub cost_of : ℕ → ℕ
  cost_of cost = if cost == 0 then 1 else cost

  -- AllowN
  unfoldable pub allow_n : Bytes → Bytes → ℕ → Instant → Limiter Num → Limiter Num × Bool
  allow_n ip path cost now l =
      let (b, ok) =
        bucket_allow l.live (path_key path) (cost_of cost) now
          (bucket_or_full l.live now (Sharded.get ip l.shards)) in
      (record l { shards = Sharded.put ip b l.shards }, ok)

  -- Allow
  unfoldable pub allow : Bytes → Bytes → Instant → Limiter Num → Limiter Num × Bool
  unfolding allow_n
  allow ip path now l = allow_n ip path 1 now l

abbrev pub is_recent : {N : Type 0} → Instant → Entry N → Bool
is_recent cutoff e = not (ltb e.last cutoff)

-- What Sweep leaves of a client's paths: in the per-path mode the stale paths go first.
abbrev pub live_paths : {N : Type 0} → Bool → Instant → ClientBucket N → Dict (Entry N)
live_paths true cutoff b = Dict.keep (λ _ e. is_recent cutoff e) b.paths
live_paths false cutoff b = b.paths

-- In the per-path mode a client with paths stays until they are gone and it is stale itself, else
-- until it is stale itself.
abbrev pub bucket_stays : {N : Type 0} → Bool → Instant → ClientBucket N → Bool
bucket_stays per_path cutoff b =
    is_recent cutoff b.own || per_path && not (length (live_paths per_path cutoff b) == 0)

abbrev swept_paths : {N : Type 0} → Bool → Instant → Dict (ClientBucket N) → Dict (ClientBucket N)
swept_paths per_path cutoff [] = []
swept_paths per_path cutoff ((k, b) ∷ m) =
    (k, record b { paths = live_paths per_path cutoff b }) ∷ swept_paths per_path cutoff m

-- Sweep
unfoldable pub sweep : {N : Type 0} → Instant → ℕ → Limiter N → Limiter N
sweep now max_age l =
    let cutoff = now - max_age in
    let kept = Sharded.keep (λ _ b. bucket_stays l.live.per_path cutoff b) l.shards in
    record l { shards = record kept { at = λ i. swept_paths l.live.per_path cutoff (kept.at i) } }

-- ActiveBuckets
unfoldable pub active_buckets : {N : Type 0} → Limiter N → ℕ
unfolding Sharded.entries
active_buckets l = length (Sharded.entries l.shards)
