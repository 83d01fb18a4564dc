-- ===== src/Detect/Counter.antt =====
-- internal/detect/penalty.go and internal/detect/notfound.go: clients that get too many expensive,
-- or too many missing, responses within a window. The two trackers differ in the statuses that
-- they count and in their default threshold; the functions named for one of them say which.
pub mod Window
use ravenguard.Common.{
  ℕ, ◌+◌, ◌-◌, Bool, true, false, ◌&&◌, ◌||◌, not, Option, none, some, ltb, leb, ◌==◌,
  if◌then◌else◌, Instant, since, Bytes, str_eq, [],
}
use ravenguard.Common.Sharded
use ravenguard.Common.Sharded.{Sharded}

pub record CountEntry : Type 0 where
  pub count : ℕ
  pub start : Instant

pub record Tracker : Type 0 where
  pub threshold : ℕ
  pub window : ℕ
  pub ents : Sharded CountEntry

abbrev make : ℕ → ℕ → ℕ → Tracker
make default threshold window = record {
  threshold = if threshold == 0 then default else threshold;
  window = if window == 0 then 60000000000 else window;
  ents = Sharded.empty 64;
}

-- NewPenaltyTracker
unfoldable pub new_penalty_tracker : ℕ → ℕ → Tracker
unfolding Sharded.empty
new_penalty_tracker threshold window = make 30 threshold window

-- NewNotFoundTracker
unfoldable pub new_not_found_tracker : ℕ → ℕ → Tracker
unfolding Sharded.empty
new_not_found_tracker threshold window = make 20 threshold window

-- ExpensiveStatus
unfoldable pub expensive_status : ℕ → ℕ
expensive_status status =
    if (status == 404) || (status == 410)
    then 1
    else if (status == 301)
        || (status == 302)
        || (status == 303)
        || (status == 307)
        || (status == 308)
    then 1
    else if leb 500 status && leb status 599
    then 1
    else 0

-- CacheableMissStatus
unfoldable pub cacheable_miss_status : ℕ → Bool
cacheable_miss_status status =
    (status == 301)
    || (status == 302)
    || (status == 303)
    || (status == 307)
    || (status == 308)
    || (status == 404)
    || (status == 410)

abbrev is_old : Tracker → Instant → CountEntry → Bool
is_old t now e = ltb t.window (since now e.start)

unfoldable pub exceeded_entry : Bytes → Instant → Tracker → Option CountEntry → Tracker × Bool
exceeded_entry key now t none = (t, false)
exceeded_entry key now t (some e) =
    if is_old t now e
    then (record t { ents = Sharded.delete key t.ents }, false)
    else (t, leb t.threshold e.count)

-- Exceeded, of either tracker; an entry that is too old is deleted.
unfoldable pub exceeded : Bytes → Instant → Tracker → Tracker × Bool
unfolding exceeded_entry
exceeded key now t =
    if str_eq key [] then (t, false) else exceeded_entry key now t (Sharded.get key t.ents)

unfoldable pub counted : Instant → Tracker → Option CountEntry → CountEntry
counted now t none = record { count = 1; start = now }
counted now t (some e) =
    if is_old t now e then record { count = 1; start = now } else record e { count = e.count + 1 }

-- Record behind its test of the status and the key.
unfoldable pub add_hit : Bytes → Instant → Tracker → Tracker
unfolding counted
add_hit key now t = record t {
  ents = Sharded.put key (counted now t (Sharded.get key t.ents)) t.ents;
}

-- PenaltyTracker.Record
unfoldable pub record_penalty : Bytes → ℕ → Instant → Tracker → Tracker
record_penalty key status now t =
    if (expensive_status status == 0) || str_eq key [] then t else add_hit key now t

-- NotFoundTracker.Record
unfoldable pub record_not_found : Bytes → ℕ → Instant → Tracker → Tracker
record_not_found key status now t =
    if not (status == 404) || str_eq key [] then t else add_hit key now t

-- Sweep, of either tracker.
unfoldable pub sweep : Instant → ℕ → Tracker → Tracker
sweep now max_age t = record t {
  ents = Sharded.keep (λ _ e. not (ltb e.start (now - max_age))) t.ents;
}
