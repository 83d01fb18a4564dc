-- ===== src/Detect/Behavior/Bounds.antt =====
-- What a tracker keeps of a client is bounded and consistent, after any operations.
use ravenguard.Common.{ℕ, ◌≤◌, Bool, Option, none, some, List, [], ◌∷◌, Instant, Bytes, length}
use ravenguard.Common.Sharded
use ravenguard.Common.Sharded.{fnv}
use ravenguard.Detect.Behavior.{
  BehEntry, BehaviorTracker, strike, strikes_exceeded, score, sweep, record_request,
}

-- The User-Agent hashes are at most 64, and the counters and the set of paths at most the
-- number of requests.
pub record IsTracked (e : BehEntry) : Type 0 where
  pub uas : length e.uas ≤ 64
  pub paths : length e.paths ≤ e.reqs
  pub writes : e.writes ≤ e.reqs
  pub seq_hits : e.seq_hits ≤ e.reqs
  pub same_path_write : e.same_path_write ≤ e.writes
  pub forge_hits : e.forge_hits ≤ e.reqs

abbrev pub Tracked : Option BehEntry → Type 0
Tracked none = Unit
Tracked (some e) = IsTracked e

-- One call of an operation of the tracker.
pub data BehaviorOp : Type 0 where
  do_record : (key path raw_query method ua : Bytes) → Instant → BehaviorOp
  do_strike : Bytes → Instant → BehaviorOp
  do_exceeded : Bytes → Instant → BehaviorOp
  do_score : Bytes → Instant → BehaviorOp
  do_sweep : Instant → ℕ → BehaviorOp

module _ (hot : Bytes → Bytes → Bool) where
  unfoldable pub run : BehaviorOp → BehaviorTracker → BehaviorTracker
  run (do_record key path raw_query method ua now) t =
      record_request hot key path raw_query method ua now t
  run (do_strike key now) t = strike key now t
  run (do_exceeded key now) t = (strikes_exceeded key now t).0
  run (do_score key now) t = (score key now t).0
  run (do_sweep now age) t = sweep now age t

  unfoldable pub run_all : List BehaviorOp → BehaviorTracker → BehaviorTracker
  unfolding run
  run_all [] t = t
  run_all (op ∷ ops) t = run_all ops (run op t)

AllTracked : BehaviorTracker → Type 0
AllTracked t = (j : Bytes) → Tracked (Sharded.get j t.ents)
