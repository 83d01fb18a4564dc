-- ===== src/Detect/Behavior.antt =====
-- internal/detect/behavior.go: the behaviour of a client within a window, and its score.
-- `hot` is ForgeFlavor.ClassifyRequest on a path and a query, compared with ForgeNone; a nil
-- tracker is not modelled.
pub mod Bounds
pub mod Window
use ravenguard.Common.{
  ℕ, ◌+◌, ◌-◌, ◌*◌, ◌/◌, Bool, true, false, ◌&&◌, ◌||◌, not, Option, none, some, List, [], ◌∷◌,
  ◌++◌, ltb, leb, ◌==◌, if◌then◌else◌, Instant, since, Bytes, str_eq, length,
}
use ravenguard.Common.Sharded
use ravenguard.Common.Sharded.{Sharded, fnv}
use ravenguard.Detect.Paths.{sequential_path, is_write_method, forum_write_path}

pub record BehaviorConfig : Type 0 where
  pub window : ℕ
  pub burst_limit : ℕ
  pub burst_score : ℕ
  pub path_fanout : ℕ
  pub path_fanout_score : ℕ
  pub strike_limit : ℕ
  pub strike_score : ℕ
  pub write_burst_limit : ℕ
  pub write_burst_score : ℕ
  pub write_repeat_limit : ℕ
  pub write_repeat_score : ℕ
  pub forge_burst_limit : ℕ
  pub forge_burst_score : ℕ
  pub ua_variety_limit : ℕ
  pub ua_variety_score : ℕ

-- The sets of paths and of User-Agent hashes are lists without repetition.
pub record BehEntry : Type 0 where
  pub start : Instant
  pub reqs : ℕ
  pub writes : ℕ
  pub paths : List Bytes
  pub uas : List ℕ
  pub strikes : ℕ
  pub last_path : Bytes
  pub seq_hits : ℕ
  pub last_write_path : Bytes
  pub same_path_write : ℕ
  pub forge_hits : ℕ

pub record BehaviorTracker : Type 0 where
  pub cfg : BehaviorConfig
  pub ents : Sharded BehEntry

abbrev or_default : ℕ → ℕ → ℕ
or_default x d = if x == 0 then d else x

-- NewBehaviorTracker
unfoldable pub new_behavior_tracker : BehaviorConfig → BehaviorTracker
unfolding Sharded.empty
new_behavior_tracker cfg = record {
  cfg = record cfg {
    window = or_default cfg.window 60000000000;
    burst_limit = or_default cfg.burst_limit 60;
    path_fanout = or_default cfg.path_fanout 40;
    strike_limit = or_default cfg.strike_limit 3;
    write_burst_limit = or_default cfg.write_burst_limit 20;
    write_repeat_limit = or_default cfg.write_repeat_limit 8;
    forge_burst_limit = or_default cfg.forge_burst_limit 24;
    ua_variety_limit = or_default cfg.ua_variety_limit 4;
  };
  ents = Sharded.empty 64;
}

abbrev pub max_tracked_uas : ℕ
max_tracked_uas = 64

unfoldable pub has_path : Bytes → List Bytes → Bool
has_path p [] = false
has_path p (q ∷ ps) = str_eq q p || has_path p ps

unfoldable pub add_path : Bytes → List Bytes → List Bytes
unfolding has_path
add_path p ps = if has_path p ps then ps else p ∷ ps

unfoldable pub has_ua : ℕ → List ℕ → Bool
has_ua h [] = false
has_ua h (x ∷ xs) = (x == h) || has_ua h xs

-- The set of User-Agent hashes does not grow past its cap.
unfoldable pub add_ua : Bytes → List ℕ → List ℕ
unfolding has_ua
add_ua ua uas =
    if str_eq ua []
    then uas
    else if ltb (length uas) max_tracked_uas
    then (if has_ua (fnv ua) uas then uas else fnv ua ∷ uas)
    else uas

-- What a request adds for its path.
unfoldable pub note_path : Bytes → BehEntry → BehEntry
note_path path e = if str_eq path [] then e else record e {
  paths = add_path path e.paths;
  seq_hits = if sequential_path e.last_path path then e.seq_hits + 1 else e.seq_hits;
  last_path = path;
}

-- What a request adds for its method.
unfoldable pub note_write : Bytes → Bytes → BehEntry → BehEntry
note_write path method e =
    if not (is_write_method method)
    then e
    else if forum_write_path path
    then (if not (str_eq path []) && str_eq path e.last_write_path
        then record e { writes = e.writes + 1; same_path_write = e.same_path_write + 1 }
        else record e { writes = e.writes + 1; last_write_path = path; same_path_write = 1 })
    else record e { writes = e.writes + 1; last_write_path = []; same_path_write = 0 }

unfoldable pub note_forge : Bool → BehEntry → BehEntry
note_forge hot e = if hot then record e { forge_hits = e.forge_hits + 1 } else e

unfoldable pub note_request : Bool → Bytes → Bytes → Bytes → BehEntry → BehEntry
unfolding note_path note_write note_forge
note_request hot path method ua e = note_forge hot (
    note_write path method (note_path path (record e { reqs = e.reqs + 1; uas = add_ua ua e.uas })))

abbrev pub fresh_entry : Instant → BehEntry
fresh_entry now = record {
  start = now;
  reqs = 0;
  writes = 0;
  paths = [];
  uas = [];
  strikes = 0;
  last_path = [];
  seq_hits = 0;
  last_write_path = [];
  same_path_write = 0;
  forge_hits = 0;
}

-- entryLocked: the entry of a key, a new one if there is none or if it is too old.
unfoldable pub entry_locked : BehaviorConfig → Instant → Option BehEntry → BehEntry
entry_locked cfg now none = fresh_entry now
entry_locked cfg now (some e) = if ltb cfg.window (since now e.start) then fresh_entry now else e

abbrev pub entry_of : Bytes → Instant → BehaviorTracker → BehEntry
entry_of key now t = entry_locked t.cfg now (Sharded.get key t.ents)

-- Strike
unfoldable pub strike : Bytes → Instant → BehaviorTracker → BehaviorTracker
strike key now t = if str_eq key [] then t else record t {
  ents =
      Sharded.put key (record (entry_of key now t) { strikes = (entry_of key now t).strikes + 1 })
        t.ents;
}

unfoldable pub strikes_of :
    Bytes → Instant → BehaviorTracker → Option BehEntry → BehaviorTracker × Bool
strikes_of key now t none = (t, false)
strikes_of key now t (some e) =
    if ltb t.cfg.window (since now e.start)
    then (record t { ents = Sharded.delete key t.ents }, false)
    else (t, leb t.cfg.strike_limit e.strikes)

-- StrikesExceeded
unfoldable pub strikes_exceeded : Bytes → Instant → BehaviorTracker → BehaviorTracker × Bool
unfolding strikes_of
strikes_exceeded key now t =
    if str_eq key [] then (t, false) else strikes_of key now t (Sharded.get key t.ents)

pub data Reason : Type 0 where
  burst fanout sequential write_burst write_repeat forge_burst many_strikes ua_variety : Reason

-- One signal: its reason with its points, if it fires.
abbrev pub signal : Bool → ℕ → ℕ → Reason → List (Reason × ℕ)
signal reached weight points reason = if reached && ltb 0 weight then (reason, points) ∷ [] else []

-- The signals that Score adds up, in its order.
unfoldable pub signals : BehaviorConfig → BehEntry → List (Reason × ℕ)
signals cfg e =
    signal (leb cfg.burst_limit e.reqs) cfg.burst_score cfg.burst_score burst
    ++ (signal (leb cfg.path_fanout (length e.paths)) cfg.path_fanout_score cfg.path_fanout_score
          fanout
        ++ (signal (leb 8 e.seq_hits) cfg.path_fanout_score (cfg.path_fanout_score / 2) sequential
            ++ (signal (leb cfg.write_burst_limit e.writes) cfg.write_burst_score
                  cfg.write_burst_score write_burst
                ++ (signal (leb cfg.write_repeat_limit e.same_path_write) cfg.write_repeat_score
                      cfg.write_repeat_score write_repeat
                    ++ (signal (leb cfg.forge_burst_limit e.forge_hits) cfg.forge_burst_score
                          cfg.forge_burst_score forge_burst
                        ++ (signal (ltb 0 e.strikes) cfg.strike_score (e.strikes * cfg.strike_score)
                              many_strikes
                            ++ signal (leb cfg.ua_variety_limit (length e.uas)) cfg.ua_variety_score
                                cfg.ua_variety_score ua_variety))))))

unfoldable pub score_entry :
    Bytes → Instant → BehaviorTracker → Option BehEntry → BehaviorTracker × List (Reason × ℕ)
score_entry key now t none = (t, [])
score_entry key now t (some e) =
    if ltb t.cfg.window (since now e.start)
    then (record t { ents = Sharded.delete key t.ents }, [])
    else (t, signals t.cfg e)

-- Score: the reasons with their points, whose sum is the score.
unfoldable pub score : Bytes → Instant → BehaviorTracker → BehaviorTracker × List (Reason × ℕ)
unfolding score_entry
score key now t = if str_eq key [] then (t, []) else score_entry key now t (Sharded.get key t.ents)

unfoldable pub total : List (Reason × ℕ) → ℕ
total [] = 0
total ((r, n) ∷ rs) = n + total rs

-- Sweep
unfoldable pub sweep : Instant → ℕ → BehaviorTracker → BehaviorTracker
sweep now max_age t = record t {
  ents = Sharded.keep (λ _ e. not (ltb e.start (now - max_age))) t.ents;
}

module _ (hot : Bytes → Bytes → Bool) where
  -- Record
  unfoldable pub record_request :
      Bytes → Bytes → Bytes → Bytes → Bytes → Instant → BehaviorTracker → BehaviorTracker
  record_request key path raw_query method ua now t = if str_eq key [] then t else record t {
    ents =
        Sharded.put key (note_request (hot path raw_query) path method ua (entry_of key now t))
          t.ents;
  }
