-- ===== src/Detect/Tests.antt =====
-- The trackers at concrete inputs.
use ravenguard.Common.{ℕ, ◌≡◌, false, Bool, [], ◌∷◌, List, Bytes, bytes, Instant}
use ravenguard.Common.Sharded
use ravenguard.Common.Dict
use ravenguard.Detect.Counter
use ravenguard.Detect.Counter.{
  Tracker, new_penalty_tracker, new_not_found_tracker, record_penalty, record_not_found, exceeded,
  expensive_status, add_hit,
}
use ravenguard.Detect.Counter.Window.{count_of, Response, record_all}
use ravenguard.Detect.Behavior.{
  BehaviorConfig, BehaviorTracker, new_behavior_tracker, total, score, strikes_exceeded, strike,
  record_request, signals, note_request,
}
use ravenguard.Detect.Behavior.Bounds.{BehaviorOp, do_record, do_strike, do_score}
use ravenguard.Detect.Behavior.Window.{
  Event, request_count, strike_count, request, struck, happen, happen_all,
}
use ravenguard.Common.{str_eq}
use ravenguard.Common.Ascii.{has_prefix}
use ravenguard.Common.Strings.{split}
use ravenguard.Detect.RawQuery.{find, before_amp, at_boundary, value_from, raw_query_value}
use ravenguard.Detect.Forge.{
  forge_cgit, forge_hot, has_path_suffix, is_smart_http_path, classify_cgit_cmd, classify,
}
use ravenguard.Detect.Forge.Segments.{classify-first_class}

runs : Unit {0}
unfolding new_penalty_tracker new_not_found_tracker record_penalty record_not_found add_hit count_of
    exceeded expensive_status Counter.sweep record_all Sharded.get Sharded.put Sharded.delete
    Sharded.keep Dict.get Dict.put Dict.delete Dict.keep
runs = tt

behaves : Unit {0}
unfolding runs new_behavior_tracker strike strikes_exceeded score signals total record_request
    note_request happen happen_all strike_count request_count
behaves = tt

abbrev c : Bytes
c = bytes "c"

abbrev answer : ℕ → Instant → Response
answer status at = record { status = status; at = at }

abbrev later : List Response
later = answer 200 6 ∷ answer 503 7 ∷ answer 404 8 ∷ []

abbrev filled : Tracker
filled = record_all record_penalty c (answer 404 5 ∷ later) (new_penalty_tracker 3 10)

abbrev cfg : BehaviorConfig
cfg = record {
  window = 10;
  burst_limit = 2;
  burst_score = 7;
  path_fanout = 0;
  path_fanout_score = 3;
  strike_limit = 2;
  strike_score = 1;
  write_burst_limit = 0;
  write_burst_score = 0;
  write_repeat_limit = 0;
  write_repeat_score = 0;
  forge_burst_limit = 0;
  forge_burst_score = 0;
  ua_variety_limit = 0;
  ua_variety_score = 0;
}

abbrev tracker : BehaviorTracker
tracker = new_behavior_tracker cfg

abbrev cold : Bytes → Bytes → Bool
cold path raw_query = false

abbrev visit : Instant → Event
visit now = request (bytes "/p/1") [] (bytes "GET") (bytes "ua") now

abbrev visits : List Event
visits = struck 6 ∷ visit 7 ∷ struck 8 ∷ []

abbrev ops : List BehaviorOp
ops = do_record c (bytes "/p/1") [] (bytes "GET") (bytes "ua") 5 ∷ do_strike c 6 ∷ do_score c 7 ∷ []

forge_runs : Unit {0}
unfolding find before_amp at_boundary value_from raw_query_value has_prefix
forge_runs = tt

classify-first_class_example : classify forge_cgit (bytes "/g/r/diff/x") ≡ forge_hot
classify-first_class_example =
    unfold has_path_suffix is_smart_http_path split classify_cgit_cmd str_eq in
    (classify-first_class (bytes "/g/r/diff/x"))
