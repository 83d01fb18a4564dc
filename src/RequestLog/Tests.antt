-- ===== src/RequestLog/Tests.antt =====
-- The hot index at concrete inputs.
use ravenguard.Common.{◌≡◌, none, List, [], ◌∷◌, Bytes, bytes, Instant, str_eq}
use ravenguard.Common.Dict
use ravenguard.RequestLog.{
  Event, new, tallied, bump, claim, record_known, record_event, take_interval, get_by_id, gather,
  recent,
}
use ravenguard.RequestLog.Newest.{find, renew, record_on}
use ravenguard.RequestLog.Recent.{record_all, list_all, recent-newest}
use ravenguard.RequestLog.Counts.{LogOp, do_record, do_take, run_all}

runs : Unit {0}
unfolding new tallied bump claim record_known record_event take_interval get_by_id gather recent
    find renew record_on record_all list_all run_all Dict.get Dict.put Dict.delete str_eq
runs = tt

abbrev event : Bytes → Event
event id = record {
  request_id = id;
  action = bytes "block";
  reason = bytes "r";
  bind_id = bytes "a";
  score = 0;
  details = [];
  created_at = 5;
}

abbrev a : Event
a = event (bytes "1")

abbrev b : Event
b = event (bytes "2")

abbrev c : Event
c = event (bytes "3")

abbrev events : List (Instant × Event)
events = (10, a) ∷ (11, b) ∷ (12, a) ∷ (13, c) ∷ []

recent-newest_example :
    (recent 5 (record_all events (new 2)) ≡ c ∷ b ∷ [])
    × (get_by_id (bytes "1") (record_all events (new 2)) ≡ none)
unfolding runs
recent-newest_example = recent-newest 2 5 events (bytes "1")

abbrev ops : List LogOp
ops = do_record 10 a ∷ do_take ∷ do_record 11 b ∷ do_record 12 c ∷ []
