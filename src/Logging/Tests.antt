-- ===== src/Logging/Tests.antt =====
-- The ring at concrete inputs.
use ravenguard.Common.{◌≡◌, refl, [], ◌∷◌, List, Bytes, bytes, str_eq}
use ravenguard.Common.Ascii.{trim_space}
use ravenguard.Logging.{LogEntry, new_ring, record_entry, snapshot, collect, parse_level}
use ravenguard.Logging.Newest.{record_all, snapshot-newest}

abbrev entry : Bytes → Bytes → LogEntry
entry level message = record { time = 1; level = level; message = message; attrs = [] }

abbrev first : LogEntry
first = entry (bytes "ERROR") (bytes "a")

abbrev second : LogEntry
second = entry (bytes "INFO") (bytes "b")

abbrev third : LogEntry
third = entry (bytes "WARN") (bytes "c")

abbrev entries : List LogEntry
entries = first ∷ second ∷ third ∷ []

runs : Unit {0}
unfolding new_ring record_entry snapshot collect parse_level record_all trim_space str_eq
runs = tt

newest_warning : snapshot 0 (bytes "warn") (record_all entries (new_ring 2)) ≡ third ∷ []
unfolding runs
newest_warning = refl

snapshot-newest_example : snapshot 0 (bytes "warn") (record_all entries (new_ring 2)) ≡ third ∷ []
unfolding runs
snapshot-newest_example = snapshot-newest entries 2 0 (bytes "warn")
