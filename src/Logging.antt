-- ===== src/Logging.antt =====
-- internal/logging/ring.go: the circular buffer of log entries that the admin site shows. The slog
-- handlers around it are not modelled.
pub mod Newest
pub mod Tests
use ravenguard.Common.{
  ℕ, zero, suc, ◌+◌, ◌-◌, ◌%◌, Bool, true, false, ◌&&◌, ◌||◌, Option, none, some, List, [], ◌∷◌,
  ltb, leb, ◌==◌, if◌then◌else◌, Instant, Bytes, bytes, str_eq, get_elem?, set, replicate,
}
use ravenguard.Common.Ascii.{trim_space, to_lower}
use ravenguard.Common.Dict.{Dict}

pub record LogEntry : Type 0 where
  pub time : Instant
  pub level : Bytes
  pub message : Bytes
  pub attrs : Dict Bytes

pub record Ring : Type 0 where
  pub buf : List LogEntry
  pub cap : ℕ
  pub next : ℕ
  pub full : Bool

abbrev pub zero_entry : LogEntry
zero_entry = record { time = 0; level = []; message = []; attrs = [] }

abbrev at_least_one : ℕ → ℕ
at_least_one n = if ltb n 1 then 1 else n

-- NewRing
unfoldable pub new_ring : ℕ → Ring
new_ring capacity = record {
  buf = replicate (at_least_one capacity) zero_entry;
  cap = at_least_one capacity;
  next = 0;
  full = false;
}

-- parseLevel; a level of slog is 4 more here, so that none is negative.
unfoldable pub parse_level : Bytes → ℕ
parse_level s =
    let t = to_lower (trim_space s) in
    if str_eq t (bytes "debug")
    then 0
    else if str_eq t (bytes "warn") || str_eq t (bytes "warning")
    then 8
    else if str_eq t (bytes "error")
    then 12
    else 4

-- Ring.record
unfoldable pub record_entry : LogEntry → Ring → Ring
record_entry e r = record r {
  buf = set r.buf r.next e;
  next = (r.next + 1) % r.cap;
  full = ((r.next + 1) % r.cap == 0) || r.full;
}

-- How many entries there are, and where the i-th newest one is.
abbrev pub count : Ring → ℕ
count r = if r.full then r.cap else r.next

abbrev pub index : Ring → ℕ → ℕ
index r i = if ltb r.next (1 + i) then r.next + r.cap - 1 - i else r.next - 1 - i

-- What is added for an entry, before the entries that come after it if it is skipped, if it is
-- taken; `taken` is the number of the entries before it.
abbrev pub choose : ℕ → ℕ → ℕ → LogEntry → List LogEntry → List LogEntry → List LogEntry
choose limit minimum taken e skipped more =
    if ltb (parse_level e.level) minimum
    then skipped
    else if ltb 0 limit && leb limit (taken + 1)
    then e ∷ []
    else e ∷ more

abbrev choose_at : ℕ → ℕ → ℕ → Option LogEntry → List LogEntry → List LogEntry → List LogEntry
choose_at limit minimum taken none skipped more = []
choose_at limit minimum taken (some e) skipped more = choose limit minimum taken e skipped more

-- The loop of Snapshot: the entries from the i-th newest one on, of which `left` are left.
unfoldable pub collect : ℕ → ℕ → Ring → ℕ → ℕ → ℕ → List LogEntry
collect limit minimum r zero i taken = []
collect limit minimum r (suc left) i taken =
    let skipped = collect limit minimum r left (i + 1) taken in
    let more = collect limit minimum r left (i + 1) (taken + 1) in
    choose_at limit minimum taken (get_elem? r.buf (index r i)) skipped more

-- Snapshot; a limit of 0 stands for any that is not positive.
unfoldable pub snapshot : ℕ → Bytes → Ring → List LogEntry
unfolding collect
snapshot limit min_level r = collect limit (parse_level min_level) r (count r) 0 0
