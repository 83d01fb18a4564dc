-- ===== src/RequestLog.antt =====
-- internal/requestlog/requestlog.go: the hot index of denied requests, a map of events with the ring
-- of their identifiers, and the counters of outcomes. The logger has no durable store here; the map
-- of details is a list, and the counters are natural numbers, below 2^64.
pub mod Index
pub mod Claim
pub mod Recent
pub mod Counts
pub mod Newest
pub mod Tests
use ravenguard.Common.{
  ℕ, zero, suc, ◌+◌, ◌-◌, ◌%◌, Bool, true, false, ◌&&◌, ◌||◌, not, Option, none, some, List, [],
  ◌∷◌, ltb, leb, ◌==◌, if◌then◌else◌, Bytes, bytes, str_eq, Instant, get_elem?, set, replicate,
}
use ravenguard.Common.Dict
use ravenguard.Common.Dict.{Dict}

pub record Event : Type 0 where
  pub request_id : Bytes
  pub action : Bytes
  pub reason : Bytes
  pub bind_id : Bytes
  pub score : ℕ
  pub details : List (Bytes × Bytes)
  pub created_at : Instant

pub record Counters : Type 0 where
  pub challenges : ℕ
  pub blocks : ℕ
  pub rate_limits : ℕ
  pub coraza : ℕ
  pub access : ℕ
  pub open_api : ℕ
  pub semantic : ℕ
  pub ml : ℕ

abbrev pub no_counts : Counters
no_counts = record {
  challenges = 0;
  blocks = 0;
  rate_limits = 0;
  coraza = 0;
  access = 0;
  open_api = 0;
  semantic = 0;
  ml = 0;
}

-- Sum
abbrev pub sum : Counters → ℕ
sum c =
    c.challenges + c.blocks + c.rate_limits + c.coraza + c.access + c.open_api + c.semantic + c.ml

pub record Logger : Type 0 where
  pub by_id : Dict Event
  pub order : List Bytes
  pub head : ℕ
  pub len : ℕ
  pub max_hot : ℕ
  pub totals : Counters
  pub interval : Counters

abbrev pub capacity_of : ℕ → ℕ
capacity_of hot_capacity = if ltb hot_capacity 1 then 2000 else hot_capacity

-- New
unfoldable pub new : ℕ → Logger
new hot_capacity = record {
  by_id = [];
  order = replicate (capacity_of hot_capacity) [];
  head = 0;
  len = 0;
  max_hot = capacity_of hot_capacity;
  totals = no_counts;
  interval = no_counts;
}

-- One counter of bump; other actions, such as "payment", are not tallied.
unfoldable pub tallied : Bytes → Counters → Counters
tallied action c =
    if str_eq action (bytes "challenge")
    then record c { challenges = c.challenges + 1 }
    else if str_eq action (bytes "block")
    then record c { blocks = c.blocks + 1 }
    else if str_eq action (bytes "ratelimit")
    then record c { rate_limits = c.rate_limits + 1 }
    else if str_eq action (bytes "coraza")
    then record c { coraza = c.coraza + 1 }
    else if str_eq action (bytes "access")
    then record c { access = c.access + 1 }
    else if str_eq action (bytes "openapi")
    then record c { open_api = c.open_api + 1 }
    else if str_eq action (bytes "semantic")
    then record c { semantic = c.semantic + 1 }
    else if str_eq action (bytes "ml")
    then record c { ml = c.ml + 1 }
    else c

-- bump
unfoldable pub bump : Bytes → Logger → Logger
unfolding tallied
bump action l = record l { totals = tallied action l.totals; interval = tallied action l.interval }

-- The bind of an event that another client recorded.
abbrev pub conflicts : Event → Event → Bool
conflicts prev e =
    not (str_eq prev.bind_id []) && not (str_eq e.bind_id []) && not (str_eq prev.bind_id e.bind_id)

abbrev pub or_empty : Option Bytes → Bytes
or_empty none = []
or_empty (some id) = id

-- A new identifier takes the next slot of the ring, or that of the oldest one.
unfoldable pub claim : Bytes → Logger → Logger
claim id l =
    if leb l.max_hot l.len
    then record l {
      by_id = Dict.delete (or_empty (get_elem? l.order l.head)) l.by_id;
      order = set l.order l.head id;
      head = (l.head + 1) % l.max_hot;
    }
    else record l { order = set l.order ((l.head + l.len) % l.max_hot) id; len = l.len + 1 }

abbrev pub store : Event → Logger → Logger
store e l = record l { by_id = Dict.put e.request_id e l.by_id }

-- The part of Record that holds the lock; it is told what is known of the identifier.
unfoldable pub record_known : Event → Logger → Option Event → Logger
unfolding claim bump
record_known e l none = bump e.action (store e (claim e.request_id l))
record_known e l (some prev) = if conflicts prev e then l else bump e.action (store e l)

-- Record, at an instant.
unfoldable pub record_event : Instant → Event → Logger → Logger
unfolding record_known
record_event now e l =
    if str_eq e.request_id []
    then l
    else record_known (record e { created_at = if e.created_at == 0 then now else e.created_at }) l
        (Dict.get e.request_id l.by_id)

-- TakeInterval
unfoldable pub take_interval : Logger → Logger × Counters
take_interval l = (record l { interval = no_counts }, l.interval)

-- GetByID
unfoldable pub get_by_id : Bytes → Logger → Option Event
get_by_id id l = if str_eq id [] then none else Dict.get id l.by_id

abbrev pub onto_found : Option Event → List Event → List Event
onto_found none rest = rest
onto_found (some e) rest = e ∷ rest

abbrev pub slot : Logger → ℕ → ℕ
slot l i = (l.head + l.len - 1 - i) % l.max_hot

-- The loop of Recent, of `left` more rounds from round i on; every identifier of the ring that is in
-- the map takes one of the places that the limit leaves.
unfoldable pub gather : Logger → ℕ → ℕ → ℕ → List Event
gather l zero i places = []
gather l (suc left) i places =
    let id = or_empty (get_elem? l.order (slot l i)) in
    let found = Dict.get id l.by_id in
    let kept = gather l left (i + 1) (places - 1) in
    let skipped = gather l left (i + 1) places in
    if places == 0 then [] else elim found [ none ↦ skipped | some e ↦ e ∷ kept ]

-- Recent
unfoldable pub recent : ℕ → Logger → List Event
unfolding gather
recent limit l = gather l l.len 0 (if limit == 0 then 50 else limit)
