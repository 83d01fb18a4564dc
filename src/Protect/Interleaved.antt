-- ===== src/Protect/Interleaved.antt =====
-- internal/protect/protect.go: Acquire, Release and the sweep of the client counters of a guard that
-- is enabled and keeps its settings, run at the same time. A step is one atomic operation, on the
-- global counter, on a client counter or on the sync.Map, with the local work up to the next one.
-- A client counter is a pointer in the code, and has a number here.
pub mod Owned
pub mod Total
pub mod Counters
pub mod Kept
pub mod Advance
pub mod Clients
pub mod Tests
use ravenguard.Common.{
  ℕ, zero, suc, ◌+◌, Bool, true, false, ◌&&◌, not, Option, none, some, List, [], ◌∷◌, ◌++◌, ◌==◌,
  if◌then◌else◌, Bytes, str_eq,
}
use ravenguard.Common.Int.{ℤ, pos, negsuc, ltb_ℤ, inc, dec}
use ravenguard.Common.Dict
use ravenguard.Common.Dict.{Dict}
use ravenguard.Protect.Config.{Config}

-- What the goroutines share: the counters by their numbers, and which of them the map holds.
pub record Shared : Type 0 where
  pub global : ℤ
  pub counters : ℕ → ℤ
  pub fresh : ℕ
  pub clients : Dict ℕ

-- Where a request is: in Acquire, let in or refused, or in Release.
pub data Stage : Type 0 where
  arriving : Stage
  read : ℤ → Stage
  counted : Stage
  located : ℕ → Stage
  over : ℕ → Stage
  undone : Stage
  taken : ℕ → Stage
  vanished : ℕ → Stage
  passed : Stage
  refused : Stage
  leaving : Stage
  found : ℕ → Stage
  gone : Stage

pub record Request : Type 0 where
  pub key : Bytes
  pub stage : Stage

abbrev pub same_ℤ : ℤ → ℤ → Bool
same_ℤ (pos m) (pos n) = m == n
same_ℤ (pos m) (negsuc n) = false
same_ℤ (negsuc m) (pos n) = false
same_ℤ (negsuc m) (negsuc n) = m == n

-- Add on a client counter.
abbrev pub set_counter : ℕ → ℤ → Shared → Shared
set_counter c n s = record s { counters = λ i. if i == c then n else s.counters i }

-- The test against the limit, and CompareAndSwap, which starts the loop again if it fails.
unfoldable pub swap_global : Config → ℤ → Shared → Shared × Stage
swap_global cfg cur s =
    if not (ltb_ℤ cur (pos cfg.max_concurrent_global))
    then (s, refused)
    else if same_ℤ s.global cur
    then (record s { global = inc cur }, counted)
    else (s, arriving)

-- LoadOrStore of a new counter
unfoldable pub load_or_store : Bytes → Option ℕ → Shared → Shared × Stage
load_or_store key (some c) s = (s, located c)
load_or_store key none s = (
  record s {
    counters = λ i. if i == s.fresh then pos 0 else s.counters i;
    fresh = suc s.fresh;
    clients = Dict.put key s.fresh s.clients;
  },
  located s.fresh,
)

unfoldable pub add_client : Config → ℕ → Shared → Shared × Stage
add_client cfg c s =
    let n = inc (s.counters c) in
    (set_counter c n s, if ltb_ℤ (pos cfg.max_concurrent_client) n then over c else taken c)

-- Whether the map still holds the counter.
unfoldable pub still_there : ℕ → Option ℕ → Stage
still_there c none = vanished c
still_there c (some d) = if d == c then passed else vanished c

unfoldable pub load_released : Option ℕ → Stage
load_released none = gone
load_released (some c) = found c

-- The next step of a request.
unfoldable pub advance : Config → Bytes → Stage → Shared → Shared × Stage
unfolding swap_global load_or_store add_client still_there load_released inc dec
advance cfg key arriving s = (s, read s.global)
advance cfg key (read cur) s = swap_global cfg cur s
advance cfg key counted s =
    if str_eq key [] then (s, passed) else load_or_store key (Dict.get key s.clients) s
advance cfg key (located c) s = add_client cfg c s
advance cfg key (over c) s = (set_counter c (dec (s.counters c)) s, undone)
advance cfg key undone s = (record s { global = dec s.global }, refused)
advance cfg key (taken c) s = (s, still_there c (Dict.get key s.clients))
advance cfg key (vanished c) s = (record s { clients = Dict.put key c s.clients }, passed)
advance cfg key passed s = (record s { global = dec s.global }, leaving)
advance cfg key leaving s =
    if str_eq key [] then (s, gone) else (s, load_released (Dict.get key s.clients))
advance cfg key (found c) s = (set_counter c (dec (s.counters c)) s, gone)
advance cfg key refused s = (s, refused)
advance cfg key gone s = (s, gone)

-- The next step of the request with a number.
unfoldable pub step_at : Config → ℕ → List Request → Shared → Shared × List Request
unfolding advance
step_at cfg i [] s = (s, [])
step_at cfg zero (r ∷ rs) s =
    let (s', stage) = advance cfg r.key r.stage s in (s', record r { stage = stage } ∷ rs)
step_at cfg (suc i) (r ∷ rs) s = let (s', rs') = step_at cfg i rs s in (s', r ∷ rs')

-- CompareAndDelete
unfoldable pub compare_and_delete : Bytes → ℕ → Shared → Shared
compare_and_delete key c s = elim (Dict.get key s.clients) [
  | none ↦ s
  | some d ↦ if d == c then record s { clients = Dict.delete key s.clients } else s
]

-- Where the sweep is: between two entries, behind the load of one, or behind the test of its
-- counter against 0.
pub data Sweeper : Type 0 where
  resting : Sweeper
  seen : Bytes → ℕ → Sweeper
  idle : Bytes → ℕ → Sweeper

abbrev pub look_at : Bytes → Option ℕ → Sweeper
look_at key none = resting
look_at key (some c) = seen key c

-- The next step of the sweep.
unfoldable pub sweep_step : Sweeper → Shared → Shared × Sweeper
unfolding compare_and_delete
sweep_step resting s = (s, resting)
sweep_step (seen key c) s = (s, if same_ℤ (s.counters c) (pos 0) then idle key c else resting)
sweep_step (idle key c) s = (compare_and_delete key c s, resting)

pub record World : Type 0 where
  pub shared : Shared
  pub requests : List Request
  pub sweeper : Sweeper

-- A request comes, one of the requests does its next step, the sweep comes to the entry of a client,
-- or it does its next step there.
pub data Event : Type 0 where
  come : Bytes → Event
  go : ℕ → Event
  look : Bytes → Event
  sweep_on : Event

unfoldable pub happen : Config → Event → World → World
unfolding step_at sweep_step
happen cfg (come key) w = record w {
  requests = w.requests ++ record { key = key; stage = arriving } ∷ [];
}
happen cfg (go i) w =
    let (s, rs) = step_at cfg i w.requests w.shared in record w { shared = s; requests = rs }
happen cfg (look key) w = record w { sweeper = look_at key (Dict.get key w.shared.clients) }
happen cfg sweep_on w =
    let (s, sweeper) = sweep_step w.sweeper w.shared in record w { shared = s; sweeper = sweeper }

unfoldable pub run : Config → List Event → World → World
unfolding happen
run cfg [] w = w
run cfg (e ∷ es) w = run cfg es (happen cfg e w)

-- A new guard, before any request.
abbrev pub start : World
start = record {
  shared = record { global = pos 0; counters = λ _. pos 0; fresh = 0; clients = [] };
  requests = [];
  sweeper = resting;
}
