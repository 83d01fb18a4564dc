-- ===== src/Agents/Connects.antt =====
-- internal/agentprotocol/hub.go: the limit on the connections of an address.
use ravenguard.Common.{
  ℕ, ◌+◌, ◌≤◌, ◌≡◌, Bool, true, false, ◌&&◌, Option, none, some, List, [], ◌∷◌, ◌++◌, ltb, leb,
  if◌then◌else◌, Bytes, bytes, str_eq, length, Instant,
}
use ravenguard.Common.Dict.{Dict, get, put}

abbrev pub connect_rate_limit : ℕ
connect_rate_limit = 20

-- One minute.
abbrev pub connect_rate_window : ℕ
connect_rate_window = 60000000000

abbrev pub Limits : Type 0
Limits = Dict (List Instant)

-- Whether a connection is within the window at a time: t.After(now.Add(-connectRateWindow)).
abbrev pub is_recent : Instant → Instant → Bool
is_recent now t = ltb now (t + connect_rate_window)

unfoldable pub recent : Instant → List Instant → List Instant
recent now [] = []
recent now (t ∷ ts) = let rest = recent now ts in if is_recent now t then t ∷ rest else rest

abbrev pub or_empty : Option (List Instant) → List Instant
or_empty none = []
or_empty (some ts) = ts

abbrev pub client_name : Bytes → Bytes
client_name ip = if str_eq ip [] then bytes "unknown" else ip

-- allowConnect
unfoldable pub allow_connect : Bytes → Instant → Limits → Limits × Bool
unfolding recent
allow_connect ip now limit =
    let name = client_name ip in
    let kept = recent now (or_empty (get name limit)) in
    if leb connect_rate_limit (length kept)
    then (put name kept limit, false)
    else (put name (kept ++ now ∷ []) limit, true)

-- Attempts of any clients, in the order of the clock: the limits after them and, behind those of
-- `earlier`, the times at which one client has been let in.
unfoldable pub admitted :
    Bytes → List (Bytes × Instant) → Limits → List Instant → Limits × List Instant
unfolding allow_connect
admitted name [] limit earlier = (limit, earlier)
admitted name ((ip, now) ∷ attempts) limit earlier =
    let (limit', let_in) = allow_connect ip now limit in
    admitted name attempts limit'
      (if let_in && str_eq (client_name ip) name then earlier ++ now ∷ [] else earlier)

-- The attempts lie between two times, in order.
abbrev pub Ascends : Instant → Instant → List (Bytes × Instant) → Type 0
Ascends from until [] = from ≤ until
Ascends from until ((ip, now) ∷ attempts) = (from ≤ now) × Ascends now until attempts

module _ (name : Bytes) where
  abbrev stored : Limits → List Instant
  stored limit = or_empty (get name limit)

  -- The times kept are those let in, as far as a window can still reach them, and are not too many.
  record KeptTimes (now : Instant) (ts h : List Instant) : Type 0 where
    window : (later : Instant) → now ≤ later → recent later ts ≡ recent later h
    few : length ts ≤ connect_rate_limit

  abbrev Kept : Instant → Limits → List Instant → Type 0
  Kept now limit h = KeptTimes now (stored limit) h

  abbrev let_in : Bool → Bytes → Instant → List Instant → List Instant
  let_in ok ip now h = if ok && str_eq (client_name ip) name then h ++ now ∷ [] else h

  abbrev Next : Bytes → Instant → List Instant → Limits × Bool → Type 0
  Next ip now h r = Kept now r.0 (let_in r.1 ip now h)
