-- ===== src/Protect/Slots/Refinement.antt =====
-- Acquire and Release against the list of the keys that hold a slot.
use ravenguard.Common.{
  ℕ, suc, ◌-◌, ◌<◌, ◌≡◌, Bool, true, false, ◌&&◌, ◌||◌, not, List, [], ◌∷◌, arith, ltb,
  if◌then◌else◌, Bytes, str_eq, str_eq_iff, Instant, length,
}
use ravenguard.Common.Int.{pos, inc, dec}
use ravenguard.Common.Dict
use ravenguard.Common.Dict.{get-put, get-keep}
use ravenguard.Protect.Config.{Config}
use ravenguard.Protect.Guard.{Guard, reconfigure}
use ravenguard.Protect.Bans.{sweep, is_idle}
use ravenguard.Protect.Slots.{counter, acquire, release}

-- How many slots a key holds.
unfoldable pub held : Bytes → List Bytes → ℕ
held k [] = 0
held k (j ∷ hs) = if str_eq j k then suc (held k hs) else held k hs

-- One slot of the key is given up.
unfoldable pub give_up : Bytes → List Bytes → List Bytes
give_up k [] = []
give_up k (j ∷ hs) = let rest = give_up k hs in if str_eq j k then hs else j ∷ rest

-- A request without a key takes a global slot only.
abbrev pub own_slots : Bytes → List Bytes → ℕ
own_slots k hs = if str_eq k [] then 0 else held k hs

-- The guard is on, its global counter is the number of slots held, and the counter of each client
-- is the number of slots that its key holds.
pub record Holds (g : Guard) (hs : List Bytes) : Type 0 where
  pub enabled : g.cfg.enabled ≡ true
  pub total : g.global ≡ pos (length hs)
  pub each : (k : Bytes) → counter (Dict.get k g.clients) ≡ pos (own_slots k hs)

-- When there is room: a global slot, and a slot of the client unless the key is empty.
unfoldable pub has_room : Config → Bytes → List Bytes → Bool
unfolding held
has_room cfg key hs =
    ltb (length hs) cfg.max_concurrent_global
    && (str_eq key [] || ltb (held key hs) cfg.max_concurrent_client)

abbrev pub after_acquire : Config → Bytes → List Bytes → List Bytes
after_acquire cfg key hs = if has_room cfg key hs then key ∷ hs else hs

acquire-result :
    (key : Bytes) (g : Guard) (hs : List Bytes)
    → Holds g hs
    → (acquire key g).1 ≡ has_room g.cfg key hs
unfolding acquire has_room
acquire-result key g hs h = ground (arith, h.total, h.enabled, h.each key)

acquire-total :
    (key : Bytes) (g : Guard) (hs : List Bytes)
    → Holds g hs
    → (acquire key g).0.global ≡ pos (length (after_acquire g.cfg key hs))
unfolding acquire has_room
acquire-total key g hs h = ground (arith, h.total, h.enabled, h.each key)

acquire-each :
    (key : Bytes) (g : Guard) (hs : List Bytes)
    → Holds g hs
    → (k : Bytes)
    → counter (Dict.get k (acquire key g).0.clients)
      ≡ pos (own_slots k (after_acquire g.cfg key hs))
unfolding acquire has_room held
acquire-each key g hs h k = ground (
  arith,
  h.total,
  h.enabled,
  h.each key,
  h.each k,
  str_eq_iff key k,
  get-put key k (inc (counter (Dict.get key g.clients))) g.clients,
  get-put key k (dec (inc (counter (Dict.get key g.clients)))) g.clients,
)

pub acquire-cfg : (key : Bytes) (g : Guard) → (acquire key g).0.cfg ≡ g.cfg
unfolding acquire
acquire-cfg key g = ground arith

-- From a guard that accounts for the slots held, Acquire succeeds exactly when there is room, and
-- then accounts for one slot more; when it fails it accounts for the same slots.
pub acquire-Holds :
    (key : Bytes) (g : Guard) (hs : List Bytes)
    → Holds g hs
    → ((acquire key g).1 ≡ has_room g.cfg key hs)
      × Holds (acquire key g).0 (after_acquire g.cfg key hs)
acquire-Holds key g hs h = (
  acquire-result key g hs h,
  record {
    enabled = rw (acquire-cfg key g) h.enabled;
    total = acquire-total key g hs h;
    each = acquire-each key g hs h;
  },
)

length-give_up :
    (k : Bytes) (hs : List Bytes) → 0 < held k hs → suc (length (give_up k hs)) ≡ length hs
unfolding held give_up
length-give_up k [] h = elim h [ ]
length-give_up k (j ∷ hs) h = ground (arith, length-give_up k hs)

held-give_up :
    (k j : Bytes) (hs : List Bytes)
    → held j (give_up k hs) ≡ (if str_eq k j then held j hs - 1 else held j hs)
unfolding held give_up
held-give_up k j [] = ground arith
held-give_up k j (i ∷ hs) =
    ground (arith, held-give_up k j hs, str_eq_iff i k, str_eq_iff i j, str_eq_iff k j)

release-each :
    (key : Bytes) (g : Guard) (hs : List Bytes)
    → Holds g hs
    → 0 < held key hs
    → (k : Bytes)
    → counter (Dict.get k (release key g).clients) ≡ pos (own_slots k (give_up key hs))
unfolding release counter
release-each key g hs h some_held k = ground (
  arith,
  h.enabled,
  h.each key,
  h.each k,
  str_eq_iff key k,
  held-give_up key k hs,
  get-put key k (pos (held key hs - 1)) g.clients,
)

-- Releasing a slot that is held accounts for one slot less, of that key.
pub release-Holds :
    (key : Bytes) (g : Guard) (hs : List Bytes)
    → Holds g hs
    → 0 < held key hs
    → Holds (release key g) (give_up key hs)
release-Holds key g hs h some_held = record {
  enabled = unfold release in (ground (arith, h.enabled));
  total = unfold release in (ground (arith, h.enabled, h.total, length-give_up key hs));
  each = release-each key g hs h some_held;
}

-- A sweep deletes idle counters only, so it accounts for the same slots.
pub sweep-Holds :
    (now : Instant) (age : ℕ) (g : Guard) (hs : List Bytes)
    → Holds g hs
    → Holds (sweep now age g) hs
unfolding sweep
sweep-Holds now age g hs h = record {
  enabled = h.enabled;
  total = h.total;
  each = λ k.
      unfold counter in (ground (arith, h.each k, get-keep (λ _ n. not (is_idle n)) k g.clients));
}

-- A request that is let in while the guard is on, and leaves while it is off, keeps its slot: with
-- the guard on again, the counters still account for the request.
pub release_while_off :
    (key : Bytes) (off on : Config) (g : Guard) (hs : List Bytes)
    → Holds g hs
    → has_room g.cfg key hs ≡ true
    → off.enabled ≡ false
    → on.enabled ≡ true
    → Holds (reconfigure on (release key (reconfigure off (acquire key g).0))) (key ∷ hs)
release_while_off key off on g hs h room is_off is_on =
    let kept = rw room at ((acquire-Holds key g hs h).1) in
    record {
      enabled = unfold reconfigure release in ground (arith, is_off, is_on);
      total = unfold reconfigure release in ground (arith, is_off, kept.total);
      each = λ k. unfold reconfigure release in ground (arith, is_off, kept.each k);
    }
