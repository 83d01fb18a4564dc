-- ===== src/Protect/Slots/Traffic.antt =====
-- Requests that arrive and leave, in any order, with sweeps between them: the slots in use.
use ravenguard.Common.{
  ℕ, ◌≤◌, ◌<◌, ◌≡◌, refl, true, List, [], ◌∷◌, arith, if◌then◌else◌, Bytes, str_eq, str_eq_iff,
  length, Instant,
}
use ravenguard.Common.Dict
use ravenguard.Protect.Config.{Config, with_defaults}
use ravenguard.Protect.Guard.{Guard, new}
use ravenguard.Protect.Bans.{sweep}
use ravenguard.Protect.Slots.{acquire, release, counter}
use ravenguard.Protect.Slots.Refinement.{
  held, give_up, has_room, after_acquire, Holds, acquire-Holds, release-Holds, sweep-Holds,
}

-- `hs` lists the keys of the requests that Acquire let in and that have not been released.
pub data Traffic (cfg : Config) : Guard → List Bytes → Type 0 where
  start : Traffic cfg (new cfg) []
  arrive :
      {g : Guard} {hs : List Bytes} (key : Bytes)
      → Traffic cfg g hs
      → Traffic cfg (acquire key g).0 (if (acquire key g).1 then key ∷ hs else hs)
  leave :
      {g : Guard} {hs : List Bytes} (key : Bytes)
      → 0 < held key hs
      → Traffic cfg g hs
      → Traffic cfg (release key g) (give_up key hs)
  tidy :
      {g : Guard} {hs : List Bytes} (now : Instant) (age : ℕ)
      → Traffic cfg g hs
      → Traffic cfg (sweep now age g) hs

abbrev pub client_limit : Config → Bytes → ℕ
client_limit cfg k = if str_eq k [] then cfg.max_concurrent_global else cfg.max_concurrent_client

-- The limits on the slots in use; requests without a key share the global limit alone.
pub record Within (cfg : Config) (hs : List Bytes) : Type 0 where
  pub global : length hs ≤ cfg.max_concurrent_global
  pub client : (k : Bytes) → held k hs ≤ client_limit cfg k

record Sound (cfg : Config) (g : Guard) (hs : List Bytes) : Type 0 where
  same_cfg : g.cfg ≡ with_defaults cfg
  holds : Holds g hs
  within : Within (with_defaults cfg) hs

held-le-length : (k : Bytes) (hs : List Bytes) → held k hs ≤ length hs
unfolding held
held-le-length k [] = omega arith
held-le-length k (j ∷ hs) = ground (arith, held-le-length k hs)

acquire-Within :
    (cfg : Config) (key : Bytes) (hs : List Bytes)
    → Within cfg hs
    → Within cfg (after_acquire cfg key hs)
unfolding has_room held
acquire-Within cfg key hs w = record {
  global = ground (arith, w.global);
  client = λ k. ground (arith, w.client k, w.global, str_eq_iff key k, held-le-length k hs);
}

held-give_up-le : (k j : Bytes) (hs : List Bytes) → held j (give_up k hs) ≤ held j hs
unfolding held give_up
held-give_up-le k j [] = omega arith
held-give_up-le k j (i ∷ hs) = ground (arith, held-give_up-le k j hs)

length-give_up-le : (k : Bytes) (hs : List Bytes) → length (give_up k hs) ≤ length hs
unfolding give_up
length-give_up-le k [] = omega arith
length-give_up-le k (i ∷ hs) = ground (arith, length-give_up-le k hs)

acquire-cfg : (key : Bytes) (g : Guard) → (acquire key g).0.cfg ≡ g.cfg
unfolding acquire
acquire-cfg key g = ground arith

release-cfg : (key : Bytes) (g : Guard) → (release key g).cfg ≡ g.cfg
unfolding release
release-cfg key g = ground arith

sweep-cfg : (now : Instant) (age : ℕ) (g : Guard) → (sweep now age g).cfg ≡ g.cfg
unfolding sweep
sweep-cfg now age g = refl

new-Sound : (cfg : Config) → cfg.enabled ≡ true → Sound cfg (new cfg) []
unfolding new with_defaults held
new-Sound cfg on = record {
  same_cfg = refl;
  holds = record {
    enabled = on;
    total = refl;
    each = λ k. unfold Dict.get counter in ground arith;
  };
  within = record { global = omega arith; client = λ k. omega arith };
}

acquire-Sound :
    (cfg : Config) (key : Bytes) (g : Guard) (hs : List Bytes)
    → Sound cfg g hs
    → Sound cfg (acquire key g).0 (if (acquire key g).1 then key ∷ hs else hs)
acquire-Sound cfg key g hs s =
    let (result, holds) = acquire-Holds key g hs s.holds in
    rw result (record {
      same_cfg = rw (acquire-cfg key g) s.same_cfg;
      holds = holds;
      within = rw s.same_cfg (acquire-Within (with_defaults cfg) key hs s.within);
    })

Traffic-Sound :
    {cfg : Config} {g : Guard} {hs : List Bytes}
    → cfg.enabled ≡ true
    → Traffic cfg g hs
    → Sound cfg g hs
Traffic-Sound {cfg} on start = new-Sound cfg on
Traffic-Sound {cfg} on (arrive {g} {hs} key t) = acquire-Sound cfg key g hs (Traffic-Sound on t)
Traffic-Sound {cfg} on (leave {g} {hs} key some_held t) =
    let s = Traffic-Sound on t in
    record {
      same_cfg = rw (release-cfg key g) s.same_cfg;
      holds = release-Holds key g hs s.holds some_held;
      within = record {
        global = omega (arith, length-give_up-le key hs, s.within.global);
        client = λ k. omega (arith, held-give_up-le key k hs, s.within.client k);
      };
    }
Traffic-Sound on (tidy {g} {hs} now age t) =
    let s = Traffic-Sound on t in
    record {
      same_cfg = rw (sweep-cfg now age g) s.same_cfg;
      holds = sweep-Holds now age g hs s.holds;
      within = s.within;
    }

-- Whatever the order of arrivals, departures and sweeps from a new guard that is enabled, the
-- requests in flight never pass the global limit, and those of one client never its own limit.
pub Traffic-Within :
    {cfg : Config} {g : Guard} {hs : List Bytes}
    → cfg.enabled ≡ true
    → Traffic cfg g hs
    → Within (with_defaults cfg) hs
Traffic-Within on t = (Traffic-Sound on t).within
