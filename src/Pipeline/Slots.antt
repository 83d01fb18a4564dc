-- ===== src/Pipeline/Slots.antt =====
-- guard gives back the slot that it takes.
use ravenguard.Common.{
  ◌≡◌, refl, Bool, true, false, Option, none, some, List, ◌∷◌, if◌then◌else◌, Bytes, Instant, arith,
  ap, ◌∙◌, str_eq_refl, if_both, ◌<◌,
}
use ravenguard.Protect.Config.{
  SizeVerdict, size_ok, url_too_large, body_too_large, check_request_size,
}
use ravenguard.Protect.Guard.{Guard}
use ravenguard.Protect.Bans.{banned}
use ravenguard.Protect.Slots.{acquire, counter}
use ravenguard.Protect.Slots.Refinement.{Holds, acquire-Holds, release-Holds, held, give_up}
use ravenguard.RateLimit.Floats.{Arithmetic}
use ravenguard.Common.Dict
use ravenguard.Pipeline.{Settings, Facts, Outcome, Edge}
use ravenguard.Pipeline.Kept.{inner-IsKept}
use ravenguard.Pipeline.Neutral.{slots, slots_of, banned-slots}
use ravenguard.Pipeline.Serve.{
  inner, set_prot, release_in, with_slot, unless_banned, by_size, by_prot, guard,
}

-- The slots held are those of a list of keys, of a guard that is there and on.
abbrev pub HoldsIn : Option Guard → List Bytes → Type 0
HoldsIn none hs = ⊥
HoldsIn (some g) hs = Holds g hs

Holds-slots : (g h : Guard) (hs : List Bytes) → slots h ≡ slots g → Holds g hs → Holds h hs
Holds-slots g h hs e k =
    let cfg : h.cfg ≡ g.cfg = ap (λ t. t.0) e in
    let total : h.global ≡ g.global = ap (λ t. t.1) e in
    let clients : h.clients ≡ g.clients = ap (λ t. t.2) e in
    record {
      enabled = ap (λ c. c.enabled) cfg ∙ k.enabled;
      total = total ∙ k.total;
      each = λ key. ap (λ m. counter (Dict.get key m)) clients ∙ k.each key;
    }

HoldsIn-slots :
    (prot : Option Guard) (g : Guard) (hs : List Bytes)
    → slots_of prot ≡ some (slots g)
    → Holds g hs
    → HoldsIn prot hs
HoldsIn-slots none g hs e k = ground (arith, e)
HoldsIn-slots (some h) g hs e k = let same : slots h ≡ slots g = cc in Holds-slots g h hs same k

give_up_self : (key : Bytes) (hs : List Bytes) → give_up key (key ∷ hs) ≡ hs
unfolding give_up
give_up_self key hs = rw (str_eq_refl key) refl

held_self : (key : Bytes) (hs : List Bytes) → 0 < held key (key ∷ hs)
unfolding held
held_self key hs = rw (str_eq_refl key) (ground arith)

module _ (s : Settings) (f : Facts) (now : Instant) (A : Arithmetic) where
  open A use {Num}

  release_in-Holds :
      (prot : Option Guard) (g : Guard) (hs : List Bytes)
      → slots_of prot ≡ some (slots g)
      → Holds g (f.key ∷ hs)
      → HoldsIn (release_in s f now A prot) hs
  release_in-Holds none g hs e k = ground (arith, e)
  release_in-Holds (some h) g hs e k =
      let same : slots h ≡ slots g = cc in
      let after =
        release-Holds f.key h (f.key ∷ hs) (Holds-slots g h (f.key ∷ hs) same k)
          (held_self f.key hs) in
      rw (give_up_self f.key hs) at after

  with_slot-Holds :
      (e : Edge Num) (r : Guard × Bool) (hs : List Bytes)
      → Holds r.0 (if r.1 then f.key ∷ hs else hs)
      → HoldsIn (with_slot s f now A e r).0.prot hs
  with_slot-Holds e (g, true) hs k =
      release_in-Holds (inner s f now A (set_prot s f now A e g)).0.prot g hs
        (inner-IsKept s f now A (set_prot s f now A e g)) k
  with_slot-Holds e (g, false) hs k = k

  unless_banned-Holds :
      (e : Edge Num) (r : Guard × Bool) (hs : List Bytes)
      → Holds r.0 hs
      → HoldsIn (unless_banned s f now A e r).0.prot hs
  unless_banned-Holds e (g, true) hs k = k
  unless_banned-Holds e (g, false) hs k =
      let (room, after) = acquire-Holds f.key g hs k in
      with_slot-Holds e (acquire f.key g) hs (rw room after)

  by_size-Holds :
      (e : Edge Num) (g : Guard) (v : SizeVerdict) (hs : List Bytes)
      → e.prot ≡ some g
      → Holds g hs
      → HoldsIn (by_size s f now A e g v).0.prot hs
  by_size-Holds e g size_ok hs m k =
      unless_banned-Holds e (banned f.key now g) hs
        (Holds-slots g (banned f.key now g).0 hs (banned-slots f.key now g) k)
  by_size-Holds e g url_too_large hs m k = rw m k
  by_size-Holds e g body_too_large hs m k = rw m k

  by_prot-Holds :
      (e : Edge Num) (prot : Option Guard) (g : Guard) (hs : List Bytes)
      → e.prot ≡ prot
      → prot ≡ some g
      → Holds g hs
      → HoldsIn (by_prot s f now A e prot).0.prot hs
  unfolding by_prot
  by_prot-Holds e none g hs m same k = ground (arith, same)
  by_prot-Holds e (some h) g hs m same k =
      let equal : h ≡ g = cc in
      let holds : Holds h hs = rw equal k in
      if_both (λ (r : Edge Num × Outcome). HoldsIn r.0.prot hs) h.cfg.enabled
        (by_size s f now A e h (check_request_size h.cfg f.path f.raw_query f.content_length))
        (inner s f now A e)
        (by_size-Holds e h (check_request_size h.cfg f.path f.raw_query f.content_length) hs m
          holds)
        (HoldsIn-slots (inner s f now A e).0.prot h hs (inner-IsKept s f now A e ∙ ap slots_of m)
          holds)

  -- A request that guard serves, whatever its outcome, leaves the guard with the slots that were
  -- held before: the slot that it takes is given back on every path.
  pub guard-Holds :
      (e : Edge Num) (g : Guard) (hs : List Bytes)
      → e.prot ≡ some g
      → Holds g hs
      → HoldsIn (guard s f now A e).0.prot hs
  unfolding guard
  guard-Holds e g hs m k = by_prot-Holds e e.prot g hs refl m k
