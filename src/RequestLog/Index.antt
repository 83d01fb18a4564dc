-- ===== src/RequestLog/Index.antt =====
-- The map and the ring of the hot index hold the newest events.
use native.Mathlib.Nat.{mod-eq_of_lt, mod-eq-sub-mod}
use ravenguard.Common.{
  ℕ, ◌+◌, ◌-◌, ◌%◌, ◌<◌, ◌≤◌, ◌≡◌, refl, some, List, [], ltb, if◌then◌else◌, Bytes, str_eq_iff,
  length, get_elem?, arith, Bool-cases, inl, inr, sym, ap, ◌∙◌, length-replicate,
}
use ravenguard.Common.Dict
use ravenguard.Common.Dict.{get-put, get-delete, get-nil}
use ravenguard.RequestLog.{Event, Logger, new, bump, store, slot}
use ravenguard.RequestLog.Newest.{
  find, renew, ids, Unique, find-renew, ids-renew, length-ids, renew-Unique,
}

-- A logger whose map and ring hold the events of a list, the newest first.
pub record Holds (s : List Event) (l : Logger) : Type 0 where
  pub size : length l.order ≡ l.max_hot
  pub inside : l.head < l.max_hot
  pub count : l.len ≡ length s
  pub most : l.len ≤ l.max_hot
  pub slots : (i : ℕ) → i < l.len → get_elem? l.order (slot l i) ≡ get_elem? (ids s) i
  pub known : (k : Bytes) → Dict.get k l.by_id ≡ find k s
  pub unique : Unique s

pub wrap : (a n : ℕ) → a < n + n → a % n ≡ (if ltb a n then a else a - n)
wrap a n h = elim (Bool-cases (ltb a n)) [
  | inl p ↦ let low : a < n = ground (arith, p) in rw p (mod-eq_of_lt low)
  | inr p ↦
      let high : n ≤ a = ground (arith, p) in
      let rest : a - n < n = omega (arith, h, high) in
      rw p (mod-eq-sub-mod high ∙ mod-eq_of_lt rest)
]

pub Holds-new : (capacity : ℕ) → Holds [] (new capacity)
unfolding new find
Holds-new capacity = record {
  size = length-replicate _ [];
  inside = ground arith;
  count = refl;
  most = omega arith;
  slots = λ i lt. ground (arith, lt);
  known = λ k. get-nil k;
  unique = tt;
}

pub bump-Holds :
    (action : Bytes) (s : List Event) (l : Logger) → Holds s l → Holds s (bump action l)
unfolding bump
bump-Holds action s l h = record {
  size = h.size;
  inside = h.inside;
  count = h.count;
  most = h.most;
  slots = h.slots;
  known = h.known;
  unique = h.unique;
}

length-renew : (e : Event) (s : List Event) → length (renew e s) ≡ length s
length-renew e s = sym (length-ids (renew e s)) ∙ ap length (ids-renew e s) ∙ length-ids s

pub renew-Holds :
    (e prev : Event) (s : List Event) (l : Logger)
    → Holds s l
    → find e.request_id s ≡ some prev
    → Holds (renew e s) (store e l)
renew-Holds e prev s l h f = record {
  size = h.size;
  inside = h.inside;
  count = h.count ∙ sym (length-renew e s);
  most = h.most;
  slots = λ i lt. rw (ids-renew e s) (h.slots i lt);
  known = λ k. ground (
    arith,
    get-put e.request_id k e l.by_id,
    find-renew e s k,
    h.known k,
    str_eq_iff e.request_id k,
    f,
  );
  unique = renew-Unique e s h.unique;
}
