-- ===== src/RequestLog/Recent.antt =====
-- Record, GetByID and Recent against the list of the newest events.
use ravenguard.Common.{
  ℕ, zero, suc, ◌+◌, ◌-◌, ◌<◌, ◌≡◌, refl, false, Option, none, some, List, [], ◌∷◌, ◌==◌,
  if◌then◌else◌, Bytes, str_eq, str_eq_iff, str_eq_refl, Instant, length, get_elem?, take, arith,
  Bool-cases, inl, inr, sym, ◌∙◌, All, if_both, leb,
}
use mathlib.Core.Path.{subst}
use ravenguard.Common.Dict
use ravenguard.RequestLog.{
  Event, Logger, new, capacity_of, bump, claim, store, conflicts, record_known, record_event,
  get_by_id, slot, gather, recent,
}
use ravenguard.RequestLog.Newest.{find, renew, ids, record_on, admitted, stamped, Unique}
use ravenguard.RequestLog.Index.{Holds, Holds-new, bump-Holds, renew-Holds}
use ravenguard.RequestLog.Claim.{claim-Holds}

record_known-Holds :
    (e : Event) (s : List Event) (l : Logger) (o : Option Event)
    → Holds s l
    → find e.request_id s ≡ o
    → Holds (admitted l.max_hot e s o) (record_known e l o)
unfolding record_known
record_known-Holds e s l none h f =
    bump-Holds e.action (take l.max_hot (e ∷ s)) (store e (claim e.request_id l))
      (claim-Holds e s l h f)
record_known-Holds e s l (some prev) h f = elim (Bool-cases (conflicts prev e)) [
  | inl p ↦ rw p h
  | inr p ↦ rw p (bump-Holds e.action (renew e s) (store e l) (renew-Holds e prev s l h f))
]

record_event-Holds :
    (now : Instant) (e : Event) (s : List Event) (l : Logger)
    → Holds s l
    → Holds (record_on l.max_hot now e s) (record_event now e l)
unfolding record_event record_on
record_event-Holds now e s l h = elim (Bool-cases (str_eq e.request_id [])) [
  | inl p ↦ rw p h
  | inr p ↦
      rw (p, h.known e.request_id)
        (record_known-Holds (stamped now e) s l (find e.request_id s) h refl)
]

max_hot-record_known :
    (e : Event) (l : Logger) (o : Option Event) → (record_known e l o).max_hot ≡ l.max_hot
unfolding record_known claim bump
max_hot-record_known e l none =
    if_both (λ (m : Logger). m.max_hot ≡ l.max_hot) (leb l.max_hot l.len) _ _ refl refl
max_hot-record_known e l (some prev) =
    if_both (λ (m : Logger). m.max_hot ≡ l.max_hot) (conflicts prev e) _ _ refl refl

max_hot-record_event :
    (now : Instant) (e : Event) (l : Logger) → (record_event now e l).max_hot ≡ l.max_hot
unfolding record_event
max_hot-record_event now e l =
    if_both (λ (m : Logger). m.max_hot ≡ l.max_hot) (str_eq e.request_id []) _ _ refl
      (max_hot-record_known (stamped now e) l (Dict.get e.request_id l.by_id))

found_later :
    (x : Event) (t : List Event) (ys : List Event)
    → find x.request_id t ≡ none
    → All (λ y. find y.request_id t ≡ some y) ys
    → All (λ y. find y.request_id (x ∷ t) ≡ some y) ys
unfolding find
found_later x t [] new h = tt
found_later x t (y ∷ ys) new (here, h) = elim (Bool-cases (str_eq x.request_id y.request_id)) [
  | inl p ↦
      let same : x.request_id ≡ y.request_id = (str_eq_iff x.request_id y.request_id).0 p in
      let clash : find y.request_id t ≡ none = rw same at new in ground (arith, clash, here)
  | inr p ↦ (rw p here, found_later x t ys new h)
]

found : (s : List Event) → Unique s → All (λ y. find y.request_id s ≡ some y) s
found [] u = tt
found (x ∷ s) (new, u) =
    (unfold find in rw (str_eq_refl x.request_id) refl, found_later x s s new (found s u))

All-known :
    (s : List Event) (l : Logger) (ys : List Event)
    → ((k : Bytes) → Dict.get k l.by_id ≡ find k s)
    → All (λ y. find y.request_id s ≡ some y) ys
    → All (λ y. Dict.get y.request_id l.by_id ≡ some y) ys
All-known s l [] known h = tt
All-known s l (y ∷ ys) known (here, h) = (known y.request_id ∙ here, All-known s l ys known h)

gather-take :
    (l : Logger) (left i places : ℕ) (t : List Event)
    → length t ≡ left
    → ((j : ℕ) → j < left → get_elem? l.order (slot l (i + j)) ≡ get_elem? (ids t) j)
    → All (λ y. Dict.get y.request_id l.by_id ≡ some y) t
    → gather l left i places ≡ take places t
unfolding gather
gather-take l zero i zero [] n h all = refl
gather-take l zero i (suc places) [] n h all = refl
gather-take l zero i places (x ∷ t) n h all = ground (arith, n)
gather-take l (suc left) i places [] n h all = ground (arith, n)
gather-take l (suc left) i zero (x ∷ t) n h all = refl
gather-take l (suc left) i (suc places) (x ∷ t) n h (here, all) =
    let zeroth : i + 0 ≡ i = omega arith in
    let first : get_elem? l.order (slot l i) ≡ some x.request_id =
      rw zeroth at (h 0 (omega arith)) in
    let shift : (j : ℕ) → i + suc j ≡ i + 1 + j = λ j. omega arith in
    let later : (j : ℕ) → j < left → get_elem? l.order (slot l (i + 1 + j)) ≡ get_elem? (ids t) j =
      λ j lt. rw (shift j) at (h (suc j) (omega (arith, lt))) in
    let fewer : suc places - 1 ≡ places = omega arith in
    let some_places : (suc places == 0) ≡ false = ground arith in
    rw
      (
        first,
        here,
        some_places,
        fewer,
        gather-take l left (i + 1) places t (omega (arith, n)) later all,
      )
      refl

recent-take :
    (limit : ℕ) (s : List Event) (l : Logger)
    → Holds s l
    → recent limit l ≡ take (if limit == 0 then 50 else limit) s
unfolding recent
recent-take limit s l h =
    gather-take l l.len 0 (if limit == 0 then 50 else limit) s (sym h.count)
      (λ j lt. let plus : 0 + j ≡ j = omega arith in rw plus (h.slots j lt))
      (All-known s l s h.known (found s h.unique))

-- Events are recorded one after the other, each at its instant.
unfoldable pub record_all : List (Instant × Event) → Logger → Logger
record_all [] l = l
record_all ((now, e) ∷ es) l = record_all es (record_event now e l)

unfoldable pub list_all : ℕ → List (Instant × Event) → List Event → List Event
list_all places [] s = s
list_all places ((now, e) ∷ es) s = list_all places es (record_on places now e s)

record_all-Holds :
    (es : List (Instant × Event)) (s : List Event) (l : Logger) (places : ℕ)
    → l.max_hot ≡ places
    → Holds s l
    → Holds (list_all places es s) (record_all es l)
unfolding record_all list_all
record_all-Holds [] s l places m h = h
record_all-Holds ((now, e) ∷ es) s l places m h =
    let next : Holds (record_on places now e s) (record_event now e l) =
      subst (λ c. Holds (record_on c now e s) (record_event now e l)) m
        (record_event-Holds now e s l h) in
    record_all-Holds es (record_on places now e s) (record_event now e l) places
      (max_hot-record_event now e l ∙ m) next

-- After any events on a new logger, Recent shows the newest of them, newest first and up to the
-- limit, and GetByID finds an event exactly if it is among those that are kept: a new identifier
-- goes to the front and, beyond the capacity, the oldest one is dropped; a known one keeps its place
-- and its event is replaced, unless that belongs to another client.
pub recent-newest :
    (capacity limit : ℕ) (es : List (Instant × Event)) (id : Bytes)
    → (recent limit (record_all es (new capacity))
        ≡ take (if limit == 0 then 50 else limit) (list_all (capacity_of capacity) es []))
      × (get_by_id id (record_all es (new capacity))
          ≡ (if str_eq id [] then none else find id (list_all (capacity_of capacity) es [])))
unfolding get_by_id
recent-newest capacity limit es id =
    let h =
      record_all-Holds es [] (new capacity) (capacity_of capacity) (unfold new in refl)
        (Holds-new capacity) in
    (
      recent-take limit (list_all (capacity_of capacity) es []) (record_all es (new capacity)) h,
      rw (h.known id) refl,
    )
