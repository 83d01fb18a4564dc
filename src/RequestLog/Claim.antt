-- ===== src/RequestLog/Claim.antt =====
-- A new identifier takes a slot of the ring.
use native.Mathlib.Nat.{mod-lt}
use ravenguard.Common.{
  ℕ, zero, suc, ◌+◌, ◌-◌, ◌%◌, ◌<◌, ◌≤◌, ◌≡◌, ◌≢◌, refl, true, false, none, some, List, [], ◌∷◌,
  ltb, leb, if◌then◌else◌, Bytes, length, get_elem?, set, take, arith, Bool-cases, inl, inr, sym,
  ap, ◌∙◌, length-set, get_elem?-set_self, get_elem?-set_ne,
}
use ravenguard.Common.Dict
use ravenguard.Common.Dict.{get-put, get-delete}
use ravenguard.RequestLog.{Event, Logger, claim, store, or_empty}
use ravenguard.RequestLog.Newest.{find, ids, length-ids, find-take, find-none-take, take-Unique}
use ravenguard.RequestLog.Index.{Holds, wrap}

-- The slots of the ring, by the place of the oldest entry and the number of entries.
abbrev place : ℕ → ℕ → ℕ → ℕ → ℕ
place head len cap i = (head + len - 1 - i) % cap

place-wrap :
    (head len cap i : ℕ)
    → head < cap
    → len ≤ cap
    → i < len
    → place head len cap i
      ≡ (if ltb (head + len - 1 - i) cap then head + len - 1 - i else head + len - 1 - i - cap)
place-wrap head len cap i h m lt = wrap (head + len - 1 - i) cap (omega (arith, h, m, lt))

grown_first : (head len cap : ℕ) → place head (len + 1) cap 0 ≡ (head + len) % cap
grown_first head len cap =
    let same : head + (len + 1) - 1 - 0 ≡ head + len = omega arith in rw same refl

grown_later : (head len cap k : ℕ) → place head (len + 1) cap (suc k) ≡ place head len cap k
grown_later head len cap k =
    let same : head + (len + 1) - 1 - suc k ≡ head + len - 1 - k = omega arith in rw same refl

grown_other :
    (head len cap k : ℕ)
    → head < cap
    → len < cap
    → k < len
    → (head + len) % cap ≢ place head len cap k
grown_other head len cap k h m lt e =
    let new = wrap (head + len) cap (omega (arith, h, m)) in
    let old = place-wrap head len cap k h (omega (arith, m)) lt in
    ground (arith, e, new, old, h, m, lt)

turned :
    (head cap : ℕ)
    → head < cap
    → (head + 1) % cap ≡ (if ltb (head + 1) cap then head + 1 else head + 1 - cap)
turned head cap h = wrap (head + 1) cap (omega (arith, h))

turned_first : (head cap : ℕ) → head < cap → place ((head + 1) % cap) cap cap 0 ≡ head
turned_first head cap h =
    let t = turned head cap h in
    let inside : (head + 1) % cap < cap = ground (arith, t, h) in
    let p = place-wrap ((head + 1) % cap) cap cap 0 inside (omega arith) (omega (arith, h)) in
    ground (arith, t, p, h)

turned_later :
    (head cap k : ℕ)
    → head < cap
    → suc k < cap
    → place ((head + 1) % cap) cap cap (suc k) ≡ place head cap cap k
turned_later head cap k h lt =
    let t = turned head cap h in
    let inside : (head + 1) % cap < cap = ground (arith, t, h) in
    let p = place-wrap ((head + 1) % cap) cap cap (suc k) inside (omega arith) lt in
    let q = place-wrap head cap cap k h (omega arith) (omega (arith, lt)) in
    ground (arith, t, p, q, h, lt)

turned_other : (head cap k : ℕ) → head < cap → suc k < cap → head ≢ place head cap cap k
turned_other head cap k h lt e =
    let q = place-wrap head cap cap k h (omega arith) (omega (arith, lt)) in
    ground (arith, e, q, h, lt)

oldest_place : (head cap : ℕ) → head < cap → place head cap cap (cap - 1) ≡ head
oldest_place head cap h =
    let q = place-wrap head cap cap (cap - 1) h (omega arith) (omega (arith, h)) in
    ground (arith, q, h)

take_all : (n : ℕ) (s : List Event) → length s ≤ n → take n s ≡ s
take_all zero [] h = refl
take_all zero (x ∷ s) h = ground (arith, h)
take_all (suc n) [] h = refl
take_all (suc n) (x ∷ s) h = ap (λ t. x ∷ t) (take_all n s (omega (arith, h)))

pub take_front : (n : ℕ) (e : Event) (s : List Event) → 0 < n → take n (e ∷ s) ≡ e ∷ take (n - 1) s
take_front zero e s h = ground (arith, h)
take_front (suc n) e s h = let same : suc n - 1 ≡ n = omega arith in rw same refl

length-take : (n : ℕ) (s : List Event) → n ≤ length s → length (take n s) ≡ n
length-take zero s h = refl
length-take (suc n) [] h = ground (arith, h)
length-take (suc n) (x ∷ s) h = ap suc (length-take n s (omega (arith, h)))

get_elem?-take :
    (n k : ℕ) (s : List Event) → k < n → get_elem? (ids (take n s)) k ≡ get_elem? (ids s) k
get_elem?-take zero k s h = ground (arith, h)
get_elem?-take (suc n) k [] h = refl
get_elem?-take (suc n) zero (x ∷ s) h = refl
get_elem?-take (suc n) (suc k) (x ∷ s) h = get_elem?-take n k s (omega (arith, h))

get_some : (xs : List Bytes) (i : ℕ) → i < length xs → (x : Bytes) × (get_elem? xs i ≡ some x)
get_some [] i h = ground (arith, h)
get_some (x ∷ xs) zero h = (x, refl)
get_some (x ∷ xs) (suc i) h = get_some xs i (omega (arith, h))

module _ (e : Event) (s : List Event) (l : Logger) (h : Holds s l)
    (new : find e.request_id s ≡ none) where
  grown_slots :
      l.len < l.max_hot
      → (i : ℕ) → i < l.len + 1
      → get_elem?
          (set l.order ((l.head + l.len) % l.max_hot) e.request_id)
          (place l.head (l.len + 1) l.max_hot i)
        ≡ get_elem? (ids (e ∷ s)) i
  grown_slots room zero lt =
      let inside : (l.head + l.len) % l.max_hot < length l.order =
        rw h.size (mod-lt (l.head + l.len) (omega (arith, room))) in
      rw (grown_first l.head l.len l.max_hot)
        (get_elem?-set_self l.order ((l.head + l.len) % l.max_hot) e.request_id inside)
  grown_slots room (suc k) lt =
      let below : k < l.len = omega (arith, lt) in
      rw (grown_later l.head l.len l.max_hot k) (
        get_elem?-set_ne l.order ((l.head + l.len) % l.max_hot) (place l.head l.len l.max_hot k)
          e.request_id (grown_other l.head l.len l.max_hot k h.inside room below)
        ∙ h.slots k below)

  -- There is room: the list grows.
  grown : l.len < l.max_hot → Holds (e ∷ s) (store e (claim e.request_id l))
  unfolding claim find
  grown room =
      let free : leb l.max_hot l.len ≡ false = ground (arith, room) in
      rw free (record {
        size = length-set l.order ((l.head + l.len) % l.max_hot) e.request_id ∙ h.size;
        inside = h.inside;
        count = omega (arith, h.count);
        most = omega (arith, room);
        slots = grown_slots room;
        known = λ k. rw (get-put e.request_id k e l.by_id, h.known k) refl;
        unique = (new, h.unique);
      })

  turned_slots :
      l.len ≡ l.max_hot
      → (i : ℕ) → i < l.len
      → get_elem?
          (set l.order l.head e.request_id)
          (place ((l.head + 1) % l.max_hot) l.len l.max_hot i)
        ≡ get_elem? (ids (e ∷ take (l.max_hot - 1) s)) i
  turned_slots full zero lt =
      rw (full, turned_first l.head l.max_hot h.inside)
        (get_elem?-set_self l.order l.head e.request_id (rw h.size h.inside))
  turned_slots full (suc k) lt =
      let below : suc k < l.max_hot = omega (arith, lt, full) in
      let old : get_elem? l.order (place l.head l.max_hot l.max_hot k) ≡ get_elem? (ids s) k =
        rw full at (h.slots k (omega (arith, lt))) in
      rw (full, turned_later l.head l.max_hot k h.inside below)
        (get_elem?-set_ne l.order l.head (place l.head l.max_hot l.max_hot k) e.request_id
            (turned_other l.head l.max_hot k h.inside below)
          ∙ old
          ∙ sym (get_elem?-take (l.max_hot - 1) k s (omega (arith, below))))

  -- The oldest identifier stands where the ring begins.
  oldest :
      l.len ≡ l.max_hot
      → (old : Bytes) × (get_elem? l.order l.head ≡ some old)
        × (get_elem? (ids s) (l.max_hot - 1) ≡ some old)
  oldest full =
      let low : l.max_hot - 1 < length (ids s) =
        rw (length-ids s) (omega (arith, h.inside, h.count, full)) in
      let (old, there) = get_some (ids s) (l.max_hot - 1) low in
      let slot_of : get_elem? l.order (place l.head l.len l.max_hot (l.max_hot - 1))
          ≡ get_elem? (ids s) (l.max_hot - 1) =
        h.slots (l.max_hot - 1) (omega (arith, h.inside, full)) in
      let here : get_elem? l.order (place l.head l.max_hot l.max_hot (l.max_hot - 1))
          ≡ get_elem? (ids s) (l.max_hot - 1) =
        rw full at slot_of in
      (
        old,
        ap (get_elem? l.order) (sym (oldest_place l.head l.max_hot h.inside)) ∙ here ∙ there,
        there,
      )

  turned_known :
      l.len ≡ l.max_hot
      → (k : Bytes)
      → Dict.get k
          (Dict.put e.request_id e (Dict.delete (or_empty (get_elem? l.order l.head)) l.by_id))
        ≡ find k (e ∷ take (l.max_hot - 1) s)
  unfolding find
  turned_known full k =
      let (old, here, there) = oldest full in
      let size : length s ≡ suc (l.max_hot - 1) = omega (arith, h.inside, h.count, full) in
      rw
        (
          here,
          get-put e.request_id k e (Dict.delete old l.by_id),
          get-delete old k l.by_id,
          h.known k,
          find-take s (l.max_hot - 1) old k size h.unique there,
        )
        refl

  -- The ring is full: the oldest event is dropped.
  turned_over :
      l.len ≡ l.max_hot → Holds (e ∷ take (l.max_hot - 1) s) (store e (claim e.request_id l))
  unfolding claim
  turned_over full =
      let none_left : leb l.max_hot l.len ≡ true = ground (arith, full) in
      let fits : l.max_hot - 1 ≤ length s = omega (arith, h.count, full) in
      let size = length-take (l.max_hot - 1) s fits in
      rw none_left (record {
        size = length-set l.order l.head e.request_id ∙ h.size;
        inside = mod-lt (l.head + 1) (omega (arith, h.inside));
        count = omega (arith, size, full, h.inside);
        most = h.most;
        slots = turned_slots full;
        known = turned_known full;
        unique = (
          find-none-take s (l.max_hot - 1) e.request_id new,
          take-Unique s (l.max_hot - 1) h.unique,
        );
      })

  pub claim-Holds : Holds (take l.max_hot (e ∷ s)) (store e (claim e.request_id l))
  claim-Holds = elim (Bool-cases (ltb l.len l.max_hot)) [
    | inl p ↦
        let room : l.len < l.max_hot = ground (arith, p) in
        rw (take_all l.max_hot (e ∷ s) (omega (arith, h.count, room))) (grown room)
    | inr p ↦
        let full : l.len ≡ l.max_hot = ground (arith, p, h.most) in
        rw (take_front l.max_hot e s (omega (arith, h.inside))) (turned_over full)
  ]
