-- ===== src/RequestLog/Newest.antt =====
-- What the hot index is to show, as a list of events, the newest first.
use ravenguard.Common.{
  ℕ, zero, suc, ◌≡◌, refl, Option, none, some, List, [], ◌∷◌, ◌==◌, if◌then◌else◌, Bytes, str_eq,
  str_eq_iff, Instant, length, get_elem?, take, arith, Bool-cases, inl, inr, sym, ap, ◌∙◌,
}
use ravenguard.RequestLog.{Event, conflicts}

unfoldable pub find : Bytes → List Event → Option Event
unfolding str_eq
find k [] = none
find k (e ∷ s) = if str_eq e.request_id k then some e else find k s

-- The event with the identifier of another takes its place.
unfoldable pub renew : Event → List Event → List Event
renew e [] = []
renew e (x ∷ s) = (if str_eq x.request_id e.request_id then e else x) ∷ renew e s

abbrev pub ids : List Event → List Bytes
ids [] = []
ids (e ∷ s) = e.request_id ∷ ids s

abbrev pub admitted : ℕ → Event → List Event → Option Event → List Event
admitted room e s none = take room (e ∷ s)
admitted room e s (some prev) = if conflicts prev e then s else renew e s

abbrev pub stamped : Instant → Event → Event
stamped now e = record e { created_at = if e.created_at == 0 then now else e.created_at }

-- Record on the list: a new identifier goes to the front, and what does not fit is dropped.
unfoldable pub record_on : ℕ → Instant → Event → List Event → List Event
unfolding find renew
record_on room now e s =
    if str_eq e.request_id [] then s else admitted room (stamped now e) s (find e.request_id s)

-- No two events have one identifier.
abbrev pub Unique : List Event → Type 0
Unique [] = Unit
Unique (e ∷ s) = (find e.request_id s ≡ none) × Unique s

abbrev renewed : Event → Option Event → Option Event
renewed e none = none
renewed e (some x) = some e

pub find-renew :
    (e : Event) (s : List Event) (k : Bytes)
    → find k (renew e s) ≡ (if str_eq e.request_id k then renewed e (find k s) else find k s)
unfolding find renew
find-renew e [] k = ground arith
find-renew e (x ∷ s) k = ground (
  arith,
  find-renew e s k,
  str_eq_iff x.request_id e.request_id,
  str_eq_iff x.request_id k,
  str_eq_iff e.request_id k,
)

pub ids-renew : (e : Event) (s : List Event) → ids (renew e s) ≡ ids s
unfolding renew
ids-renew e [] = refl
ids-renew e (x ∷ s) = elim (Bool-cases (str_eq x.request_id e.request_id)) [
  | inl p ↦
      let same : x.request_id ≡ e.request_id = (str_eq_iff x.request_id e.request_id).0 p in
      rw (p, ids-renew e s, same) refl
  | inr p ↦ rw (p, ids-renew e s) refl
]

pub length-ids : (s : List Event) → length (ids s) ≡ length s
length-ids [] = refl
length-ids (e ∷ s) = ap suc (length-ids s)

find-none-renew :
    (e : Event) (s : List Event) (k : Bytes) → find k s ≡ none → find k (renew e s) ≡ none
find-none-renew e s k h = rw (find-renew e s k, h) (ground arith)

pub renew-Unique : (e : Event) (s : List Event) → Unique s → Unique (renew e s)
unfolding renew
renew-Unique e [] h = tt
renew-Unique e (x ∷ s) (here, h) = elim (Bool-cases (str_eq x.request_id e.request_id)) [
  | inl p ↦
      let same : x.request_id ≡ e.request_id = (str_eq_iff x.request_id e.request_id).0 p in
      rw p (find-none-renew e s e.request_id (rw same at here), renew-Unique e s h)
  | inr p ↦ rw p (find-none-renew e s x.request_id here, renew-Unique e s h)
]

find-ids : (s : List Event) (i : ℕ) (k : Bytes) → get_elem? (ids s) i ≡ some k → find k s ≡ none → ⊥
unfolding find
find-ids [] i k e h = ground (arith, e)
find-ids (x ∷ s) zero k e h =
    let same : x.request_id ≡ k = ground (arith, e) in
    ground (arith, h, (str_eq_iff x.request_id k).1 same)
find-ids (x ∷ s) (suc i) k e h = find-ids s i k e (ground (arith, h))

-- A list of unique events without its last one.
pub find-take :
    (s : List Event) (n : ℕ) (old k : Bytes)
    → length s ≡ suc n
    → Unique s
    → get_elem? (ids s) n ≡ some old
    → find k (take n s) ≡ (if str_eq old k then none else find k s)
unfolding find
find-take [] n old k size u e = ground (arith, size)
find-take (x ∷ []) zero old k size u e = ground (arith, e)
find-take (x ∷ y ∷ s) zero old k size u e = ground (arith, size)
find-take (x ∷ []) (suc n) old k size u e = ground (arith, size)
find-take (x ∷ y ∷ s) (suc n) old k size (here, u) e =
    let later = find-take (y ∷ s) n old k (ground (arith, size)) u e in
    elim (Bool-cases (str_eq old k)) [
      | inl p ↦ elim (Bool-cases (str_eq x.request_id k)) [
        | inl q ↦
            let one : old ≡ x.request_id =
              (str_eq_iff old k).0 p ∙ sym ((str_eq_iff x.request_id k).0 q) in
            absurd (find-ids (y ∷ s) n x.request_id (e ∙ ap some one) here)
        | inr q ↦ rw (p, q) (rw p at later)
      ]
      | inr p ↦ rw (p, rw p at later) refl
    ]

pub find-none-take :
    (s : List Event) (n : ℕ) (k : Bytes) → find k s ≡ none → find k (take n s) ≡ none
unfolding find
find-none-take s zero k h = refl
find-none-take [] (suc n) k h = refl
find-none-take (x ∷ s) (suc n) k h = elim (Bool-cases (str_eq x.request_id k)) [
  | inl q ↦ ground (arith, h, q)
  | inr q ↦ let rest : find k s ≡ none = ground (arith, h, q) in rw q (find-none-take s n k rest)
]

pub take-Unique : (s : List Event) (n : ℕ) → Unique s → Unique (take n s)
take-Unique s zero u = tt
take-Unique [] (suc n) u = tt
take-Unique (x ∷ s) (suc n) (here, u) = (find-none-take s n x.request_id here, take-Unique s n u)
