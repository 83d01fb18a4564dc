-- ===== src/Logging/Newest.antt =====
-- The ring shows the newest entries.
use native.Mathlib.Nat.{mod-eq_of_lt, mod_self}
use ravenguard.Common.{
  ◌⊎◌, ◌≢◌, ℕ, zero, suc, ◌+◌, ◌%◌, ◌≤◌, ◌<◌, ◌≡◌, refl, some, List, [], ◌∷◌, arith, leb, ◌==◌,
  if◌then◌else◌, Bytes, get_elem?, length, length-set, length-replicate, get_elem?-set_self,
  get_elem?-set_ne, Bool-cases, inl, inr, sym, ◌∙◌,
}
use ravenguard.Logging.{
  LogEntry, Ring, new_ring, parse_level, record_entry, count, index, choose, collect, snapshot,
  zero_entry,
}

-- The entries are recorded one after the other.
unfoldable pub record_all : List LogEntry → Ring → Ring
record_all [] r = r
record_all (e ∷ es) r = record_all es (record_entry e r)

-- The first n elements.
abbrev pub take : ℕ → List LogEntry → List LogEntry
take zero es = []
take (suc n) [] = []
take (suc n) (e ∷ es) = e ∷ take n es

-- The entries of a list from a level on, as far as a limit other than 0 lets them.
unfoldable pub pick : ℕ → ℕ → ℕ → List LogEntry → List LogEntry
pick limit minimum taken [] = []
pick limit minimum taken (e ∷ es) =
    choose limit minimum taken e (pick limit minimum taken es) (pick limit minimum (taken + 1) es)

-- The entries of a list are recorded after those of `h`, the newest first.
abbrev pub onto : List LogEntry → List LogEntry → List LogEntry
onto [] h = h
onto (e ∷ es) h = onto es (e ∷ h)

-- A ring that has recorded `h`, the newest first.
record Holds (h : List LogEntry) (r : Ring) : Type 0 where
  size : length r.buf ≡ r.cap
  inside : r.next < r.cap
  known : count r ≤ length h
  most : (count r ≡ length h) ⊎ (count r ≡ r.cap)
  slots : (i : ℕ) → i < count r → get_elem? r.buf (index r i) ≡ get_elem? h i

-- The next slot, without the remainder.
next_slot : (n cap : ℕ) → n < cap → (n + 1) % cap ≡ (if n + 1 == cap then 0 else n + 1)
next_slot n cap h = elim (Bool-cases (n + 1 == cap)) [
  | inl p ↦ let same : n + 1 ≡ cap = ground (arith, p) in rw (p, same) (mod_self cap)
  | inr p ↦ let below : n + 1 < cap = ground (arith, p, h) in rw p (mod-eq_of_lt below)
]

newest_slot : (e : LogEntry) (r : Ring) → r.next < r.cap → index (record_entry e r) 0 ≡ r.next
unfolding record_entry
newest_slot e r h = rw (next_slot r.next r.cap h) (ground (arith, h))

older_slot :
    (e : LogEntry) (r : Ring) (k : ℕ)
    → r.next < r.cap
    → suc k < count (record_entry e r)
    → (index (record_entry e r) (suc k) ≡ index r k) × (index r k ≢ r.next) × (k < count r)
unfolding record_entry
older_slot e r k h lt =
    let slot = next_slot r.next r.cap h in
    let lt' = rw slot at lt in
    (rw slot (ground (arith, h, lt')), ground (arith, h, lt'), ground (arith, h, lt'))

recorded_slot :
    (e : LogEntry) (h : List LogEntry) (r : Ring)
    → Holds h r
    → (i : ℕ) → i < count (record_entry e r)
    → get_elem? (record_entry e r).buf (index (record_entry e r) i) ≡ get_elem? (e ∷ h) i
unfolding record_entry
recorded_slot e h r s zero lt =
    rw (newest_slot e r s.inside) (get_elem?-set_self r.buf r.next e (rw s.size s.inside))
recorded_slot e h r s (suc k) lt =
    let (same, other, fits) = older_slot e r k s.inside lt in
    rw same (get_elem?-set_ne r.buf r.next (index r k) e (λ q. other (sym q)) ∙ s.slots k fits)

record_entry-Holds :
    (e : LogEntry) (h : List LogEntry) (r : Ring) → Holds h r → Holds (e ∷ h) (record_entry e r)
unfolding record_entry
record_entry-Holds e h r s =
    let slot = next_slot r.next r.cap s.inside in
    record {
      size = rw (length-set r.buf r.next e) s.size;
      inside = rw slot (ground (arith, s.inside));
      known = rw slot (ground (arith, s.inside, s.known, s.most));
      most = rw slot (ground (arith, s.inside, s.known, s.most));
      slots = λ i lt. recorded_slot e h r s i lt;
    }

collect-pick :
    (limit minimum : ℕ) (r : Ring) (left i taken : ℕ) (l : List LogEntry)
    → length l ≡ left
    → ((j : ℕ) → j < left → get_elem? r.buf (index r (i + j)) ≡ get_elem? l j)
    → collect limit minimum r left i taken ≡ pick limit minimum taken l
unfolding collect pick
collect-pick limit minimum r zero i taken [] n h = refl
collect-pick limit minimum r zero i taken (e ∷ l) n h = ground (arith, n)
collect-pick limit minimum r (suc left) i taken [] n h = ground (arith, n)
collect-pick limit minimum r (suc left) i taken (e ∷ l) n h =
    let here : i + 0 ≡ i = omega arith in
    let first : get_elem? r.buf (index r i) ≡ some e = rw here at (h 0 (omega arith)) in
    let shift : (j : ℕ) → i + suc j ≡ i + 1 + j = λ j. omega arith in
    let later : (j : ℕ) → j < left → get_elem? r.buf (index r (i + 1 + j)) ≡ get_elem? l j =
      λ j lt. rw (shift j) at (h (suc j) (omega (arith, lt))) in
    let length_l : length l ≡ left = omega (arith, n) in
    rw (
      first,
      collect-pick limit minimum r left (i + 1) taken l length_l later,
      collect-pick limit minimum r left (i + 1) (taken + 1) l length_l later,
    )

Holds-new : (capacity : ℕ) → Holds [] (new_ring capacity)
unfolding new_ring
Holds-new capacity = record {
  size = length-replicate _ zero_entry;
  inside = ground arith;
  known = omega arith;
  most = inl refl;
  slots = λ i lt. ground (arith, lt);
}

record_all-Holds :
    (es h : List LogEntry) (r : Ring)
    → Holds h r
    → Holds (onto es h) (record_all es r) × ((record_all es r).cap ≡ r.cap)
unfolding record_all
record_all-Holds [] h r s = (s, refl)
record_all-Holds (e ∷ es) h r s =
    let (held, same) =
      record_all-Holds es (e ∷ h) (record_entry e r) (record_entry-Holds e h r s) in
    (held, same ∙ (unfold record_entry in refl))

length-take :
    (n : ℕ) (h : List LogEntry) → length (take n h) ≡ (if leb n (length h) then n else length h)
length-take zero h = ground arith
length-take (suc n) [] = ground arith
length-take (suc n) (e ∷ h) = ground (arith, length-take n h)

get_elem?-take :
    (n : ℕ) (h : List LogEntry) (i : ℕ) → i < n → get_elem? (take n h) i ≡ get_elem? h i
get_elem?-take zero h i lt = elim lt [ ]
get_elem?-take (suc n) [] i lt = refl
get_elem?-take (suc n) (e ∷ h) zero lt = refl
get_elem?-take (suc n) (e ∷ h) (suc i) lt = get_elem?-take n h i (omega (arith, lt))

-- The entries of a level or above.
abbrev pub at_level : ℕ → List LogEntry → List LogEntry
at_level minimum [] = []
at_level minimum (e ∷ es) =
    let rest = at_level minimum es in if leb minimum (parse_level e.level) then e ∷ rest else rest

abbrev pub limited : ℕ → List LogEntry → List LogEntry
limited zero es = es
limited (suc limit) es = take (suc limit) es

pick_all : (minimum taken : ℕ) (es : List LogEntry) → pick 0 minimum taken es ≡ at_level minimum es
unfolding pick
pick_all minimum taken [] = refl
pick_all minimum taken (e ∷ es) =
    ground (arith, pick_all minimum taken es, pick_all minimum (taken + 1) es)

pick_some :
    (minimum taken left : ℕ) (es : List LogEntry)
    → pick (taken + suc left) minimum taken es ≡ take (suc left) (at_level minimum es)
unfolding pick
pick_some minimum taken left [] = refl
pick_some minimum taken zero (e ∷ es) = ground (arith, pick_some minimum taken zero es)
pick_some minimum taken (suc left) (e ∷ es) =
    let next : taken + 1 + suc left ≡ taken + suc (suc left) = omega arith in
    let rest = rw next at (pick_some minimum (taken + 1) left es) in
    ground (arith, pick_some minimum taken (suc left) es, rest)

pick-limited :
    (limit minimum : ℕ) (es : List LogEntry)
    → pick limit minimum 0 es ≡ limited limit (at_level minimum es)
pick-limited zero minimum es = pick_all minimum 0 es
pick-limited (suc left) minimum es =
    let whole : 0 + suc left ≡ suc left = omega arith in rw whole at (pick_some minimum 0 left es)

Holds-collect :
    (limit minimum : ℕ) (h : List LogEntry) (r : Ring)
    → Holds h r
    → collect limit minimum r (count r) 0 0 ≡ pick limit minimum 0 (take r.cap h)
Holds-collect limit minimum h r s =
    let size : length (take r.cap h) ≡ count r =
      ground (arith, length-take r.cap h, s.known, s.most, s.inside) in
    let below : count r ≤ r.cap = ground (arith, s.inside) in
    let start : (j : ℕ) → 0 + j ≡ j = λ j. omega arith in
    collect-pick limit minimum r (count r) 0 0 (take r.cap h) size
      (λ j lt. rw (start j, get_elem?-take r.cap h j (omega (arith, lt, below))) (s.slots j lt))

-- Whatever entries a new ring has recorded, Snapshot shows the newest ones that fit into it, the
-- newest first, of the asked level or above, and as many of them as the limit lets, all if it is 0.
pub snapshot-newest :
    (es : List LogEntry) (capacity limit : ℕ) (min_level : Bytes)
    → snapshot limit min_level (record_all es (new_ring capacity))
      ≡ limited limit (at_level (parse_level min_level) (take (new_ring capacity).cap (onto es [])))
unfolding snapshot
snapshot-newest es capacity limit min_level =
    let (held, same) = record_all-Holds es [] (new_ring capacity) (Holds-new capacity) in
    let ring = record_all es (new_ring capacity) in
    rw (Holds-collect limit (parse_level min_level) (onto es []) ring held, same)
      (pick-limited limit (parse_level min_level) _)
