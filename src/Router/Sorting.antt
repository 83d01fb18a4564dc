-- ===== src/Router/Sorting.antt =====
-- The exchange sort of Replace sorts.
use mathlib.Core.List.{Perm}
use mathlib.Core.List.Perm
use ravenguard.Common.{
  ℕ, zero, suc, ◌≤◌, ◌≡◌, refl, true, false, List, [], ◌∷◌, arith, if◌then◌else◌, length, All,
  Bool-cases, inl, inr, ap,
}
use ravenguard.Router.{Compiled, precedes, exchange, exchange_sort}

-- No entry goes before one that stands in front of it.
abbrev pub IsSorted : List Compiled → Type 0
IsSorted [] = Unit
IsSorted (a ∷ cs) = All (λ c. precedes c a ≡ false) cs × IsSorted cs

precedes_asym : (a b : Compiled) → precedes b a ≡ true → precedes a b ≡ false
unfolding precedes
precedes_asym a b h = ground (arith, h)

precedes_trans :
    (a b c : Compiled) → precedes a b ≡ false → precedes b c ≡ false → precedes a c ≡ false
unfolding precedes
precedes_trans a b c h k = ground (arith, h, k)

pub precedes_refl : (a : Compiled) → precedes a a ≡ false
unfolding precedes
precedes_refl a = ground arith

-- The front after an exchange.
record IsFront (a front : Compiled) (rest : List Compiled) : Type 0 where
  past : precedes a front ≡ false
  first : All (λ c. precedes c front ≡ false) rest

exchange-IsFront :
    (a : Compiled) (cs : List Compiled) → IsFront a (exchange a cs).0 (exchange a cs).1
unfolding exchange
exchange-IsFront a [] = record { past = precedes_refl a; first = tt }
exchange-IsFront a (b ∷ cs) = elim (Bool-cases (precedes b a)) [
  | inl p ↦
      let ih = exchange-IsFront b cs in
      let past = precedes_trans a b (exchange b cs).0 (precedes_asym a b p) ih.past in
      rw p (record { past = past; first = (past, ih.first) })
  | inr p ↦
      let ih = exchange-IsFront a cs in
      let past = precedes_trans b a (exchange a cs).0 p ih.past in
      rw p (record { past = ih.past; first = (past, ih.first) })
]

exchange-perm :
    (a : Compiled) (cs : List Compiled) → Perm ((exchange a cs).0 ∷ (exchange a cs).1) (a ∷ cs)
unfolding exchange
exchange-perm a [] = Perm.refl _
exchange-perm a (b ∷ cs) = elim (Bool-cases (precedes b a)) [
  | inl p ↦ rw p (Perm.trans (Perm.swap a _ _) (Perm.cons a (exchange-perm b cs)))
  | inr p ↦ rw p (
      Perm.trans (Perm.trans (Perm.swap b _ _) (Perm.cons b (exchange-perm a cs)))
        (Perm.swap a b cs))
]

length-exchange : (a : Compiled) (cs : List Compiled) → length (exchange a cs).1 ≡ length cs
unfolding exchange
length-exchange a [] = refl
length-exchange a (b ∷ cs) = ap suc (length-exchange (if precedes b a then b else a) cs)

pub exchange_sort-perm : (rounds : ℕ) (cs : List Compiled) → Perm (exchange_sort rounds cs) cs
unfolding exchange_sort
exchange_sort-perm zero cs = Perm.refl cs
exchange_sort-perm (suc rounds) [] = Perm.refl []
exchange_sort-perm (suc rounds) (a ∷ cs) =
    Perm.trans (Perm.cons _ (exchange_sort-perm rounds (exchange a cs).1)) (exchange-perm a cs)

module _ (P : Compiled → Type 0) where
  All-exchange :
      (a : Compiled) (cs : List Compiled)
      → P a
      → All P cs
      → P (exchange a cs).0 × All P (exchange a cs).1
  unfolding exchange
  All-exchange a [] h hs = (h, tt)
  All-exchange a (b ∷ cs) h (k, hs) = elim (Bool-cases (precedes b a)) [
    | inl p ↦ let (front, rest) = All-exchange b cs k hs in rw p (front, (h, rest))
    | inr p ↦ let (front, rest) = All-exchange a cs h hs in rw p (front, (k, rest))
  ]

  All-exchange_sort : (rounds : ℕ) (cs : List Compiled) → All P cs → All P (exchange_sort rounds cs)
  unfolding exchange_sort
  All-exchange_sort zero cs h = h
  All-exchange_sort (suc rounds) [] h = tt
  All-exchange_sort (suc rounds) (a ∷ cs) (h, hs) =
      let (front, rest) = All-exchange a cs h hs in
      (front, All-exchange_sort rounds (exchange a cs).1 rest)

exchange_sort-rounds :
    (rounds : ℕ) (cs : List Compiled) → length cs ≤ rounds → IsSorted (exchange_sort rounds cs)
unfolding exchange_sort
exchange_sort-rounds zero [] h = tt
exchange_sort-rounds zero (a ∷ cs) h = elim h [ ]
exchange_sort-rounds (suc rounds) [] h = tt
exchange_sort-rounds (suc rounds) (a ∷ cs) h =
    let front = exchange-IsFront a cs in
    let fits : length (exchange a cs).1 ≤ rounds = omega (arith, length-exchange a cs) in
    (
      All-exchange_sort (λ c. precedes c (exchange a cs).0 ≡ false) rounds (exchange a cs).1
          front.first,
      exchange_sort-rounds rounds (exchange a cs).1 fits,
    )

-- The exchange sort of as many rounds as there are entries reorders the entries so that none goes
-- before one in front of it: by priority first, by the length of the prefix next.
pub exchange_sort-IsSorted :
    (cs : List Compiled)
    → IsSorted (exchange_sort (length cs) cs) × Perm (exchange_sort (length cs) cs) cs
exchange_sort-IsSorted cs =
    (exchange_sort-rounds (length cs) cs (omega arith), exchange_sort-perm (length cs) cs)
