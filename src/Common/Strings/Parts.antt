-- ===== src/Common/Strings/Parts.antt =====
-- What Split does on a text joined by a mark, a dot or a bar, that its parts are free of.
use Prim.Native.Nat.{◌^◌}
use ravenguard.Common.{
  ℕ, suc, zero, ◌+◌, ◌/◌, ◌%◌, ◌≡◌, refl, false, [], ◌∷◌, ◌++◌, arith, ltb, leb, ◌==◌, Bytes, All,
  ◌||◌, true, Bool, ==_iff, Bool-cases, inl, inr, ◌-◌, ap, ◌≢◌, List,
}
use ravenguard.Common.Int64.{Int64}
use ravenguard.Common.Strings.{format_digits, format_int, split, hex, onto_first}

abbrev pub dot : ℕ
dot = b'.'

abbrev pub IsFree : ℕ → Bytes → Type 0
IsFree sep s = All (λ c. (c == sep) ≡ false) s

-- a, the mark, and the rest.
abbrev pub joined : ℕ → Bytes → Bytes → Bytes
joined sep a rest = a ++ sep ∷ rest

abbrev pub IsDotFree : Bytes → Type 0
IsDotFree s = IsFree dot s

abbrev pub dotted : Bytes → Bytes → Bytes
dotted a rest = joined dot a rest

-- A mark that neither a number nor a hexadecimal text has.
abbrev pub is_mark : ℕ → Bool
is_mark c = (c == dot) || (c == b'|')

onto_first-ne-nil : (c : ℕ) (ps : List Bytes) → onto_first c ps ≢ []
onto_first-ne-nil c [] e = cc
onto_first-ne-nil c (p ∷ ps) e = cc

onto_first-append :
    (c : ℕ) (ps qs : List Bytes) → ps ≢ [] → onto_first c (ps ++ qs) ≡ onto_first c ps ++ qs
onto_first-append c [] qs h = absurd (h refl)
onto_first-append c (p ∷ ps) qs h = refl

module _ (sep : ℕ) where
  pub split-joined :
      (a rest : Bytes) → IsFree sep a → split sep (joined sep a rest) ≡ a ∷ split sep rest
  unfolding split
  split-joined [] rest h = rw ((==_iff sep sep).1 refl)
  split-joined (c ∷ a) rest (here, h) = rw (here, split-joined a rest h)

  pub split-IsFree : (a : Bytes) → IsFree sep a → split sep a ≡ a ∷ []
  unfolding split
  split-IsFree [] h = refl
  split-IsFree (c ∷ a) (here, h) = rw (here, split-IsFree a h)

  onto_first-IsFree :
      (c : ℕ) (ps : List Bytes)
      → (c == sep) ≡ false
      → All (IsFree sep) ps
      → All (IsFree sep) (onto_first c ps)
  onto_first-IsFree c [] h ps = ((h, tt), tt)
  onto_first-IsFree c (p ∷ ps) h (free, rest) = ((h, free), rest)

  -- No part of a text has the mark.
  pub parts-IsFree : (s : Bytes) → All (IsFree sep) (split sep s)
  unfolding split
  parts-IsFree [] = (tt, tt)
  parts-IsFree (c ∷ s) = elim (Bool-cases (c == sep)) [
    | inl p ↦ rw p (tt, parts-IsFree s)
    | inr p ↦ rw p (onto_first-IsFree c (split sep s) p (parts-IsFree s))
  ]

  split-ne-nil : (a : Bytes) → split sep a ≢ []
  unfolding split
  split-ne-nil [] e = cc
  split-ne-nil (c ∷ a) e = elim (Bool-cases (c == sep)) [
    | inl p ↦ ground (arith, e, p)
    | inr p ↦ onto_first-ne-nil c (split sep a) (ground (arith, e, p))
  ]

  -- What stands behind the last mark of a text is its last part.
  pub split-append :
      (a rest : Bytes) → IsFree sep rest → split sep (joined sep a rest) ≡ split sep a ++ rest ∷ []
  unfolding split
  split-append [] rest h = rw ((==_iff sep sep).1 refl) (ap (λ t. [] ∷ t) (split-IsFree rest h))
  split-append (c ∷ a) rest h = elim (Bool-cases (c == sep)) [
    | inl p ↦ rw (p, split-append a rest h)
    | inr p ↦
        rw (p, split-append a rest h)
          (onto_first-append c (split sep a) (rest ∷ []) (split-ne-nil a))
  ]

  -- The first mark of a text tells where its first part ends.
  pub joined-injective :
      (a b r s : Bytes)
      → IsFree sep a
      → IsFree sep b
      → joined sep a r ≡ joined sep b s
      → (a ≡ b) × (r ≡ s)
  joined-injective [] [] r s ha hb e = (refl, cc)
  joined-injective [] (c ∷ b) r s ha (here, hb) e = ground (arith, e, here)
  joined-injective (c ∷ a) [] r s (here, ha) hb e = ground (arith, e, here)
  joined-injective (c ∷ a) (d ∷ b) r s (here, ha) (here', hb) e =
      let tails : joined sep a r ≡ joined sep b s = cc in
      let heads : c ≡ d = cc in let (p, q) = joined-injective a b r s ha hb tails in (cc, q)

  module _ (mark : is_mark sep ≡ true) where
    format_digits-IsFree :
        (fuel n : ℕ) (acc : Bytes) → IsFree sep acc → IsFree sep (format_digits fuel n acc)
    unfolding format_digits
    format_digits-IsFree zero n acc h = h
    format_digits-IsFree (suc fuel) n acc h =
        let rest =
          format_digits-IsFree fuel (n / 10) ((48 + n % 10) ∷ acc) (ground (arith, mark), h) in
        elim (Bool-cases (ltb n 10)) [ inl p ↦ rw p (ground (arith, mark), h) | inr p ↦ rw p rest ]

    pub format_int-IsFree : (n : Int64) → IsFree sep (format_int n)
    unfolding format_int
    format_int-IsFree n = elim (Bool-cases (leb (2 ^ 63) n)) [
      | inl p ↦ rw p (ground (arith, mark), format_digits-IsFree 20 (2 ^ 64 - n) [] tt)
      | inr p ↦ rw p (format_digits-IsFree 20 n [] tt)
    ]

    pub hex-IsFree : (s : Bytes) → IsFree sep (hex s)
    unfolding hex
    hex-IsFree [] = tt
    hex-IsFree (b ∷ s) = (ground (arith, mark), (ground (arith, mark), hex-IsFree s))
