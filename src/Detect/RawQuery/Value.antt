-- ===== src/Detect/RawQuery/Value.antt =====
-- What rawQueryValue finds.
use ravenguard.Common.{
  ℕ, zero, suc, ◌≡◌, refl, inl, inr, true, false, some, [], ◌∷◌, ◌++◌, ◌==◌, Bytes, length, drop,
  arith, Bool-cases, ==_iff, All, ap, sym, ◌∙◌, Option-cases,
}
use mathlib.Core.List.{append_assoc}
use ravenguard.Common.Ascii.{has_prefix}
use ravenguard.Detect.RawQuery.{prepend, find, before_amp, at_boundary, value_from, raw_query_value}

has_prefix-drop : (s t : Bytes) → has_prefix s t ≡ true → s ≡ t ++ drop (length t) s
unfolding has_prefix
has_prefix-drop s [] h = refl
has_prefix-drop [] (b ∷ t) h = ground (arith, h)
has_prefix-drop (a ∷ s) (b ∷ t) h =
    let rest : has_prefix s t ≡ true = ground (arith, h) in
    let same : a ≡ b = (==_iff a b).0 (ground (arith, h)) in
    rw (sym same, sym (has_prefix-drop s t rest)) refl

find-append : (sub s pre post : Bytes) → find sub s ≡ some (pre, post) → s ≡ pre ++ (sub ++ post)
unfolding find
find-append sub [] pre post e = ground (arith, e)
find-append sub (c ∷ s) pre post e = elim (Bool-cases (has_prefix (c ∷ s) sub)) [
  | inl q ↦
      let front : pre ≡ [] = ground (arith, e, q) in
      let back : post ≡ drop (length sub) (c ∷ s) = ground (arith, e, q) in
      rw (front, back) (has_prefix-drop (c ∷ s) sub q)
  | inr q ↦
      let later : prepend c (find sub s) ≡ some (pre, post) = rw q at e in
      elim (Option-cases (find sub s)) [
        | inl n ↦ ground (arith, n, later)
        | inr ((a, b), m) ↦
            let front : c ∷ a ≡ pre = ground (arith, later, m) in
            let back : b ≡ post = ground (arith, later, m) in
            rw (sym front, sym back) (ap (λ t. c ∷ t) (find-append sub s a b m))
      ]
]

-- The text from a key's '&' on.
abbrev pub IsRest : Bytes → Type 0
IsRest [] = Unit
IsRest (c ∷ s) = c ≡ b'&'

before_amp-append :
    (s : Bytes)
    → (rest : Bytes) × (s ≡ before_amp s ++ rest)
      × IsRest rest
      × All (λ c. (c == b'&') ≡ false) (before_amp s)
unfolding before_amp
before_amp-append [] = ([], refl, tt, tt)
before_amp-append (c ∷ s) =
    let (rest, e, r, f) = before_amp-append s in
    elim (Bool-cases (c == b'&')) [
      | inl q ↦ rw q (c ∷ s, refl, (==_iff c b'&').0 q, tt)
      | inr q ↦ rw q (rest, ap (λ t. c ∷ t) e, r, (q, f))
    ]

-- A value stands in a query after a key, holds no '&', and ends where the query does or at an '&'.
abbrev pub StandsIn : Bytes → Bytes → Bytes → Type 0
StandsIn prefix raw v =
    (pre : Bytes) × (rest : Bytes) × (raw ≡ pre ++ (prefix ++ (v ++ rest)))
    × IsRest rest
    × All (λ c. (c == b'&') ≡ false) v

StandsIn-later :
    (prefix a b v : Bytes) → StandsIn prefix b v → StandsIn prefix (a ++ (prefix ++ b)) v
StandsIn-later prefix a b v (pre, rest, e, r, f) = (
  a ++ (prefix ++ pre),
  rest,
  rw
      (
        e,
        append_assoc a (prefix ++ pre) (prefix ++ (v ++ rest)),
        append_assoc prefix pre (prefix ++ (v ++ rest)),
      )
      refl,
  r,
  f,
)

value_from-StandsIn :
    (fuel : ℕ) (prefix raw v : Bytes) → value_from fuel prefix raw ≡ some v → StandsIn prefix raw v
unfolding value_from
value_from-StandsIn zero prefix raw v e = ground (arith, e)
value_from-StandsIn (suc fuel) prefix raw v e = elim (Option-cases (find prefix raw)) [
  | inl n ↦ ground (arith, n, e)
  | inr ((a, b), m) ↦
      let whole = find-append prefix raw a b m in
      elim (Bool-cases (at_boundary a)) [
        | inl q ↦
            let (rest, parts, r, f) = before_amp-append b in
            let same : before_amp b ≡ v = ground (arith, e, m, q) in
            rw (sym same) (a, rest, whole ∙ ap (λ t. a ++ (prefix ++ t)) parts, r, f)
        | inr q ↦
            let later : value_from fuel prefix b ≡ some v = ground (arith, e, m, q) in
            rw whole (StandsIn-later prefix a b v (value_from-StandsIn fuel prefix b v later))
      ]
]

-- The value that rawQueryValue finds for a key stands in the query after the key and '=', holds no
-- '&', and ends where the query does or at an '&'.
pub raw_query_value-StandsIn :
    (raw key v : Bytes) → raw_query_value raw key ≡ some v → StandsIn (key ++ b'=' ∷ []) raw v
unfolding raw_query_value
raw_query_value-StandsIn raw key v e =
    value_from-StandsIn (suc (length raw)) (key ++ b'=' ∷ []) raw v e
