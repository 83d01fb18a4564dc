-- ===== src/Detect/Forge/Segments.antt =====
-- Classify for cgit against the segments of the path.
use ravenguard.Common.{
  ℕ, zero, suc, ◌≤◌, ◌≡◌, refl, ◌⊎◌, inl, inr, List, [], ◌∷◌, ◌==◌, if◌then◌else◌, Bytes, str_eq,
  length, arith, Bool-cases, str_eq_iff, ap, sym, ◌∙◌,
}
use ravenguard.Common.Strings.{split}
use ravenguard.Detect.Forge.{
  ForgeClass, forge_none, forge_cgit, slash, cut, next_seg, skip_lead_slash, is_smart_http_path,
  classify_cgit_cmd, or_class, cgit_from, classify,
}

-- The class of the first segment that is a command.
abbrev pub first_class : List Bytes → ForgeClass
first_class [] = forge_none
first_class (s ∷ segs) = or_class (classify_cgit_cmd s) (first_class segs)

split-cut :
    (p : Bytes)
    → (split slash p ≡ (cut p).0 ∷ split slash (cut p).1)
      ⊎ ((split slash p ≡ (cut p).0 ∷ []) × ((cut p).1 ≡ []))
unfolding split cut
split-cut [] = inr (refl, refl)
split-cut (c ∷ p) = elim (Bool-cases (c == slash)) [
  | inl q ↦ inl (rw q refl)
  | inr q ↦ elim (split-cut p) [
    | inl e ↦ inl (rw (q, e) refl)
    | inr (e, f) ↦ inr (rw (q, e) (refl, f))
  ]
]

length-cut : (p : Bytes) → length (cut p).1 ≤ length p
unfolding cut
length-cut [] = ground arith
length-cut (c ∷ p) =
    let rest = length-cut p in
    elim (Bool-cases (c == slash)) [ inl q ↦ rw q (ground arith) | inr q ↦ rw q (ground arith) ]

first_class-cut :
    (p : Bytes)
    → first_class (split slash p)
      ≡ or_class (classify_cgit_cmd (cut p).0) (first_class (split slash (cut p).1))
first_class-cut p = elim (split-cut p) [
  | inl e ↦ ap first_class e
  | inr (e, f) ↦ rw (e, f) (unfold split classify_cgit_cmd in refl)
]

first_class-skip :
    (p : Bytes) → first_class (split slash p) ≡ first_class (split slash (skip_lead_slash p))
unfolding split
first_class-skip [] = refl
first_class-skip (c ∷ p) = elim (Bool-cases (c == slash)) [
  | inl q ↦ rw q (unfold classify_cgit_cmd in refl)
  | inr q ↦ rw (q, q) refl
]

length-skip : (c : ℕ) (p : Bytes) → length (skip_lead_slash (c ∷ p)) ≤ suc (length p)
length-skip c p = ground arith

first_class-next_seg :
    (p : Bytes)
    → first_class (split slash p)
      ≡ or_class (classify_cgit_cmd (next_seg p).0) (first_class (split slash (next_seg p).1))
unfolding next_seg
first_class-next_seg p = first_class-skip p ∙ first_class-cut (skip_lead_slash p)

length-next_seg : (c : ℕ) (p : Bytes) → length (next_seg (c ∷ p)).1 ≤ length p
unfolding next_seg
length-next_seg c p = elim (Bool-cases (c == slash)) [
  | inl q ↦ rw q (length-cut p)
  | inr q ↦ rw (q, q) (length-cut p)
]

cgit_from-first_class :
    (fuel : ℕ) (p : Bytes) → length p ≤ fuel → cgit_from fuel p ≡ first_class (split slash p)
unfolding cgit_from
cgit_from-first_class zero [] h = unfold split classify_cgit_cmd in refl
cgit_from-first_class zero (c ∷ p) h = ground arith
cgit_from-first_class (suc fuel) [] h = unfold split classify_cgit_cmd in refl
cgit_from-first_class (suc fuel) (c ∷ p) h =
    let shorter = length-next_seg c p in
    let later = cgit_from-first_class fuel (next_seg (c ∷ p)).1 (ground arith) in
    let seg = (next_seg (c ∷ p)).0 in
    rw (first_class-next_seg (c ∷ p), sym later)
      (elim (Bool-cases (str_eq seg [])) [
        | inl q ↦ rw (q, (str_eq_iff seg []).0 q) (unfold classify_cgit_cmd in refl)
        | inr q ↦ rw q refl
      ])

literal :
    (path : Bytes)
    → (path ≡ []) ⊎ (path ≡ slash ∷ [])
    → classify forge_cgit path
      ≡ (if is_smart_http_path path then forge_none else first_class (split slash path))
unfolding classify str_eq split
literal path (inl e) = rw e refl
literal path (inr e) = rw e refl

-- For cgit, the class of a path that is not git's own is that of its first segment that names a
-- command, at any depth; the loop ends.
pub classify-first_class :
    (path : Bytes)
    → classify forge_cgit path
      ≡ (if is_smart_http_path path then forge_none else first_class (split slash path))
classify-first_class path = elim (Bool-cases (str_eq path [])) [
  | inl q ↦ literal path (inl ((str_eq_iff path []).0 q))
  | inr q ↦ elim (Bool-cases (str_eq path (slash ∷ []))) [
    | inl r ↦ literal path (inr ((str_eq_iff path (slash ∷ [])).0 r))
    | inr r ↦
        unfold classify in rw (q, r, cgit_from-first_class (length path) path (ground arith)) refl
  ]
]
