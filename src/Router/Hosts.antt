-- ===== src/Router/Hosts.antt =====
-- What a path prefix and a host of a request mean.
use ravenguard.Common.{
  ℕ, ◌+◌, ◌≡◌, ◌⊎◌, refl, Bool, true, false, ◌&&◌, ◌||◌, not, some, List, [], ◌∷◌, ◌++◌, arith, leb,
  ◌==◌, Bytes, bytes, str_eq, str_eq_iff, All, Bool-cases, inl, inr, sym, ap, ◌∙◌,
}
use ravenguard.Common.Ascii.{
  has_prefix, is_space, lower_char, to_lower, IsSolid, IsSolid-append, trim_space-IsSolid,
}
use ravenguard.Common.Strings.{split}
use mathlib.Core.Path.{subst}
use ravenguard.Router.{trim_slash, match_prefix, strip_port, strip_key, before, count_byte}

-- Whether a list of parts starts with another.
unfoldable pub starts_with : List Bytes → List Bytes → Bool
starts_with ps [] = true
starts_with [] (q ∷ qs) = false
starts_with (p ∷ ps) (q ∷ qs) = str_eq q p && starts_with ps qs

-- The parts of a path between its slashes.
abbrev pub parts : Bytes → List Bytes
parts s = split b'/' s

parts-ne-nil : (s : Bytes) → (p : Bytes) × (ps : List Bytes) × (parts s ≡ p ∷ ps)
unfolding split
parts-ne-nil [] = ([], [], refl)
parts-ne-nil (c ∷ s) =
    let (p, ps, e) = parts-ne-nil s in
    elim (Bool-cases (c == b'/')) [
      | inl h ↦ ([], p ∷ ps, rw (h, e))
      | inr h ↦ (c ∷ p, ps, rw (h, e))
    ]

abbrev under : Bytes → Bytes → Bool
under s t = str_eq s t || has_prefix s (t ++ b'/' ∷ [])

starts_with-parts : (t s : Bytes) → under s t ≡ starts_with (parts s) (parts t)
unfolding split starts_with has_prefix str_eq
starts_with-parts [] [] = refl
starts_with-parts [] (d ∷ s) = let (p, ps, e) = parts-ne-nil s in rw e (ground arith)
starts_with-parts (c ∷ t) [] = let (q, qs, e) = parts-ne-nil t in rw e (ground arith)
starts_with-parts (c ∷ t) (d ∷ s) =
    let (p, ps, e) = parts-ne-nil s in
    let (q, qs, f) = parts-ne-nil t in
    let ih = starts_with-parts t s in
    let ih' : under s t ≡ starts_with (p ∷ ps) (q ∷ qs) = rw (e, f) at ih in
    rw (e, f) (ground (arith, ih'))

trim_slash-cases : (s : Bytes) → (s ≡ trim_slash s) ⊎ (s ≡ trim_slash s ++ b'/' ∷ [])
unfolding trim_slash
trim_slash-cases [] = inl refl
trim_slash-cases (c ∷ []) = ground arith
trim_slash-cases (c ∷ d ∷ s) = elim (trim_slash-cases (d ∷ s)) [
  | inl e ↦ inl (ap (λ (t : Bytes). c ∷ t) e)
  | inr e ↦ inr (ap (λ (t : Bytes). c ∷ t) e)
]

has_prefix_refl : (s : Bytes) → has_prefix s s ≡ true
unfolding has_prefix
has_prefix_refl [] = refl
has_prefix_refl (c ∷ s) = ground (arith, has_prefix_refl s)

bare_prefix :
    (prefix : Bytes) → str_eq prefix [] || str_eq prefix (bytes "/") ≡ true → trim_slash prefix ≡ []
bare_prefix prefix h = elim (Bool-cases (str_eq prefix [])) [
  | inl p ↦ let e = (str_eq_iff prefix []).0 p in rw e (unfold trim_slash in refl)
  | inr p ↦
      let q : str_eq prefix (bytes "/") ≡ true = ground (arith, h, p) in
      let e = (str_eq_iff prefix (bytes "/")).0 q in rw e (unfold trim_slash in refl)
]

under_itself : (prefix : Bytes) → under prefix (trim_slash prefix) ≡ true
under_itself prefix = elim (trim_slash-cases prefix) [
  | inl e ↦
      let self : str_eq prefix (trim_slash prefix) ≡ true =
        (str_eq_iff prefix (trim_slash prefix)).1 e in
      rw self refl
  | inr e ↦
      let self : has_prefix prefix (trim_slash prefix ++ b'/' ∷ []) ≡ true =
        rw (sym e) (has_prefix_refl prefix) in
      ground (arith, self)
]

match_prefix-under :
    (path prefix : Bytes)
    → has_prefix path (bytes "/") ≡ true
    → match_prefix path prefix ≡ under path (trim_slash prefix)
unfolding match_prefix
match_prefix-under path prefix slash =
    elim (Bool-cases (str_eq prefix [] || str_eq prefix (bytes "/"))) [
      | inl p ↦ rw (p, bare_prefix prefix p) (ground (arith, slash))
      | inr p ↦ elim (Bool-cases (str_eq path prefix)) [
        | inl q ↦
            let e = (str_eq_iff path prefix).0 q in
            let whole : under path (trim_slash prefix) ≡ true = rw e (under_itself prefix) in
            rw (p, q) (sym whole)
        | inr q ↦ rw (p, q) refl
      ]
    ]

-- A prefix matches a path that starts with a slash exactly if the parts of the prefix, its last
-- slash aside, are the first parts of the path: "/api" matches "/api/x" and not "/apix".
pub match_prefix-parts :
    (path prefix : Bytes)
    → has_prefix path (bytes "/") ≡ true
    → match_prefix path prefix ≡ starts_with (parts path) (parts (trim_slash prefix))
match_prefix-parts path prefix slash =
    match_prefix-under path prefix slash ∙ starts_with-parts (trim_slash prefix) path

-- A host name as a client may write it: letters of either case, digits, dots and dashes.
abbrev pub is_name_char : ℕ → Bool
is_name_char c =
    leb b'a' c && leb c b'z'
    || leb b'A' c && leb c b'Z'
    || leb b'0' c && leb c b'9'
    || (c == b'-')
    || (c == b'.')

abbrev pub IsName : Bytes → Type 0
IsName s = All (λ c. is_name_char c ≡ true) s

abbrev is_plain : ℕ → Bool
is_plain c = not (is_space c) && not (c == b':') && not (c == b'[')

name_lower :
    (s : Bytes) → IsName s → IsSolid (to_lower s) × All (λ c. is_plain c ≡ true) (to_lower s)
name_lower [] h = (tt, tt)
name_lower (c ∷ s) (here, h) =
    let (solid, plain) = name_lower s h in
    ((ground (arith, here), solid), (ground (arith, here), plain))

before-colon :
    (s p : Bytes)
    → All (λ c. is_plain c ≡ true) s
    → (before b':' (s ++ b':' ∷ p) ≡ some s) × (count_byte b':' s ≡ 0)
unfolding before count_byte
before-colon [] p h = (refl, refl)
before-colon (c ∷ s) p (here, h) =
    let (ih, none_in) = before-colon s p h in
    (ground (arith, here, ih), ground (arith, here, none_in))

count_byte-append : (s p : Bytes) → count_byte b':' (s ++ p) ≡ count_byte b':' s + count_byte b':' p
unfolding count_byte
count_byte-append [] p = omega arith
count_byte-append (c ∷ s) p = ground (arith, count_byte-append s p)

to_lower-append : (s p : Bytes) → to_lower (s ++ p) ≡ to_lower s ++ to_lower p
to_lower-append [] p = refl
to_lower-append (c ∷ s) p = ap (λ (t : Bytes). lower_char c ∷ t) (to_lower-append s p)

strip_plain_name : (s : Bytes) → All (λ c. is_plain c ≡ true) s → strip_key s ≡ s
unfolding before
strip_plain_name [] h = refl
strip_plain_name (c ∷ s) (here, h) =
    let (ih, none_in) = before-colon (c ∷ s) [] (here, h) in ground (arith, here, none_in)

strip_plain_port :
    (c : ℕ) (s p : Bytes)
    → All (λ c. is_plain c ≡ true) (c ∷ s)
    → count_byte b':' p ≡ 0
    → strip_key ((c ∷ s) ++ b':' ∷ p) ≡ c ∷ s
strip_plain_port c s p (here, h) port =
    let (cut, none_in) = before-colon (c ∷ s) p (here, h) in
    let one : count_byte b':' ((c ∷ s) ++ b':' ∷ p) ≡ 1 =
      count_byte-append (c ∷ s) (b':' ∷ p)
      ∙ (unfold count_byte in rw (none_in, port) (omega arith)) in
    ground (arith, here, cut, one)

strip_port-solid :
    (host : Bytes) → IsSolid (to_lower host) → strip_port host ≡ strip_key (to_lower host)
unfolding strip_port
strip_port-solid host h = rw (trim_space-IsSolid (to_lower host) h)

-- A host name is looked up in lower case and without its port, if it has one.
pub strip_port-name :
    (c : ℕ) (name port : Bytes)
    → IsName (c ∷ name)
    → IsName port
    → (strip_port (c ∷ name) ≡ to_lower (c ∷ name))
      × (strip_port ((c ∷ name) ++ b':' ∷ port) ≡ to_lower (c ∷ name))
strip_port-name c name port h k =
    let (solid, plain) = name_lower (c ∷ name) h in
    let (solid_port, plain_port) = name_lower port k in
    let (cut, no_colon) = before-colon (to_lower port) [] plain_port in
    let joined = to_lower-append (c ∷ name) (b':' ∷ port) in
    let whole =
      subst IsSolid (sym joined)
        (IsSolid-append (to_lower (c ∷ name)) _ solid (refl, solid_port)) in
    (
      strip_port-solid (c ∷ name) solid ∙ strip_plain_name (to_lower (c ∷ name)) plain,
      strip_port-solid ((c ∷ name) ++ b':' ∷ port) whole
          ∙ ap strip_key joined
          ∙ strip_plain_port _ _ (to_lower port) plain no_colon,
    )
