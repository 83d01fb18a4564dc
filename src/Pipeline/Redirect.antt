-- ===== src/Pipeline/Redirect.antt =====
-- internal/pipeline/challenge_ajax.go: where a client is sent after a challenge (safeNextPath, the
-- end of challengeReturnTo). The path and the query of the Referer come from net/url.
use ravenguard.Common.{
  ℕ, ◌≡◌, ◌≢◌, ◌⊎◌, ◌∙◌, true, refl, Bool, false, ◌&&◌, ◌||◌, not, Option, none, some, [], ◌∷◌,
  ◌++◌, ◌==◌, if◌then◌else◌, Bytes, str_eq, arith, Bool-cases, inl, inr, if_both,
}
use ravenguard.Common.Ascii.{trim_space, to_lower, has_prefix}
use ravenguard.Pipeline.Requests.{strip_port}

-- A carriage return, a line feed or a backslash.
abbrev pub is_unsafe : ℕ → Bool
is_unsafe c = (c == 13) || (c == 10) || (c == 92)

-- strings.ContainsAny(raw, "\r\n\\")
unfoldable pub any_unsafe : Bytes → Bool
any_unsafe [] = false
any_unsafe (c ∷ s) = is_unsafe c || any_unsafe s

abbrev root : Bytes
root = b'/' ∷ []

abbrev safe_path : Bytes → Bytes
safe_path raw =
    if str_eq raw []
    then root
    else if not (has_prefix raw root) || has_prefix raw (b'/' ∷ root)
    then root
    else if any_unsafe raw
    then root
    else raw

-- safeNextPath
unfoldable pub safe_next_path : Bytes → Bytes
unfolding any_unsafe
safe_next_path raw = safe_path (trim_space raw)

-- What net/url says of a Referer.
pub record Parsed : Type 0 where
  pub host : Bytes
  pub escaped_path : Bytes
  pub raw_query : Bytes

abbrev with_query : Bytes → Bytes → Bytes
with_query path query = if str_eq query [] then path else path ++ b'?' ∷ query

abbrev to_referer : Bytes → Option Parsed → Bytes
to_referer host none = root
to_referer host (some u) =
    if not (str_eq u.host [])
      && not (str_eq (to_lower (strip_port u.host)) (to_lower (strip_port host)))
    then root
    else safe_next_path
        (with_query (if str_eq u.escaped_path [] then root else u.escaped_path) u.raw_query)

-- challengeReturnTo, for a Referer and the host of the request; `parse` is url.Parse.
unfoldable pub challenge_return_to : (Bytes → Option Parsed) → Bytes → Bytes → Bytes
unfolding safe_next_path
challenge_return_to parse referer host =
    if str_eq (trim_space referer) [] then root else to_referer host (parse (trim_space referer))

-- No carriage return, line feed or backslash.
abbrev pub IsClean : Bytes → Type 0
IsClean [] = Unit
IsClean (c ∷ s) = (c ≢ 13) × (c ≢ 10) × (c ≢ 92) × IsClean s

-- One slash at the front, not two, and no carriage return, line feed or backslash.
abbrev pub IsRooted : Bytes → Type 0
IsRooted [] = ⊥
IsRooted (c ∷ []) = c ≡ 47
IsRooted (c ∷ d ∷ s) = (c ≡ 47) × (d ≢ 47) × IsClean (d ∷ s)

any_unsafe-IsClean : (s : Bytes) → any_unsafe s ≡ false → IsClean s
unfolding any_unsafe
any_unsafe-IsClean [] h = tt
any_unsafe-IsClean (c ∷ s) h = (
  ground (arith, h),
  ground (arith, h),
  ground (arith, h),
  any_unsafe-IsClean s (ground (arith, h)),
)

IsClean-any_unsafe : (s : Bytes) → IsClean s → any_unsafe s ≡ false
unfolding any_unsafe
IsClean-any_unsafe [] h = refl
IsClean-any_unsafe (c ∷ s) (a, b, d, h) = ground (arith, a, b, d, IsClean-any_unsafe s h)

-- What the tests of safeNextPath let through.
abbrev passes : Bytes → Bool
passes s = has_prefix s root && not (has_prefix s (b'/' ∷ root)) && not (any_unsafe s)

passes-IsRooted : (s : Bytes) → passes s ≡ true → IsRooted s
unfolding has_prefix
passes-IsRooted [] h = absurd (ground (arith, h))
passes-IsRooted (c ∷ []) h = ground (arith, h)
passes-IsRooted (c ∷ d ∷ s) h = (
  ground (arith, h),
  ground (arith, h),
  any_unsafe-IsClean (d ∷ s) (unfold any_unsafe in (ground (arith, h))),
)

IsRooted-passes : (s : Bytes) → IsRooted s → passes s ≡ true
unfolding has_prefix
IsRooted-passes [] h = absurd h
IsRooted-passes (c ∷ []) h = unfold any_unsafe in (ground (arith, h))
IsRooted-passes (c ∷ d ∷ s) (a, b, h) =
    let clean = IsClean-any_unsafe (d ∷ s) h in unfold any_unsafe in (ground (arith, a, b, clean))

safe_path-passes : (s : Bytes) → safe_path s ≡ (if passes s then s else root)
unfolding str_eq has_prefix
safe_path-passes [] = refl
safe_path-passes (c ∷ s) = ground arith

-- A text of that form is returned as it is, and any other one is replaced by a slash.
abbrev pub Kept : Bytes → Bytes → Type 0
Kept text result = (IsRooted text × (result ≡ text)) ⊎ ((¬ IsRooted text) × (result ≡ 47 ∷ []))

safe_path-Kept : (s : Bytes) → Kept s (safe_path s)
safe_path-Kept s = elim (Bool-cases (passes s)) [
  | inl p ↦ inl (passes-IsRooted s p, safe_path-passes s ∙ (rw p refl))
  | inr p ↦ inr (
    λ h. let yes : passes s ≡ true = IsRooted-passes s h in absurd (ground (arith, p, yes)),
    safe_path-passes s ∙ (rw p refl),
  )
]

Kept-IsRooted : (text result : Bytes) → Kept text result → IsRooted result
Kept-IsRooted text result (inl (h, e)) = rw e h
Kept-IsRooted text result (inr (h, e)) = rw e refl

safe_next_path-IsRooted : (raw : Bytes) → IsRooted (safe_next_path raw)
unfolding safe_next_path
safe_next_path-IsRooted raw =
    Kept-IsRooted (trim_space raw) (safe_path (trim_space raw)) (safe_path-Kept (trim_space raw))

to_referer-IsRooted : (host : Bytes) (o : Option Parsed) → IsRooted (to_referer host o)
to_referer-IsRooted host none = refl
to_referer-IsRooted host (some u) =
    if_both IsRooted
      (not (str_eq u.host [])
        && not (str_eq (to_lower (strip_port u.host)) (to_lower (strip_port host))))
      _ _ refl
      (safe_next_path-IsRooted
        (with_query (if str_eq u.escaped_path [] then root else u.escaped_path) u.raw_query))

-- Whatever the Referer, the host and the way that URLs are parsed, challengeReturnTo sends a client
-- to a text that begins with one slash and not two, and has no carriage return, line feed or
-- backslash; and safeNextPath returns a text of that form as it is, without the spaces around it, and
-- a slash for any other one. A tab may follow the slash.
pub challenge_return_to-IsRooted :
    (parse : Bytes → Option Parsed) (referer host raw : Bytes)
    → IsRooted (challenge_return_to parse referer host) × Kept (trim_space raw) (safe_next_path raw)
unfolding challenge_return_to safe_next_path
challenge_return_to-IsRooted parse referer host raw = (
  if_both IsRooted (str_eq (trim_space referer) []) _ _ refl
      (to_referer-IsRooted host (parse (trim_space referer))),
  safe_path-Kept (trim_space raw),
)
