-- ===== src/Common/Ascii.antt =====
-- strings.ToLower and strings.TrimSpace on ASCII text, and strings.Contains.
use Prim.Native.Nat.{ℕ, ◌+◌}
use mathlib.Core.Bool.{Bool, true, false, ◌&&◌, ◌||◌}
use mathlib.Core.Path.{◌≡◌, refl}
use native.Mathlib.Omega.{arith}
use mathlib.Core.List.{[], ◌∷◌, ◌++◌, map, reverse, reverse-append, reverse-reverse}
use ravenguard.Common.Lists.{All}
use ravenguard.Common.Text.{Bytes}
use ravenguard.Common.Tests.{leb, ◌==◌, if◌then◌else◌}

abbrev pub is_space : ℕ → Bool
is_space c = (c == 32) || leb 9 c && leb c 13

unfoldable trim_left : Bytes → Bytes
trim_left [] = []
trim_left (c ∷ s) = let rest = trim_left s in if is_space c then rest else c ∷ s

unfoldable pub trim_space : Bytes → Bytes
unfolding trim_left
trim_space s = reverse (trim_left (reverse (trim_left s)))

abbrev pub lower_char : ℕ → ℕ
lower_char c = if leb b'A' c && leb c b'Z' then c + 32 else c

abbrev pub to_lower : Bytes → Bytes
to_lower s = map lower_char s

unfoldable pub has_prefix : Bytes → Bytes → Bool
has_prefix s [] = true
has_prefix [] (b ∷ t) = false
has_prefix (a ∷ s) (b ∷ t) = (a == b) && has_prefix s t

unfoldable pub has_suffix : Bytes → Bytes → Bool
unfolding has_prefix
has_suffix s t = has_prefix (reverse s) (reverse t)

unfoldable pub contains : Bytes → Bytes → Bool
unfolding has_prefix
contains [] t = has_prefix [] t
contains (a ∷ s) t = has_prefix (a ∷ s) t || contains s t

-- strings.TrimSuffix with a dot.
unfoldable pub trim_last_dot : Bytes → Bytes
trim_last_dot [] = []
trim_last_dot (c ∷ []) = if c == b'.' then [] else c ∷ []
trim_last_dot (c ∷ d ∷ s) = c ∷ trim_last_dot (d ∷ s)

-- A text without white space, which TrimSpace leaves alone.
abbrev pub IsSolid : Bytes → Type 0
IsSolid s = All (λ c. is_space c ≡ false) s

trim_left-IsSolid : (s : Bytes) → IsSolid s → trim_left s ≡ s
unfolding trim_left
trim_left-IsSolid [] h = refl
trim_left-IsSolid (c ∷ s) (here, h) = rw here refl

pub IsSolid-append : (s t : Bytes) → IsSolid s → IsSolid t → IsSolid (s ++ t)
IsSolid-append [] t h k = k
IsSolid-append (c ∷ s) t (here, h) k = (here, IsSolid-append s t h k)

IsSolid-reverse : (s : Bytes) → IsSolid s → IsSolid (reverse s)
IsSolid-reverse [] h = tt
IsSolid-reverse (c ∷ s) (here, h) =
    rw (reverse-append (c ∷ []) s)
      (IsSolid-append (reverse s) (c ∷ []) (IsSolid-reverse s h) (here, tt))

pub trim_space-IsSolid : (s : Bytes) → IsSolid s → trim_space s ≡ s
unfolding trim_space
trim_space-IsSolid s h =
    rw (
      trim_left-IsSolid s h,
      trim_left-IsSolid (reverse s) (IsSolid-reverse s h),
      reverse-reverse s,
    )

pub to_lower-IsSolid : (s : Bytes) → IsSolid s → IsSolid (to_lower s)
to_lower-IsSolid [] h = tt
to_lower-IsSolid (c ∷ s) (here, h) = (ground (arith, here), to_lower-IsSolid s h)
