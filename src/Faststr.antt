-- ===== src/Faststr.antt =====
-- internal/faststr/faststr.go: searches that fold the case of ASCII letters.
pub mod Folding
mod Tests
use ravenguard.Common.{
  ℕ, ◌+◌, ◌-◌, Bool, true, false, ◌&&◌, ◌||◌, List, [], ◌∷◌, leb, ◌==◌, if◌then◌else◌, Bytes,
  length, take,
}
use ravenguard.Common.Ascii.{lower_char, to_lower, contains}
use mathlib.Core.List.{reverse}

abbrev pub same_fold : ℕ → ℕ → Bool
same_fold a b = a == b || lower_char a == lower_char b

unfoldable pub equal_fold_ascii : Bytes → Bytes → Bool
equal_fold_ascii [] [] = true
equal_fold_ascii [] (b ∷ t) = false
equal_fold_ascii (a ∷ s) [] = false
equal_fold_ascii (a ∷ s) (b ∷ t) = same_fold a b && equal_fold_ascii s t

abbrev pub upper_char : ℕ → ℕ
upper_char c = if leb b'a' c && leb c b'z' then c - 32 else c

-- The loop of ContainsFold over the places where the text may begin.
unfoldable pub scan_fold : ℕ → Bytes → Bytes → Bool
unfolding equal_fold_ascii
scan_fold first t [] = false
scan_fold first t (c ∷ s) =
    leb (length t) (length (c ∷ s))
    && ((c == first || c == upper_char first) && equal_fold_ascii (take (length t) (c ∷ s)) t
        || scan_fold first t s)

unfoldable pub contains_fold : Bytes → Bytes → Bool
unfolding scan_fold
contains_fold s [] = true
contains_fold s (f ∷ t) = scan_fold f (f ∷ t) s

unfoldable pub has_prefix_fold : Bytes → Bytes → Bool
unfolding equal_fold_ascii
has_prefix_fold s prefix =
    leb (length prefix) (length s) && equal_fold_ascii (take (length prefix) s) prefix

-- AppendLowerASCII to an empty slice.
abbrev pub append_lower_ascii : Bytes → Bytes
append_lower_ascii s = to_lower s

abbrev pub contains_bytes : Bytes → Bytes → Bool
contains_bytes s t = contains s t

abbrev is_blank : ℕ → Bool
is_blank c = c == 32 || c == 9 || c == 10 || c == 13

trim_front : Bytes → Bytes
trim_front [] = []
trim_front (c ∷ s) = let rest = trim_front s in if is_blank c then rest else c ∷ s

unfoldable pub trim_blanks : Bytes → Bytes
unfolding trim_front
trim_blanks s = reverse (trim_front (reverse (trim_front s)))
