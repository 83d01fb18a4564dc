-- ===== src/Faststr/Folding.antt =====
-- internal/faststr/faststr.go: ContainsFold and HasPrefixFold against the search in lower case.
use ravenguard.Common.{
  ℕ, ◌<◌, ◌≡◌, refl, Bool, true, false, ◌&&◌, ◌||◌, [], ◌∷◌, leb, ◌==◌, Bytes, length, take, All,
  arith,
}
use ravenguard.Common.Ascii.{lower_char, to_lower, contains, has_prefix}
use ravenguard.Faststr.{
  same_fold, equal_fold_ascii, upper_char, scan_fold, contains_fold, has_prefix_fold,
}

-- A text without capital letters.
abbrev pub IsLower : Bytes → Type 0
IsLower t = All (λ c. lower_char c ≡ c) t

abbrev longer : Bytes → Bytes → Bool
longer s t = leb (length t) (length s) && equal_fold_ascii (take (length t) s) t

-- The first bytes of a text, folded, are another text.
prefix_fold_lem : (s t : Bytes) → IsLower t → longer s t ≡ has_prefix (to_lower s) t
unfolding equal_fold_ascii has_prefix
prefix_fold_lem s [] h = ground arith
prefix_fold_lem [] (b ∷ t) h = ground arith
prefix_fold_lem (a ∷ s) (b ∷ t) (low, h) = ground (arith, prefix_fold_lem s t h, low)

scan_short : (f : ℕ) (t s : Bytes) → length s < length t → scan_fold f t s ≡ false
unfolding scan_fold
scan_short f t [] h = refl
scan_short f t (c ∷ s) h = ground (arith, h)

-- The test on the first byte passes where the whole test does.
quick_passes :
    (c f : ℕ) → lower_char f ≡ f → same_fold c f ≡ true → (c == f || c == upper_char f) ≡ true
quick_passes c f low h = ground (arith, low, h)

scan_fold-contains :
    (f : ℕ) (t s : Bytes) → IsLower (f ∷ t) → scan_fold f (f ∷ t) s ≡ contains (to_lower s) (f ∷ t)
unfolding scan_fold contains has_prefix
scan_fold-contains f t [] h = refl
scan_fold-contains f t (c ∷ s) h =
    let here : longer (c ∷ s) (f ∷ t) ≡ has_prefix (to_lower (c ∷ s)) (f ∷ t) =
      prefix_fold_lem (c ∷ s) (f ∷ t) h in
    ground (arith, here, scan_fold-contains f t s h, scan_short f (f ∷ t) s, quick_passes c f h.0)

-- For a text in lower case, ContainsFold and HasPrefixFold agree with the search for it in the
-- haystack in lower case.
pub fold_searches :
    (s t : Bytes)
    → IsLower t
    → (contains_fold s t ≡ contains (to_lower s) t)
      × (has_prefix_fold s t ≡ has_prefix (to_lower s) t)
unfolding contains_fold has_prefix_fold contains has_prefix
fold_searches [] [] h = (refl, prefix_fold_lem [] [] h)
fold_searches (c ∷ s) [] h = (refl, prefix_fold_lem (c ∷ s) [] h)
fold_searches s (f ∷ t) h = (scan_fold-contains f t s h, prefix_fold_lem s (f ∷ t) h)
