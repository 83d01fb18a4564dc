-- ===== src/Detect/RawQuery.antt =====
-- rawQueryValue of internal/detect/detect.go. strings.Index is `find`, with the text before and after
-- what it finds.
pub mod Value
use ravenguard.Common.{
  ℕ, zero, suc, Bool, true, false, Option, none, some, List, [], ◌∷◌, ◌++◌, ◌==◌, if◌then◌else◌,
  Bytes, length, drop,
}
use ravenguard.Common.Ascii.{has_prefix}

abbrev pub prepend : ℕ → Option (Bytes × Bytes) → Option (Bytes × Bytes)
prepend c none = none
prepend c (some (pre, post)) = some (c ∷ pre, post)

-- strings.Index for a text that is not empty.
unfoldable pub find : Bytes → Bytes → Option (Bytes × Bytes)
unfolding has_prefix
find sub [] = none
find sub (c ∷ s) =
    let later = find sub s in
    if has_prefix (c ∷ s) sub then some ([], drop (length sub) (c ∷ s)) else prepend c later

-- The value up to the next '&'.
unfoldable pub before_amp : Bytes → Bytes
before_amp [] = []
before_amp (c ∷ s) = let rest = before_amp s in if c == b'&' then [] else c ∷ rest

-- Whether the text before a key lets the key begin there.
unfoldable pub at_boundary : Bytes → Bool
at_boundary [] = true
at_boundary (c ∷ []) = c == b'&'
at_boundary (c ∷ d ∷ s) = at_boundary (d ∷ s)

-- The loop of rawQueryValue, on `key=`.
unfoldable pub value_from : ℕ → Bytes → Bytes → Option Bytes
unfolding find before_amp at_boundary
value_from zero prefix raw = none
value_from (suc fuel) prefix raw = elim (find prefix raw) [
  | none ↦ none
  | some (pre, post) ↦
      let later = value_from fuel prefix post in
      if at_boundary pre then some (before_amp post) else later
]

-- rawQueryValue; the fuel is one more than the length of the query.
unfoldable pub raw_query_value : Bytes → Bytes → Option Bytes
unfolding value_from
raw_query_value raw key = value_from (suc (length raw)) (key ++ b'=' ∷ []) raw
