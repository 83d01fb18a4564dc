-- ===== src/Detect/Paths.antt =====
-- internal/detect/behavior.go and internal/detect/detect.go: what the tracker reads of a path and a
-- method. An int is 64 bits wide; -1 is 2 ^ 64 - 1 as a bit pattern.
use Prim.Native.Nat.{◌^◌}
use mathlib.Core.List.{reverse}
use ravenguard.Common.{
  ℕ, ◌+◌, ◌-◌, ◌*◌, ◌%◌, Bool, true, false, ◌&&◌, ◌||◌, not, List, [], ◌∷◌, ltb, leb, ◌==◌,
  if◌then◌else◌, Bytes, bytes, str_eq, length, ◌++◌, ◌≡◌, refl,
}

abbrev pub is_digit : ℕ → Bool
is_digit c = leb b'0' c && leb c b'9'

abbrev pub minus_one : ℕ
minus_one = 18446744073709551615

abbrev pub is_negative : ℕ → Bool
is_negative n = leb (2 ^ 63) n

-- The loop of trailingInt, over the reversed string.
unfoldable pub trailing_from : Bytes → ℕ → ℕ → ℕ
trailing_from [] n mult = n
trailing_from (c ∷ s) n mult =
    let n' = (n + (c - 48) * mult) % 2 ^ 64 in
    let rest = trailing_from s n' (mult * 10 % 2 ^ 64) in
    if is_digit c then (if not (is_negative n') && ltb 1000000 n' then minus_one else rest) else n

unfoldable pub trailing_reversed : Bytes → ℕ
unfolding trailing_from
trailing_reversed [] = minus_one
trailing_reversed (c ∷ s) = if is_digit c then trailing_from (c ∷ s) 0 1 else minus_one

-- trailingInt
unfoldable pub trailing_int : Bytes → ℕ
unfolding trailing_reversed
trailing_int s = trailing_reversed (reverse s)

unfoldable pub drop_digits : Bytes → Bytes
drop_digits [] = []
drop_digits (c ∷ s) = let rest = drop_digits s in if is_digit c then rest else c ∷ s

-- stripTrailingInt; its two last branches return the same.
unfoldable pub strip_trailing_int : Bytes → Bytes
unfolding drop_digits
strip_trailing_int s = reverse (drop_digits (reverse s))

-- sequentialPath
unfoldable pub sequential_path : Bytes → Bytes → Bool
unfolding trailing_int strip_trailing_int str_eq
sequential_path prev cur =
    if str_eq prev [] || str_eq cur [] || str_eq prev cur
    then false
    else if is_negative (trailing_int prev) || is_negative (trailing_int cur)
    then false
    else (trailing_int cur == (trailing_int prev + 1) % 2 ^ 64)
      && str_eq (strip_trailing_int prev) (strip_trailing_int cur)

-- isWriteMethod
unfoldable pub is_write_method : Bytes → Bool
unfolding str_eq
is_write_method method =
    str_eq method (bytes "POST") || str_eq method (bytes "PUT") || str_eq method (bytes "PATCH")

-- The lower case of an ASCII letter.
abbrev pub lower : ℕ → ℕ
lower c = if leb b'A' c && leb c b'Z' then c + 32 else c

-- strings.EqualFold of a segment with an entry of the table, which is ASCII.
unfoldable pub equal_fold : Bytes → Bytes → Bool
equal_fold [] [] = true
equal_fold (a ∷ s) (b ∷ t) = (lower a == lower b) && equal_fold s t
equal_fold [] (b ∷ t) = false
equal_fold (a ∷ s) [] = false

abbrev pub forum_write_paths : List Bytes
forum_write_paths =
    bytes "comment"
    ∷ bytes "comments"
    ∷ bytes "reply"
    ∷ bytes "replies"
    ∷ bytes "newthread"
    ∷ bytes "newtopic"
    ∷ bytes "new-topic"
    ∷ bytes "posting"
    ∷ bytes "register"
    ∷ bytes "signup"
    ∷ bytes "sign-up"
    ∷ bytes "create-account"
    ∷ bytes "guestbook"
    ∷ bytes "wp-comments-post"
    ∷ []

abbrev listed : Bytes → List Bytes → Bool
listed seg [] = false
listed seg (p ∷ ps) = (length seg == length p) && equal_fold seg p || listed seg ps

-- The loop of forumWritePath, with the bytes of the segment so far.
unfoldable pub forum_from : Bytes → Bytes → Bool
unfolding equal_fold
forum_from seg [] = not (str_eq seg []) && listed seg forum_write_paths
forum_from seg (c ∷ s) =
    let next = not (str_eq seg []) && listed seg forum_write_paths || forum_from [] s in
    let longer = forum_from (seg ++ c ∷ []) s in if c == b'/' then next else longer

-- forumWritePath
unfoldable pub forum_write_path : Bytes → Bool
unfolding forum_from str_eq
forum_write_path path = if str_eq path [] then false else forum_from [] path

next_page : sequential_path (bytes "/list/9") (bytes "/list/10") ≡ true
unfolding sequential_path
next_page = refl

other_list : sequential_path (bytes "/list/9") (bytes "/lists/10") ≡ false
unfolding sequential_path
other_list = refl

sign_up : forum_write_path (bytes "/x/Sign-Up/") ≡ true
unfolding forum_write_path
sign_up = refl
