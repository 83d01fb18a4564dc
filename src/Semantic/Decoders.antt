-- ===== src/Semantic/Decoders.antt =====
-- internal/semantic/decode.go: tryURLDecode, tryBase64, tryHex, tryUnicodeEscape and
-- looksBinaryPayload, with what they call of net/url, encoding/base64, encoding/hex and unicode/utf8.
use ravenguard.Common.{
  ℕ, zero, suc, ◌+◌, ◌-◌, ◌*◌, ◌/◌, ◌%◌, Bool, true, false, ◌&&◌, ◌||◌, not, Option, none, some,
  List, [], ◌∷◌, ◌++◌, ltb, leb, ◌==◌, if◌then◌else◌, Bytes, str_eq, length, bytes,
}
use ravenguard.Common.Ascii.{contains}

abbrev between : ℕ → ℕ → ℕ → Bool
between lo hi c = leb lo c && leb c hi

abbrev onto : Bytes → Option Bytes → Option Bytes
onto s none = none
onto s (some t) = some (s ++ t)

-- The value of a hexadecimal digit.
unfoldable pub hex_value : ℕ → Option ℕ
hex_value c =
    if between b'0' b'9' c
    then some (c - b'0')
    else if between b'a' b'f' c
    then some (c - b'a' + 10)
    else if between b'A' b'F' c
    then some (c - b'A' + 10)
    else none

unfoldable pub hex_byte : ℕ → ℕ → Option ℕ
unfolding hex_value
hex_byte a b = elim (hex_value a) [
  | none ↦ none
  | some high ↦ elim (hex_value b) [ none ↦ none | some low ↦ some (high * 16 + low) ]
]

abbrev one_byte : Option ℕ → Option Bytes
one_byte none = none
one_byte (some c) = some (c ∷ [])

abbrev and_then : Option Bytes → Option Bytes → Option Bytes
and_then none rest = none
and_then (some s) rest = onto s rest

-- hex.Decode
unfoldable pub hex_decode : Bytes → Option Bytes
unfolding hex_byte
hex_decode [] = some []
hex_decode (a ∷ []) = none
hex_decode (a ∷ b ∷ s) = let rest = hex_decode s in and_then (one_byte (hex_byte a b)) rest

-- url.QueryUnescape. Every round uses a byte, so the length of the text is enough fuel.
unescape : ℕ → Bytes → Option Bytes
unfolding hex_byte
unescape zero s = some s
unescape (suc fuel) [] = some []
unescape (suc fuel) (c ∷ s) =
    let plain = onto ((if c == b'+' then 32 else c) ∷ []) (unescape fuel s) in
    let escape : Option Bytes = elim s [
      | [] ↦ none
      | a ∷ r ↦ elim r [ [] ↦ none | b ∷ t ↦ and_then (one_byte (hex_byte a b)) (unescape fuel t) ]
    ] in
    if c == b'%' then escape else plain

unfoldable pub query_unescape : Bytes → Option Bytes
unfolding unescape
query_unescape s = unescape (length s) s

unfoldable pub try_url_decode : Bytes → Option Bytes
unfolding query_unescape contains str_eq
try_url_decode b =
    if not (contains b (b'%' ∷ [])) && not (contains b (b'+' ∷ []))
    then none
    else elim (query_unescape b) [ none ↦ none | some u ↦ if str_eq u b then none else some u ]

-- The value of a digit in the standard alphabet, or in that of URLs.
base64_value : Bool → ℕ → Option ℕ
base64_value url c =
    if between b'A' b'Z' c
    then some (c - b'A')
    else if between b'a' b'z' c
    then some (c - b'a' + 26)
    else if between b'0' b'9' c
    then some (c - b'0' + 52)
    else if c == (if url then b'-' else b'+')
    then some 62
    else if c == (if url then b'_' else b'/')
    then some 63
    else none

-- The three bytes of four digits.
quantum : Option ℕ → Option ℕ → Option ℕ → Option ℕ → Option Bytes
quantum (some a) (some b) (some c) (some d) =
    some ((a * 4 + b / 16) ∷ (b % 16 * 16 + c / 4) ∷ (c % 4 * 64 + d) ∷ [])
quantum _ _ _ _ = none

abbrev first_bytes : ℕ → Option Bytes → Option Bytes
first_bytes n none = none
first_bytes n (some s) = some (ravenguard.Common.take n s)

-- base64.Encoding.Decode, for texts of the alphabet and of the padding.
unfoldable pub base64_decode : Bool → Bytes → Option Bytes
unfolding base64_value quantum
base64_decode url [] = some []
base64_decode url (a ∷ b ∷ c ∷ d ∷ []) =
    let value = base64_value url in
    if c == b'='
    then (if d == b'=' then first_bytes 1 (quantum (value a) (value b) (some 0) (some 0)) else none)
    else if d == b'='
    then first_bytes 2 (quantum (value a) (value b) (value c) (some 0))
    else quantum (value a) (value b) (value c) (value d)
base64_decode url (a ∷ b ∷ c ∷ d ∷ e ∷ s) =
    let value = base64_value url in
    let rest = base64_decode url (e ∷ s) in
    and_then (quantum (value a) (value b) (value c) (value d)) rest
base64_decode url (a ∷ []) = none
base64_decode url (a ∷ b ∷ []) = none
base64_decode url (a ∷ b ∷ c ∷ []) = none

abbrev is_tail : ℕ → Bool
is_tail c = between 0x80 0xBF c

-- How many bytes may follow the first byte of a rune, and the range of the next one.
rune_shape : ℕ → Option (ℕ × ℕ × ℕ)
rune_shape c =
    if ltb c 0x80
    then some (0, 0, 0)
    else if between 0xC2 0xDF c
    then some (1, 0x80, 0xBF)
    else if c == 0xE0
    then some (2, 0xA0, 0xBF)
    else if c == 0xED
    then some (2, 0x80, 0x9F)
    else if between 0xE1 0xEF c
    then some (2, 0x80, 0xBF)
    else if c == 0xF0
    then some (3, 0x90, 0xBF)
    else if between 0xF1 0xF3 c
    then some (3, 0x80, 0xBF)
    else if c == 0xF4
    then some (3, 0x80, 0x8F)
    else none

-- utf8.Valid: the bytes of the current rune that are still to come, and the range of the next.
utf8_from : ℕ → ℕ → ℕ → Bytes → Bool
unfolding rune_shape
utf8_from zero lo hi [] = true
utf8_from (suc left) lo hi [] = false
utf8_from zero lo hi (c ∷ s) = elim (rune_shape c) [
  | none ↦ false
  | some (n, from, to) ↦ utf8_from n from to s
]
utf8_from (suc left) lo hi (c ∷ s) = between lo hi c && utf8_from left 0x80 0xBF s

unfoldable pub utf8_valid : Bytes → Bool
unfolding utf8_from
utf8_valid s = utf8_from 0 0 0 s

abbrev count_nul : Bytes → ℕ
count_nul [] = 0
count_nul (c ∷ s) = if c == 0 then suc (count_nul s) else count_nul s

unfoldable pub looks_binary_payload : Bytes → Bool
looks_binary_payload b = ltb 0 (count_nul b) && ltb (count_nul b) (length b / 4)

abbrev every : (ℕ → Bool) → Bytes → Bool
every p [] = true
every p (c ∷ s) = p c && every p s

abbrev is_base64_byte : ℕ → Bool
is_base64_byte c =
    between b'A' b'Z' c
    || between b'a' b'z' c
    || between b'0' b'9' c
    || c == b'+'
    || c == b'/'
    || c == b'='
    || c == b'-'
    || c == b'_'

-- A decoded text of no bytes counts as a failure.
abbrev readable : (Bytes → Bool) → Option Bytes → Option Bytes
readable ok none = none
readable ok (some []) = none
readable ok (some (c ∷ s)) = if ok (c ∷ s) then some (c ∷ s) else none

unfoldable pub try_base64 : Bytes → Option Bytes
unfolding base64_decode utf8_valid looks_binary_payload
try_base64 b =
    if ltb (length b) 8 || not (length b % 4 == 0)
    then none
    else if not (every is_base64_byte b)
    then none
    else readable (λ d. utf8_valid d || looks_binary_payload d)
        (base64_decode (not (every (λ c. not (c == b'-' || c == b'_')) b)) b)

abbrev is_hex_digit : ℕ → Bool
is_hex_digit c = between b'0' b'9' c || between b'a' b'f' c || between b'A' b'F' c

unfoldable pub try_hex : Bytes → Option Bytes
unfolding hex_decode
try_hex b =
    if ltb (length b) 4 || not (length b % 2 == 0)
    then none
    else if not (every is_hex_digit b)
    then none
    else readable (λ _. true) (hex_decode b)

-- utf8.AppendRune for a rune below 2 ^ 16.
rune_bytes : ℕ → Bytes
rune_bytes v =
    if ltb v 0x80
    then v ∷ []
    else if ltb v 0x800
    then (0xC0 + v / 64) ∷ (0x80 + v % 64) ∷ []
    else if between 0xD800 0xDFFF v
    then 0xEF ∷ 0xBF ∷ 0xBD ∷ []
    else (0xE0 + v / 4096) ∷ (0x80 + v / 64 % 64) ∷ (0x80 + v % 64) ∷ []

abbrev rune_of : Option ℕ → Option ℕ → Option Bytes
rune_of (some a) (some b) = some (rune_bytes (a * 256 + b))
rune_of (some a) none = none
rune_of none b = none

-- A backslash, u and four digits, or a backslash, x and two: what stands for them, and the rest.
escaped : Bytes → Option (Bytes × Bytes)
unfolding hex_byte rune_bytes
escaped (c ∷ k ∷ p ∷ q ∷ s) =
    let long : Option (Bytes × Bytes) = elim s [
      | [] ↦ none
      | r ∷ t ↦ elim t [
        | [] ↦ none
        | d ∷ rest ↦ elim (rune_of (hex_byte p q) (hex_byte r d)) [
          | none ↦ none
          | some out ↦ some (out, rest)
        ]
      ]
    ] in
    let short : Option (Bytes × Bytes) = elim (hex_byte p q) [
      | none ↦ none
      | some byte ↦ some (byte ∷ [], s)
    ] in
    if c == 92 && k == b'u' then long else if c == 92 && k == b'x' then short else none
escaped _ = none

-- The loop of tryUnicodeEscape: what it has written, and whether it changed something. Every round
-- uses a byte, so the length of the text is enough fuel.
unescape_runes : ℕ → Bytes → Bytes × Bool
unfolding escaped
unescape_runes zero s = (s, false)
unescape_runes (suc fuel) [] = ([], false)
unescape_runes (suc fuel) (c ∷ s) = elim (escaped (c ∷ s)) [
  | none ↦ let (out, changed) = unescape_runes fuel s in (c ∷ out, changed)
  | some (b, rest) ↦ (b ++ (unescape_runes fuel rest).0, true)
]

unfoldable pub try_unicode_escape : Bytes → Option Bytes
unfolding unescape_runes contains
try_unicode_escape b =
    if not (contains b (92 ∷ b'u' ∷ [])) && not (contains b (92 ∷ b'x' ∷ []))
    then none
    else let (out, changed) = unescape_runes (length b) b in if changed then some out else none
