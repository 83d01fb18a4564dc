-- ===== src/Detect/Attack/Probes.antt =====
-- internal/detect/attack.go: which probes AttackMatch cannot miss.
use ravenguard.Common.{
  ℕ, suc, ◌+◌, ◌≡◌, refl, ap, ◌∙◌, Bool, true, false, ◌&&◌, ◌||◌, Option, none, some, List, [], ◌∷◌,
  if◌then◌else◌, Bytes, bytes, str_eq, All, arith, if_then,
}
use ravenguard.Common.Ascii.{lower_char, to_lower, contains, has_prefix}
use ravenguard.Faststr.{contains_fold}
use ravenguard.Faststr.Folding.{IsLower, fold_searches}
use ravenguard.Detect.Attack.{
  Attack, null_byte, path_traversal, injection_probe, Target, attack_subs, traversals, file_names,
  contains_byte, index_byte, is_some, is_mark, may_have_injection, any_fold, any_bytes,
  scan_attack_string, or_else, check_decoded, scan_decoded, path_of, attack_match,
}
use ravenguard.Detect.Attack.Listed.{has_probe, marked, in_tables, has_probe-in_tables}

-- A text that comes out of another by at most some decodings, each of which changes it.
pub data Decoded (unescape : Bytes → Option Bytes) : ℕ → Bytes → Bytes → Type 0 where
  same : {n : ℕ} {s : Bytes} → Decoded unescape n s s
  decode :
      {n : ℕ} {s d t : Bytes}
      → contains_byte s b'%' ≡ true
      → unescape s ≡ some d
      → str_eq d s ≡ false
      → Decoded unescape n d t
      → Decoded unescape (suc n) s t

mark_lower : (c : ℕ) → is_mark (lower_char c) ≡ is_mark c
unfolding contains_byte
mark_lower c = ground arith

may-to_lower : (s : Bytes) → may_have_injection (to_lower s) ≡ may_have_injection s
unfolding may_have_injection
may-to_lower [] = refl
may-to_lower (c ∷ s) = λ i. mark_lower c i || may-to_lower s i

prefix_marked :
    (t p : Bytes)
    → has_prefix t p ≡ true
    → may_have_injection p ≡ true
    → may_have_injection t ≡ true
unfolding has_prefix may_have_injection
prefix_marked t [] h k = absurd (ground (arith, k))
prefix_marked [] (b ∷ p) h k = absurd (ground (arith, h))
prefix_marked (a ∷ t) (b ∷ p) h k = ground (arith, prefix_marked t p, h, k)

contains_marked :
    (t p : Bytes) → contains t p ≡ true → may_have_injection p ≡ true → may_have_injection t ≡ true
unfolding contains may_have_injection
contains_marked [] p h k = prefix_marked [] p h k
contains_marked (a ∷ t) p h k = ground (arith, contains_marked t p, prefix_marked (a ∷ t) p, h, k)

any_fold-any_bytes :
    (ps : List Bytes) (s : Bytes) → All IsLower ps → any_fold ps s ≡ any_bytes ps (to_lower s)
unfolding any_fold any_bytes
any_fold-any_bytes [] s h = refl
any_fold-any_bytes (p ∷ ps) s (low, h) =
    λ i. (fold_searches s p low).0 i || any_fold-any_bytes ps s h i

-- A marked text of a list that is found is one of the list, and what holds it is marked.
any_marked :
    (ps : List Bytes) (t : Bytes)
    → any_bytes (marked ps) t ≡ true
    → (may_have_injection t && any_bytes ps t) ≡ true
unfolding marked any_bytes
any_marked [] t h = absurd (ground (arith, h))
any_marked (p ∷ ps) t h = ground (arith, any_marked ps t, contains_marked t p, h)

traversals-IsLower : All IsLower traversals
traversals-IsLower = omega arith

file_names-IsLower : All IsLower file_names
file_names-IsLower = omega arith

nothing_empty : in_tables [] ≡ false
unfolding in_tables any_bytes contains_byte marked contains has_prefix may_have_injection
nothing_empty = refl

-- A test that holds leads to a reason, whatever the second test says.
reported :
    (nul escaped traversal file sub : Bool)
    → (nul || traversal || file || sub) ≡ true
    → is_some (
        if nul || escaped
        then some null_byte
        else if traversal
        then some path_traversal
        else if file
        then some injection_probe
        else if sub
        then some injection_probe
        else none)
      ≡ true
reported nul escaped traversal file sub h = ground (arith, h)

scan_attack_string-in_tables :
    (t : Bytes) → in_tables t ≡ true → is_some (scan_attack_string t) ≡ true
unfolding scan_attack_string in_tables
scan_attack_string-in_tables [] h = absurd (ground (arith, nothing_empty, h))
scan_attack_string-in_tables (c ∷ t) h =
    let s : Bytes = c ∷ t in
    let trav = any_fold-any_bytes traversals s traversals-IsLower in
    let names = any_fold-any_bytes file_names s file_names-IsLower in
    let subs = any_marked attack_subs (to_lower s) in
    let marks = may-to_lower s in
    reported (contains_byte s 0) (contains_fold s (bytes "%00")) (any_fold traversals s)
      (any_fold file_names s) (may_have_injection s && any_bytes attack_subs (to_lower s))
      (ground (arith, h, trav, names, subs, marks))

-- scanAttackString misses no probe.
scan_attack_string-probe : (t : Bytes) → has_probe t ≡ true → is_some (scan_attack_string t) ≡ true
scan_attack_string-probe t h = scan_attack_string-in_tables t (has_probe-in_tables t h)

-- The place of a byte is found exactly if the byte occurs.
index_byte-contains_byte :
    (i : ℕ) (s : Bytes) (c : ℕ) → is_some (index_byte i s c) ≡ contains_byte s c
unfolding index_byte contains_byte
index_byte-contains_byte i [] c = refl
index_byte-contains_byte i (b ∷ s) c = ground (arith, index_byte-contains_byte (i + 1) s c)

or_else_left : (a b : Option Attack) → is_some a ≡ true → is_some (or_else a b) ≡ true
or_else_left none b h = absurd (ground (arith, h))
or_else_left (some x) b h = refl

or_else_right : (a b : Option Attack) → is_some b ≡ true → is_some (or_else a b) ≡ true
or_else_right none b h = h
or_else_right (some x) b h = refl

if_else : {A : Type 0} (b : Bool) (x y : A) → b ≡ false → (if b then x else y) ≡ y
if_else true x y h = absurd (ground (arith, h))
if_else false x y h = refl

-- A probe in a text that is decoded within the turns of the loop is found, there or before.
scan_decoded-probe :
    (u : Bytes → Option Bytes) (n : ℕ) (s t : Bytes)
    → Decoded u n s t
    → has_probe t ≡ true
    → is_some (or_else (scan_attack_string s) (scan_decoded u n s)) ≡ true
unfolding scan_decoded
scan_decoded-probe u n s t same h =
    or_else_left (scan_attack_string s) (scan_decoded u n s) (scan_attack_string-probe s h)
scan_decoded-probe u (suc n) s t (decode {d = d} percent step new rest) h =
    or_else_right (scan_attack_string s) (scan_decoded u (suc n) s) (
      ap is_some (
        if_then _ _ none (index_byte-contains_byte 0 s b'%' ∙ percent)
        ∙ ap (check_decoded (scan_decoded u n) s) step
        ∙ if_else _ none (or_else (scan_attack_string d) (scan_decoded u n d)) new)
      ∙ scan_decoded-probe u n d t rest h)

-- The texts of a request that an attack may show in: its path and its query, as they are or after one
-- or two decodings.
pub data Shown (path_unescape query_unescape : Bytes → Option Bytes) (r : Target)
    : Bytes → Type 0 where
  in_path :
      {t : Bytes} → Decoded path_unescape 2 (path_of r) t → Shown path_unescape query_unescape r t
  in_query :
      {t : Bytes} → Decoded query_unescape 2 r.raw_query t → Shown path_unescape query_unescape r t

-- A reason for the path or the query, before or after decoding, is a reason.
reasons_kept :
    (a b c d : Option Attack)
    → (is_some (or_else a c) || is_some (or_else b d)) ≡ true
    → is_some (or_else a (or_else b (or_else c d))) ≡ true
reasons_kept (some x) b c d h = refl
reasons_kept none (some x) c d h = refl
reasons_kept none none (some x) d h = refl
reasons_kept none none none d h = h

-- AttackMatch gives a reason for every request whose path or query, as it is or after one or two
-- decodings, holds a null byte or one of `probes` in upper or lower case.
pub attack_match-probe :
    (path_unescape query_unescape : Bytes → Option Bytes) (r : Target) (t : Bytes)
    → Shown path_unescape query_unescape r t
    → has_probe t ≡ true
    → is_some (attack_match path_unescape query_unescape r) ≡ true
unfolding attack_match
attack_match-probe pu qu r t (in_path way) h =
    let found = scan_decoded-probe pu 2 (path_of r) t way h in
    reasons_kept (scan_attack_string (path_of r)) (scan_attack_string r.raw_query)
      (scan_decoded pu 2 (path_of r)) (scan_decoded qu 2 r.raw_query) (ground (arith, found))
attack_match-probe pu qu r t (in_query way) h =
    let found = scan_decoded-probe qu 2 r.raw_query t way h in
    reasons_kept (scan_attack_string (path_of r)) (scan_attack_string r.raw_query)
      (scan_decoded pu 2 (path_of r)) (scan_decoded qu 2 r.raw_query) (ground (arith, found))
