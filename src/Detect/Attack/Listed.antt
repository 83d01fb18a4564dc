-- ===== src/Detect/Attack/Listed.antt =====
-- internal/detect/attack.go: the probes that AttackMatch is to find, and its tables of texts.
use ravenguard.Common.{
  ◌≡◌, refl, ap, ◌∙◌, Bool, true, false, ◌||◌, List, [], ◌∷◌, ◌++◌, if◌then◌else◌, Bytes, bytes,
  arith,
}
use ravenguard.Common.Ascii.{to_lower, contains, has_prefix}
use ravenguard.Detect.Attack.{
  attack_subs, traversals, file_names, contains_byte, may_have_injection, any_bytes,
}

-- Texts that attackers probe a site with, in lower case: traversals, names of files, and injections of
-- SQL, scripts and commands. The event handlers onerror= and onload= and the path /dev/tcp/ are not
-- among them: AttackMatch can miss them.
abbrev pub probes : List Bytes
probes =
    bytes "../"
    ∷ bytes "..\\"
    ∷ bytes "%2e%2e/"
    ∷ bytes "%2e%2e%2f"
    ∷ bytes "..%2f"
    ∷ bytes "%2e%2e\\"
    ∷ bytes "..;/"
    ∷ bytes "/.;/"
    ∷ bytes "/etc/passwd"
    ∷ bytes "c:\\windows"
    ∷ bytes "union select"
    ∷ bytes "union%20select"
    ∷ bytes "union+select"
    ∷ bytes "' or '1'='1"
    ∷ bytes "' or 1=1"
    ∷ bytes "\" or \"1\"=\"1"
    ∷ bytes "sleep("
    ∷ bytes "benchmark("
    ∷ bytes "waitfor delay"
    ∷ bytes "<script"
    ∷ bytes "%3cscript"
    ∷ bytes "javascript:"
    ∷ bytes "c:\\windows"
    ∷ bytes "file://"
    ∷ bytes "{{"
    ∷ bytes "${jndi:"
    ∷ bytes "#{"
    ∷ bytes "xp_cmdshell"
    ∷ bytes "information_schema"
    ∷ bytes "into outfile"
    ∷ bytes "load_file("
    ∷ bytes "||id"
    ∷ bytes ";powershell"
    ∷ bytes "|powershell"
    ∷ bytes ";cmd.exe"
    ∷ bytes "nc -e"
    ∷ bytes ";cat "
    ∷ bytes "|cat "
    ∷ bytes ";ls "
    ∷ bytes "|ls "
    ∷ bytes ";chmod"
    ∷ bytes "|chmod"
    ∷ bytes ";wget"
    ∷ bytes "|wget"
    ∷ bytes ";curl"
    ∷ bytes "|curl"
    ∷ bytes ";nc "
    ∷ bytes "|nc "
    ∷ bytes ";ncat"
    ∷ bytes "|ncat"
    ∷ []

abbrev holds_one : List Bytes → Bytes → Bool
holds_one [] t = false
holds_one (p ∷ ps) t = contains t p || holds_one ps t

-- A text with a null byte, or with one of the probes in lower or upper case.
abbrev pub has_probe : Bytes → Bool
has_probe t = contains t (0 ∷ []) || holds_one probes (to_lower t)

-- The texts of a list that hold a character that mayHaveInjection knows.
unfoldable pub marked : List Bytes → List Bytes
marked [] = []
marked (p ∷ ps) = let rest = marked ps in if may_have_injection p then p ∷ rest else rest

-- What scanAttackString finds by its tables.
unfoldable pub in_tables : Bytes → Bool
in_tables t =
    contains_byte t 0
    || any_bytes traversals (to_lower t)
    || any_bytes file_names (to_lower t)
    || any_bytes (marked attack_subs) (to_lower t)

probes_listed : probes ≡ traversals ++ file_names ++ marked attack_subs
unfolding marked may_have_injection contains_byte
probes_listed = refl

holds_one-append :
    (ps qs : List Bytes) (t : Bytes) → holds_one (ps ++ qs) t ≡ (any_bytes ps t || holds_one qs t)
unfolding any_bytes
holds_one-append [] qs t = refl
holds_one-append (p ∷ ps) qs t = ground (arith, holds_one-append ps qs t)

holds_one-any_bytes : (ps : List Bytes) (t : Bytes) → holds_one ps t ≡ any_bytes ps t
unfolding any_bytes
holds_one-any_bytes [] t = refl
holds_one-any_bytes (p ∷ ps) t = ground (arith, holds_one-any_bytes ps t)

null-contains_byte : (t : Bytes) → contains t (0 ∷ []) ≡ contains_byte t 0
unfolding contains has_prefix contains_byte
null-contains_byte [] = refl
null-contains_byte (c ∷ t) = ground (arith, null-contains_byte t)

pub has_probe-in_tables : (t : Bytes) → has_probe t ≡ true → in_tables t ≡ true
unfolding in_tables
has_probe-in_tables t h =
    let low = to_lower t in
    let listed = ap (λ ps. holds_one ps low) probes_listed in
    let first = holds_one-append traversals (file_names ++ marked attack_subs) low in
    let second = holds_one-append file_names (marked attack_subs) low in
    let third = holds_one-any_bytes (marked attack_subs) low in
    let all = listed ∙ first in
    by_parts (contains_byte t 0) (any_bytes traversals low) (any_bytes file_names low)
      (any_bytes (marked attack_subs) low) (contains t (0 ∷ [])) (holds_one probes low)
      (holds_one (file_names ++ marked attack_subs) low) (null-contains_byte t) all
      (second ∙ ap (λ (b : Bool). any_bytes file_names low || b) third) h
  where
    by_parts :
        (n a b c n' whole rest : Bool)
        → n' ≡ n
        → whole ≡ (a || rest)
        → rest ≡ (b || c)
        → (n' || whole) ≡ true
        → (n || a || b || c) ≡ true
    by_parts n a b c n' whole rest p q r h = ground (arith, p, q, r, h)
