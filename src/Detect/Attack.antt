-- ===== src/Detect/Attack.antt =====
-- internal/detect/attack.go: the search for attack signatures in the path and the query. The two
-- functions of package net/url that undo an encoding are parameters, none being an error.
pub mod Listed
pub mod Probes
mod Tests
use ravenguard.Common.{
  ℕ, zero, suc, ◌+◌, Bool, true, false, ◌&&◌, ◌||◌, Option, none, some, List, [], ◌∷◌, ◌==◌,
  if◌then◌else◌, Bytes, bytes, str_eq,
}
use ravenguard.Common.Ascii.{contains}
use ravenguard.Faststr.{contains_fold, append_lower_ascii, contains_bytes}

-- The reason codes; none stands for the empty text.
pub data Attack : Type 0 where
  null_byte : Attack
  path_traversal : Attack
  injection_probe : Attack

-- The fields of a URL that AttackMatch reads.
pub record Target : Type 0 where
  pub path : Bytes
  pub raw_path : Bytes
  pub raw_query : Bytes

abbrev pub attack_subs : List Bytes
attack_subs =
    bytes "union select"
    ∷ bytes "union%20select"
    ∷ bytes "union+select"
    ∷ bytes "' or '1'='1"
    ∷ bytes "' or 1=1"
    ∷ bytes "\" or \"1\"=\"1"
    ∷ bytes "sleep("
    ∷ bytes "benchmark("
    ∷ bytes "waitfor delay"
    ∷ bytes "<script"
    ∷ bytes "%3cscript"
    ∷ bytes "javascript:"
    ∷ bytes "onerror="
    ∷ bytes "onload="
    ∷ bytes "/etc/passwd"
    ∷ bytes "c:\\windows"
    ∷ bytes "file://"
    ∷ bytes "{{"
    ∷ bytes "${jndi:"
    ∷ bytes "#{"
    ∷ bytes "xp_cmdshell"
    ∷ bytes "information_schema"
    ∷ bytes "into outfile"
    ∷ bytes "load_file("
    ∷ bytes "||id"
    ∷ bytes ";powershell"
    ∷ bytes "|powershell"
    ∷ bytes ";cmd.exe"
    ∷ bytes "nc -e"
    ∷ bytes "/dev/tcp/"
    ∷ bytes ";cat "
    ∷ bytes "|cat "
    ∷ bytes ";ls "
    ∷ bytes "|ls "
    ∷ bytes ";chmod"
    ∷ bytes "|chmod"
    ∷ bytes ";wget"
    ∷ bytes "|wget"
    ∷ bytes ";curl"
    ∷ bytes "|curl"
    ∷ bytes ";nc "
    ∷ bytes "|nc "
    ∷ bytes ";ncat"
    ∷ bytes "|ncat"
    ∷ []

-- What scanAttackString looks for as a traversal and as the name of a file.
abbrev pub traversals : List Bytes
traversals =
    bytes "../"
    ∷ bytes "..\\"
    ∷ bytes "%2e%2e/"
    ∷ bytes "%2e%2e%2f"
    ∷ bytes "..%2f"
    ∷ bytes "%2e%2e\\"
    ∷ bytes "..;/"
    ∷ bytes "/.;/"
    ∷ []

abbrev pub file_names : List Bytes
file_names = bytes "/etc/passwd" ∷ bytes "c:\\windows" ∷ []

unfoldable pub contains_byte : Bytes → ℕ → Bool
contains_byte [] c = false
contains_byte (b ∷ s) c = b == c || contains_byte s c

-- indexByte from a place on; none stands for -1.
unfoldable pub index_byte : ℕ → Bytes → ℕ → Option ℕ
index_byte i [] c = none
index_byte i (b ∷ s) c = let rest = index_byte (i + 1) s c in if b == c then some i else rest

abbrev pub is_some : {A : Type 0} → Option A → Bool
is_some none = false
is_some (some x) = true

-- The characters of the switch of mayHaveInjection.
abbrev pub is_mark : ℕ → Bool
is_mark c = contains_byte (bytes "<'\"{$#\\+%();*` :_|") c

unfoldable pub may_have_injection : Bytes → Bool
unfolding contains_byte
may_have_injection [] = false
may_have_injection (c ∷ s) = is_mark c || may_have_injection s

-- One of some texts stands in a text, up to the case of letters and as it is.
unfoldable pub any_fold : List Bytes → Bytes → Bool
any_fold [] s = false
any_fold (p ∷ ps) s = contains_fold s p || any_fold ps s

unfoldable pub any_bytes : List Bytes → Bytes → Bool
any_bytes [] s = false
any_bytes (p ∷ ps) s = contains_bytes s p || any_bytes ps s

unfoldable pub scan_attack_string : Bytes → Option Attack
scan_attack_string [] = none
scan_attack_string (c ∷ s) =
    if contains_byte (c ∷ s) 0 || contains_fold (c ∷ s) (bytes "%00")
    then some null_byte
    else if any_fold traversals (c ∷ s)
    then some path_traversal
    else if any_fold file_names (c ∷ s)
    then some injection_probe
    else if may_have_injection (c ∷ s) && any_bytes attack_subs (append_lower_ascii (c ∷ s))
    then some injection_probe
    else none

-- The first of two reasons that is not empty.
abbrev pub or_else : Option Attack → Option Attack → Option Attack
or_else none b = b
or_else (some a) b = some a

-- One turn of the loop of scanDecoded after the call of unescape.
abbrev pub check_decoded : (Bytes → Option Attack) → Bytes → Option Bytes → Option Attack
check_decoded next s none = none
check_decoded next s (some dec) =
    if str_eq dec s then none else or_else (scan_attack_string dec) (next dec)

-- The loop of scanDecoded, with the turns that are left.
unfoldable pub scan_decoded : (Bytes → Option Bytes) → ℕ → Bytes → Option Attack
scan_decoded unescape zero s = none
scan_decoded unescape (suc n) s =
    if is_some (index_byte 0 s b'%')
    then check_decoded (scan_decoded unescape n) s (unescape s)
    else none

abbrev pub path_of : Target → Bytes
path_of r = if str_eq r.raw_path [] then r.path else r.raw_path

unfoldable pub attack_match :
    (Bytes → Option Bytes) → (Bytes → Option Bytes) → Target → Option Attack
attack_match path_unescape query_unescape r = or_else (scan_attack_string (path_of r)) (
    or_else (scan_attack_string r.raw_query) (
      or_else (scan_decoded path_unescape 2 (path_of r))
        (scan_decoded query_unescape 2 r.raw_query)))
