-- ===== src/AddressLists/Lines.antt =====
-- internal/blocklist/blocklist.go and internal/allowlist/allowlist.go: readLines, the loaders and what
-- they make of a line. The lines that a bufio.Scanner gives of a file are a parameter, none being an
-- error of opening or reading it.
use mathlib.Core.List.{reverse}
use ravenguard.Common.{
  ℕ, zero, suc, Bool, true, false, ◌&&◌, ◌||◌, not, Option, none, some, List, [], ◌∷◌, ◌++◌, ◌==◌,
  if◌then◌else◌, Bytes, bytes, str_eq, length, drop,
}
use ravenguard.Common.Ascii.{trim_space, to_lower, has_prefix, is_space}
use ravenguard.Common.Net.{Net}

abbrev pub Files : Type 0
Files = Bytes → Option (List Bytes)

abbrev any_byte : (ℕ → Bool) → Bytes → Bool
any_byte p [] = false
any_byte p (c ∷ s) = p c || any_byte p s

-- The text before the first place of a byte, or the whole text.
unfoldable pub before : ℕ → Bytes → Bytes
before mark [] = []
before mark (c ∷ s) = let rest = before mark s in if c == mark then [] else c ∷ rest

unfoldable pub kept_lines : List Bytes → List Bytes
unfolding before str_eq trim_space has_prefix
kept_lines [] = []
kept_lines (text ∷ texts) =
    let rest = kept_lines texts in
    let line = trim_space text in
    let cut = if any_byte (λ c. c == b'#') line then trim_space (before b'#' line) else line in
    if str_eq line [] || has_prefix line (b'#' ∷ [])
    then rest
    else if str_eq cut []
    then rest
    else cut ∷ rest

abbrev lines_of : Option (List Bytes) → Option (List Bytes)
lines_of none = none
lines_of (some texts) = some (kept_lines texts)

-- readLines
unfoldable pub read_lines : Files → Bytes → Option (List Bytes)
unfolding kept_lines
read_lines files path = lines_of (files path)

abbrev joined_lines : Option (List Bytes) → Option (List Bytes) → Option (List Bytes)
joined_lines none rest = none
joined_lines (some xs) none = none
joined_lines (some xs) (some ys) = some (xs ++ ys)

-- The outer loop of the loaders: the lines of all files, or the first error.
unfoldable pub all_lines : Files → List Bytes → Option (List Bytes)
unfolding read_lines
all_lines files [] = some []
all_lines files (f ∷ fs) = joined_lines (read_lines files f) (all_lines files fs)

-- loadStringList and loadUAFiles, on the lines.
unfoldable pub lower_lines : List Bytes → List Bytes
unfolding str_eq trim_space
lower_lines [] = []
lower_lines (line ∷ lines) =
    let rest = lower_lines lines in
    let ua = to_lower (trim_space line) in if str_eq ua [] then rest else ua ∷ rest

-- What a loader makes of the lines, unless there was an error.
abbrev pub load {ℓ} : {A : Type ℓ} → (List Bytes → A) → Option (List Bytes) → Option A
load make none = none
load make (some lines) = some (make lines)

abbrev trim_dots : Bytes → Bytes
trim_dots [] = []
trim_dots (c ∷ s) = let rest = trim_dots s in if c == b'.' then rest else c ∷ s

-- strings.Trim with a dot.
unfoldable pub trim_dot : Bytes → Bytes
trim_dot s = reverse (trim_dots (reverse (trim_dots s)))

abbrev drop_spaces : Bytes → Bytes
drop_spaces [] = []
drop_spaces (c ∷ s) = let rest = drop_spaces s in if is_space c then rest else c ∷ rest

abbrev pub dot : ℕ
dot = b'.'

-- The last loop of normalizeHost: each round but the last drops two bytes, so the length of the text is
-- enough fuel.
unfoldable pub strip_stars : ℕ → Bytes → Bytes
unfolding trim_dot has_prefix
strip_stars zero h = trim_dot h
strip_stars (suc fuel) h =
    let h = trim_dot h in
    let rest = strip_stars fuel (drop 2 h) in if has_prefix h (bytes "*.") then rest else h

abbrev is_none {ℓ} : {A : Type ℓ} → Option A → Bool
is_none none = true
is_none (some a) = false

abbrev onto {ℓ} : {A : Type ℓ} → Option A → List A → List A
onto none rest = rest
onto (some a) rest = a ∷ rest

-- Whether a text is a key of a map with empty values.
unfoldable pub listed : List Bytes → Bytes → Bool
unfolding str_eq
listed [] h = false
listed (d ∷ ds) h = str_eq d h || listed ds h

module _ (net : Net) where
  unfoldable pub normalize_host : Bytes → Bytes
  unfolding before strip_stars trim_space
  normalize_host h =
      let h = drop_spaces (to_lower (trim_space h)) in
      let h = before b'/' h in
      let ported = any_byte (λ c. c == b':') h && not (any_byte (λ c. c == b']') h) in
      let h = if ported && is_none (net.parse_ip h) then before b':' h else h in
      strip_stars (length h) h

  -- loadStringFiles with hosts, on the lines: the keys of the map.
  unfoldable pub host_lines : List Bytes → List Bytes
  unfolding normalize_host str_eq listed
  host_lines [] = []
  host_lines (line ∷ lines) =
      let rest = host_lines lines in
      let h = normalize_host line in if str_eq h [] || listed rest h then rest else h ∷ rest

  abbrev alone : Option net.Ip → Option net.Cidr
  alone none = none
  alone (some ip) = some (net.host_net ip)

  unfoldable pub parse_ip_or_cidr : Bytes → Option net.Cidr
  unfolding trim_space
  parse_ip_or_cidr s =
      let s = trim_space s in
      if any_byte (λ c. c == b'/') s then net.parse_cidr s else alone (net.parse_ip s)

  -- loadIPFiles, on the lines: a line that does not parse is left out.
  unfoldable pub ip_lines : List Bytes → List net.Cidr
  unfolding parse_ip_or_cidr
  ip_lines [] = []
  ip_lines (line ∷ lines) = onto (parse_ip_or_cidr line) (ip_lines lines)

  -- The loops over the networks of IPBlocked and matchIP.
  unfoldable pub any_net : List net.Cidr → net.Ip → Bool
  any_net [] ip = false
  any_net (n ∷ ns) ip = net.holds n ip || any_net ns ip
