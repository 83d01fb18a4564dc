-- ===== src/AddressLists/Allowlist.antt =====
-- internal/allowlist/allowlist.go: Sets.
pub mod Agents
use ravenguard.Common.{
  ℕ, zero, suc, ◌+◌, Bool, true, false, ◌&&◌, ◌||◌, not, Option, none, some, List, [], ◌∷◌, ◌++◌,
  leb, ◌==◌, if◌then◌else◌, Bytes, str_eq, length, Instant,
}
use ravenguard.Common.Ascii.{trim_space}
use ravenguard.Common.Net.{Net}
use ravenguard.Faststr.{contains_fold}
use ravenguard.AddressLists.Lines.{Files, all_lines, lower_lines, load, ip_lines, any_net}

pub record HeaderRule : Type 0 where
  pub name : Bytes
  pub value : Bytes

abbrev onto_first : ℕ → Option (Bytes × Bytes) → Option (Bytes × Bytes)
onto_first c none = none
onto_first c (some (before, behind)) = some (c ∷ before, behind)

-- The texts before and behind the first colon.
unfoldable pub at_colon : Bytes → Option (Bytes × Bytes)
at_colon [] = none
at_colon (c ∷ s) = let rest = onto_first c (at_colon s) in if c == b':' then some ([], s) else rest

abbrev named_rule : Option (Bytes × Bytes) → Option HeaderRule
named_rule none = none
named_rule (some (before, behind)) =
    if str_eq before [] || str_eq (trim_space before) []
    then none
    else some (record { name = trim_space before; value = trim_space behind })

unfoldable pub parse_header_line : Bytes → Option HeaderRule
unfolding at_colon str_eq trim_space
parse_header_line line = named_rule (at_colon (trim_space line))

abbrev onto_rules : Option HeaderRule → List HeaderRule → List HeaderRule
onto_rules none rest = rest
onto_rules (some r) rest = r ∷ rest

-- loadHeaderFiles, on the lines.
unfoldable pub header_lines : List Bytes → List HeaderRule
unfolding parse_header_line
header_lines [] = []
header_lines (line ∷ lines) = onto_rules (parse_header_line line) (header_lines lines)

-- The loop of matchUA.
unfoldable pub any_agent : List Bytes → Bytes → Bool
unfolding str_eq contains_fold
any_agent [] ua = false
any_agent (p ∷ ps) ua = not (str_eq p []) && contains_fold ua p || any_agent ps ua

-- The loop of matchHeaders, with Header.Get.
unfoldable pub any_header : List HeaderRule → (Bytes → Bytes) → Bool
unfolding str_eq
any_header [] get = false
any_header (rule ∷ rules) get =
    not (str_eq rule.name []) && str_eq (get rule.name) rule.value || any_header rules get

module _ (net : Net) where
  pub record Sets : Type 0 where
    pub ips : List net.Cidr
    pub uas : List Bytes
    pub headers : List HeaderRule
    pub last_reload : Instant
    pub ip_files : List Bytes
    pub ua_files : List Bytes
    pub header_files : List Bytes

  abbrev pub new : Sets
  new = record {
    ips = [];
    uas = [];
    headers = [];
    last_reload = 0;
    ip_files = [];
    ua_files = [];
    header_files = [];
  }

  abbrev pub stored :
      Sets
      → Option (List net.Cidr)
      → Option (List Bytes)
      → Option (List HeaderRule)
      → Sets
      → Sets × Bool
  stored s none uas headers loaded = (s, false)
  stored s (some ips) none headers loaded = (s, false)
  stored s (some ips) (some uas) none loaded = (s, false)
  stored s (some ips) (some uas) (some headers) loaded =
      (record loaded { ips = ips; uas = uas; headers = headers }, true)

  -- Load; an error is false.
  unfoldable pub load_sets :
      Files → Instant → List Bytes → List Bytes → List Bytes → Sets → Sets × Bool
  unfolding all_lines ip_lines lower_lines header_lines
  load_sets files now ip_files ua_files header_files s =
      stored s (load (ip_lines net) (all_lines files ip_files))
        (load lower_lines (all_lines files ua_files))
        (load header_lines (all_lines files header_files))
        (record s {
          ip_files = ip_files;
          ua_files = ua_files;
          header_files = header_files;
          last_reload = now;
        })

  unfoldable pub reload : Files → Instant → Sets → Sets
  unfolding load_sets
  reload files now s = (load_sets files now s.ip_files s.ua_files s.header_files s).0

  unfoldable pub stats : Sets → ℕ × ℕ × ℕ × Instant
  stats s = (length s.ips, length s.uas, length s.headers, s.last_reload)

  unfoldable pub is_empty : Sets → Bool
  unfolding stats
  is_empty s = (stats s).0 == 0 && ((stats s).1 == 0 && (stats s).2 == 0)

  unfoldable pub match_ip : Sets → Option net.Ip → Bool
  unfolding any_net
  match_ip s none = false
  match_ip s (some ip) = any_net net s.ips ip

  -- Match, of Sets and a header that are not nil.
  unfoldable pub matches : Sets → Option net.Ip → Bytes → (Bytes → Bytes) → Bool
  unfolding match_ip any_agent any_header
  matches s ip ua get =
      if match_ip s ip then true else if any_agent s.uas ua then true else any_header s.headers get
