-- ===== src/AddressLists/Allowlist/Agents.antt =====
-- internal/allowlist/allowlist.go: which User-Agents a loaded list allows.
use ravenguard.Common.{
  ◌≡◌, refl, ap, ◌∙◌, inl, inr, Bool, true, false, ◌||◌, Option, none, some, List, [], ◌∷◌, Bytes,
  str_eq, All, arith, Bool-cases, Instant,
}
use ravenguard.Common.Net.{Net}
use ravenguard.Common.Ascii.{trim_space, to_lower, contains}
use ravenguard.Faststr.Folding.{IsLower, fold_searches}
use ravenguard.AddressLists.Lines.{Files, all_lines, lower_lines, load, ip_lines}
use ravenguard.AddressLists.Allowlist.{HeaderRule, header_lines, Sets, load_sets, stored, any_agent}

-- Some text of a list stands in another.
abbrev pub stands_in : Bytes → List Bytes → Bool
stands_in ua [] = false
stands_in ua (p ∷ ps) = contains ua p || stands_in ua ps

to_lower-IsLower : (s : Bytes) → IsLower (to_lower s)
to_lower-IsLower [] = tt
to_lower-IsLower (c ∷ s) = (ground arith, to_lower-IsLower s)

-- An entry of a list: not empty, and in lower case.
abbrev IsEntry : Bytes → Type 0
IsEntry p = (str_eq p [] ≡ false) × IsLower p

lower_lines-IsEntry : (lines : List Bytes) → All IsEntry (lower_lines lines)
unfolding lower_lines
lower_lines-IsEntry [] = tt
lower_lines-IsEntry (x ∷ xs) = elim (Bool-cases (str_eq (to_lower (trim_space x)) [])) [
  | inl empty ↦ rw empty (lower_lines-IsEntry xs)
  | inr full ↦ rw full ((full, to_lower-IsLower (trim_space x)), lower_lines-IsEntry xs)
]

any_agent-stands_in :
    (uas : List Bytes) (ua : Bytes)
    → All IsEntry uas
    → any_agent uas ua ≡ stands_in (to_lower ua) uas
unfolding any_agent
any_agent-stands_in [] ua h = refl
any_agent-stands_in (p ∷ ps) ua ((full, low), h) =
    rw (full, (fold_searches ua p low).0, any_agent-stands_in ps ua h)

module _ (net : Net) where
  stored_uas :
      (s loaded : Sets net) (ips : Option (List net.Cidr)) (made : Option (List Bytes))
      (headers : Option (List HeaderRule)) (uas : List Bytes)
      → made ≡ some uas
      → (stored net s ips made headers loaded).1 ≡ true
      → (stored net s ips made headers loaded).0.uas ≡ uas
  stored_uas s loaded none made headers uas e ok = cc
  stored_uas s loaded (some ips) none headers uas e ok = cc
  stored_uas s loaded (some ips) (some made) none uas e ok = cc
  stored_uas s loaded (some ips) (some made) (some headers) uas e ok = cc

  -- After Load has succeeded, a User-Agent is allowed exactly if, in lower case, it contains a line of
  -- the files of User-Agents in lower case.
  pub load_sets-any_agent :
      (files : Files) (now : Instant) (ip_files ua_files header_files lines : List Bytes)
      (s : Sets net) (ua : Bytes)
      → all_lines files ua_files ≡ some lines
      → (load_sets net files now ip_files ua_files header_files s).1 ≡ true
      → any_agent (load_sets net files now ip_files ua_files header_files s).0.uas ua
        ≡ stands_in (to_lower ua) (lower_lines lines)
  unfolding load_sets
  load_sets-any_agent files now ip_files ua_files header_files lines s ua read ok =
      ap (λ uas. any_agent uas ua)
        (stored_uas s _ (load (ip_lines net) (all_lines files ip_files)) _
          (load header_lines (all_lines files header_files)) (lower_lines lines)
          (ap (load lower_lines) read) ok)
      ∙ any_agent-stands_in (lower_lines lines) ua (lower_lines-IsEntry lines)
