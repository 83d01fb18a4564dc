-- ===== src/AddressLists/Reload.antt =====
-- internal/blocklist/blocklist.go: Load replaces all three lists or none.
use ravenguard.Common.{
  ◌≡◌, refl, ◌⊎◌, inl, inr, Bool, true, false, Option, none, some, List, [], ◌∷◌, ◌++◌, Bytes,
  Instant, Option-cases,
}
use ravenguard.Common.Net.{Net}
use ravenguard.AddressLists.Lines.{
  Files, all_lines, read_lines, kept_lines, lower_lines, load, host_lines, ip_lines,
}
use ravenguard.AddressLists.Blocklist.{Sets, load_sets, stored}

-- All files of a list can be read, and their lines follow each other in the order of the list.
pub data Read (files : Files) : List Bytes → List Bytes → Type 0 where
  no_file : Read files [] []
  next_file :
      {f : Bytes} {fs texts lines : List Bytes}
      → files f ≡ some texts
      → Read files fs lines
      → Read files (f ∷ fs) (kept_lines texts ++ lines)

-- One of the files of a list cannot be read.
pub data Fails (files : Files) : List Bytes → Type 0 where
  this_file : {f : Bytes} {fs : List Bytes} → files f ≡ none → Fails files (f ∷ fs)
  later_file : {f : Bytes} {fs : List Bytes} → Fails files fs → Fails files (f ∷ fs)

-- What a list of files gives: its lines, or an error.
abbrev Gives : Files → List Bytes → Option (List Bytes) → Type 0
Gives files names none = Fails files names
Gives files names (some lines) = Read files names lines

after_file :
    (files : Files) (f : Bytes) (fs : List Bytes) (rest : Option (List Bytes))
    → Gives files fs rest
    → all_lines files fs ≡ rest
    → Gives files (f ∷ fs) (all_lines files (f ∷ fs))
unfolding all_lines read_lines
after_file files f fs rest g e = elim (Option-cases (files f)) [
  | inl missing ↦ rw missing (this_file missing)
  | inr (texts, there) ↦ joined rest g e texts there
]
  where
    joined :
        (rest : Option (List Bytes))
        → Gives files fs rest
        → all_lines files fs ≡ rest
        → (texts : List Bytes) → files f ≡ some texts
        → Gives files (f ∷ fs) (all_lines files (f ∷ fs))
    joined none g e texts there = rw (there, e) (later_file g)
    joined (some lines) g e texts there = rw (there, e) (next_file there g)

all_lines-Gives : (files : Files) (names : List Bytes) → Gives files names (all_lines files names)
all_lines-Gives files [] = unfold all_lines in no_file
all_lines-Gives files (f ∷ fs) =
    after_file files f fs (all_lines files fs) (all_lines-Gives files fs) refl

module _ (net : Net) where
  -- Each list of a set is made of all the lines of its files.
  pub record IsOf (files : Files) (ip_files dns_files ua_files : List Bytes) (s : Sets net)
      : Type 0 where
    pub ips : (lines : List Bytes) × Read files ip_files lines × (s.ips ≡ ip_lines net lines)
    pub dns : (lines : List Bytes) × Read files dns_files lines × (s.dns ≡ host_lines net lines)
    pub uas : (lines : List Bytes) × Read files ua_files lines × (s.uas ≡ lower_lines lines)

  abbrev pub AllOrNothing :
      Files → List Bytes → List Bytes → List Bytes → Sets net → Sets net × Bool → Type 0
  AllOrNothing files ip_files dns_files ua_files s r =
      ((r.1 ≡ false)
        × (r.0 ≡ s)
        × (Fails files ip_files ⊎ (Fails files dns_files ⊎ Fails files ua_files)))
      ⊎ ((r.1 ≡ true) × IsOf files ip_files dns_files ua_files r.0)

  stored-AllOrNothing :
      (files : Files) (ip_files dns_files ua_files : List Bytes) (s loaded : Sets net)
      (ips dns uas : Option (List Bytes))
      → Gives files ip_files ips
      → Gives files dns_files dns
      → Gives files ua_files uas
      → AllOrNothing files ip_files dns_files ua_files s (
          stored net s
            (load (ip_lines net) ips)
            (load (host_lines net) dns)
            (load lower_lines uas)
            loaded)
  stored-AllOrNothing files i d u s loaded none dns uas a b c = inl (refl, refl, inl a)
  stored-AllOrNothing files i d u s loaded (some ips) none uas a b c = inl (refl, refl, inr (inl b))
  stored-AllOrNothing files i d u s loaded (some ips) (some dns) none a b c =
      inl (refl, refl, inr (inr c))
  stored-AllOrNothing files i d u s loaded (some ips) (some dns) (some uas) a b c =
      inr (refl, record { ips = (ips, a, refl); dns = (dns, b, refl); uas = (uas, c, refl) })

  -- A Load either fails, leaves the sets as they were, and one of the named files cannot be read; or
  -- it succeeds, all named files can be read, and each list is made of all their lines in order.
  pub load_sets-AllOrNothing :
      (files : Files) (now : Instant) (ip_files dns_files ua_files : List Bytes) (s : Sets net)
      → AllOrNothing files ip_files dns_files ua_files s
          (load_sets net files now ip_files dns_files ua_files s)
  unfolding load_sets
  load_sets-AllOrNothing files now ip_files dns_files ua_files s =
      stored-AllOrNothing files ip_files dns_files ua_files s _ _ _ _
        (all_lines-Gives files ip_files) (all_lines-Gives files dns_files)
        (all_lines-Gives files ua_files)
