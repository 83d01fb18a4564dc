-- ===== src/AddressLists/Hosts.antt =====
-- internal/blocklist/blocklist.go: which hosts a loaded list blocks.
use ravenguard.Common.{
  ℕ, ◌≡◌, ◌≢◌, refl, sym, ap, ◌∙◌, ◌↔◌, ◌⊎◌, inl, inr, Bool, true, false, ◌&&◌, ◌||◌, Option, none,
  some, List, [], ◌∷◌, ◌++◌, ◌==◌, if◌then◌else◌, Bytes, str_eq, str_eq_iff, str_eq_refl, arith,
  Bool-cases, Instant, if_both,
}
use ravenguard.Common.Net.{Net}
use ravenguard.AddressLists.Lines.{
  Files, all_lines, lower_lines, load, dot, normalize_host, host_lines, ip_lines, listed,
}
use ravenguard.AddressLists.Blocklist.{Sets, load_sets, parent_listed, dns_blocked, stored}

-- A host is another one or below it.
abbrev pub IsUnder : Bytes → Bytes → Type 0
IsUnder h d = (h ≡ d) ⊎ ((sub : Bytes) × (h ≡ sub ++ dot ∷ d))

-- A listed name that a host is under.
abbrev Parent : List Bytes → Bytes → Type 0
Parent dns h = (sub d : Bytes) × (listed dns d ≡ true) × (h ≡ sub ++ dot ∷ d)

under_cons : (c : ℕ) (h d : Bytes) (dns : List Bytes) → Parent dns h → Parent dns (c ∷ h)
under_cons c h d dns (sub, e, l, p) = (c ∷ sub, e, l, ap (λ t. c ∷ t) p)

ancestor_found : (dns : List Bytes) (h : Bytes) → parent_listed dns h ≡ true → Parent dns h
unfolding parent_listed
ancestor_found dns [] p = cc
ancestor_found dns (c ∷ h) p = elim (Bool-cases (c == dot && listed dns h)) [
  | inl here ↦ ([], h, ground (arith, here), ground (arith, here))
  | inr on ↦ under_cons c h [] dns (ancestor_found dns h (ground (arith, p, on)))
]

ancestor_complete :
    (dns : List Bytes) (sub d : Bytes)
    → listed dns d ≡ true
    → parent_listed dns (sub ++ dot ∷ d) ≡ true
unfolding parent_listed
ancestor_complete dns [] d l = rw l refl
ancestor_complete dns (c ∷ sub) d l = ground (arith, ancestor_complete dns sub d l)

module _ (net : Net) where
  -- A line of a file that names a host.
  abbrev pub Line : List Bytes → Bytes → Type 0
  Line lines d =
      (line : Bytes) × (listed lines line ≡ true) × (normalize_host net line ≡ d) × (d ≢ [])

  widen : (x : Bytes) (xs : List Bytes) (d : Bytes) → Line xs d → Line (x ∷ xs) d
  unfolding listed
  widen x xs d (line, l, e, filled) = (line, ground (arith, l), e, filled)

  host_lines_sound :
      (lines : List Bytes) (d : Bytes) → listed (host_lines net lines) d ≡ true → Line lines d
  unfolding host_lines listed
  host_lines_sound [] d l = cc
  host_lines_sound (x ∷ xs) d l =
      let h = normalize_host net x in
      let rest = host_lines net xs in
      elim (Bool-cases (str_eq h [] || listed rest h)) [
        | inl old ↦ widen x xs d (host_lines_sound xs d (ground (arith, l, old)))
        | inr new ↦ elim (Bool-cases (str_eq h d)) [
          | inr other ↦ widen x xs d (host_lines_sound xs d (ground (arith, l, new, other)))
          | inl same ↦
              let e : h ≡ d = (str_eq_iff h d).0 same in
              (
                x,
                ground (arith, str_eq_refl x),
                e,
                λ empty. ground (arith, new, (str_eq_iff h []).1 (e ∙ empty)),
              )
        ]
      ]

  host_lines_complete :
      (lines : List Bytes) (line d : Bytes)
      → listed lines line ≡ true
      → normalize_host net line ≡ d
      → d ≢ []
      → listed (host_lines net lines) d ≡ true
  unfolding host_lines listed
  host_lines_complete [] line d l e filled = cc
  host_lines_complete (x ∷ xs) line d l e filled =
      let h = normalize_host net x in
      let rest = host_lines net xs in
      elim (Bool-cases (str_eq x line)) [
        | inr other ↦
            let later : listed rest d ≡ true =
              host_lines_complete xs line d (ground (arith, l, other)) e filled in
            if_both (λ t. listed t d ≡ true) (str_eq h [] || listed rest h) _ _ later
              (ground (arith, later))
        | inl same ↦
            let is_d : h ≡ d = ap (normalize_host net) ((str_eq_iff x line).0 same) ∙ e in
            elim (Bool-cases (str_eq h [] || listed rest h)) [
              | inr new ↦ rw new (ground (arith, (str_eq_iff h d).1 is_d))
              | inl old ↦ elim (Bool-cases (str_eq h [])) [
                | inl empty ↦ absurd (filled (sym is_d ∙ (str_eq_iff h []).0 empty))
                | inr full ↦ rw old (rw (← is_d) (ground (arith, old, full)))
              ]
            ]
      ]

  -- A blocked host is one that a line names, or is below one.
  abbrev pub Blocks : List Bytes → Bytes → Type 0
  Blocks lines h = (d : Bytes) × Line lines d × IsUnder h d

  abbrev lookup : List Bytes → Bytes → Bool
  lookup dns h = if str_eq h [] then false else listed dns h || parent_listed dns h

  lookup-found :
      (dns : List Bytes) (h : Bytes)
      → lookup dns h ≡ true
      → (d : Bytes) × (listed dns d ≡ true) × IsUnder h d
  lookup-found dns h p = elim (Bool-cases (listed dns h)) [
    | inl here ↦ (h, here, inl refl)
    | inr up ↦
        let (sub, d, l, e) = ancestor_found dns h (ground (arith, p, up)) in (d, l, inr (sub, e))
  ]

  behind-ne-nil : (sub d : Bytes) → str_eq (sub ++ dot ∷ d) [] ≡ false
  unfolding str_eq
  behind-ne-nil [] d = refl
  behind-ne-nil (c ∷ sub) d = refl

  lookup_complete :
      (dns : List Bytes) (h d : Bytes)
      → listed dns d ≡ true
      → d ≢ []
      → IsUnder h d
      → lookup dns h ≡ true
  lookup_complete dns h d l filled (inl e) = elim (Bool-cases (str_eq d [])) [
    | inl empty ↦ absurd (filled ((str_eq_iff d []).0 empty))
    | inr full ↦ rw (e, full, l) refl
  ]
  lookup_complete dns h d l filled (inr (sub, e)) =
      rw (e, behind-ne-nil sub d) (ground (arith, ancestor_complete dns sub d l))

  -- The map of the hosts of some lines.
  loaded_hosts :
      (lines : List Bytes) (s : Sets net) (host : Bytes)
      → s.dns ≡ host_lines net lines
      → (dns_blocked net s host ≡ true) ↔ Blocks lines (normalize_host net host)
  unfolding dns_blocked
  loaded_hosts lines s host e = rw e (
    λ p.
        let (d, l, under) = lookup-found (host_lines net lines) (normalize_host net host) p in
        (d, host_lines_sound lines d l, under),
    λ (d, (line, l, named, filled), under).
        lookup_complete (host_lines net lines) (normalize_host net host) d
          (host_lines_complete lines line d l named filled) filled under,
  )

  stored_dns :
      (s loaded : Sets net) (ips : Option (List net.Cidr)) (made : Option (List Bytes))
      (uas : Option (List Bytes)) (dns : List Bytes)
      → made ≡ some dns
      → (stored net s ips made uas loaded).1 ≡ true
      → (stored net s ips made uas loaded).0.dns ≡ dns
  stored_dns s loaded none made uas dns e ok = cc
  stored_dns s loaded (some ips) none uas dns e ok = cc
  stored_dns s loaded (some ips) (some made) none dns e ok = cc
  stored_dns s loaded (some ips) (some made) (some uas) dns e ok = cc

  -- After Load has succeeded, a host is blocked exactly if its normal form is that of a line of the host
  -- files, or ends in it behind a dot.
  pub load_sets-dns_blocked :
      (files : Files) (now : Instant) (ip_files dns_files ua_files lines : List Bytes)
      (s : Sets net) (host : Bytes)
      → all_lines files dns_files ≡ some lines
      → (load_sets net files now ip_files dns_files ua_files s).1 ≡ true
      → (dns_blocked net (load_sets net files now ip_files dns_files ua_files s).0 host ≡ true)
        ↔ Blocks lines (normalize_host net host)
  unfolding load_sets
  load_sets-dns_blocked files now ip_files dns_files ua_files lines s host read ok =
      loaded_hosts lines _ host (
        stored_dns s _ (load (ip_lines net) (all_lines files ip_files)) _
          (load lower_lines (all_lines files ua_files)) (host_lines net lines)
          (ap (load (host_lines net)) read) ok)
