-- ===== src/ThreatShare/Kept.antt =====
-- A host entry of the overlay through later calls of ApplyOne and Sweep.
use ravenguard.Common.{
  ◌≡◌, ◌≢◌, ◌≤◌, ◌<◌, ◌⊎◌, inl, inr, refl, sym, ap, ◌∙◌, Bool, true, false, Option, none, some,
  List, [], ◌∷◌, ◌++◌, arith, Instant, Bytes, bytes, str_eq, str_eq_iff, Bool-cases, ltb, not,
  if_both, if_cases, length, ◌||◌,
}
use ravenguard.Common.Ascii.{trim_space, trim_last_dot, to_lower}
use ravenguard.Common.Dict
use ravenguard.Common.Dict.{Dict, get-put, get-keep}
use ravenguard.Protect.Guard.{Guard}
use ravenguard.ThreatShare.{
  Overlay, ThreatEntry, Targets, expiry, note_seen, apply_key, apply_one, put_ua, put_ip, put_ja4,
  put_dns, is_live, ban_target, ip_target, on_overlay, seen_targets, refuses, dns_blocked, sweep,
}
use ravenguard.ThreatShare.Blocks.{
  targets, kind_of, lookup_name, live-swept, apply_one-live, under_blocked,
}

-- What the overlay of some targets knows of hosts.
abbrev pub hosts_of : Option Overlay → Dict Instant
hosts_of none = []
hosts_of (some o) = o.dns

-- The hosts after a step: as before, or with one more.
abbrev Stepped : Bytes → Bytes → Instant → Dict Instant → Dict Instant → Type 0
Stepped kind name exp m m' = (m' ≡ m) ⊎ ((kind ≡ bytes "dns") × (m' ≡ Dict.put name exp m))

ban-hosts :
    (key : Bytes) (exp now' : Instant) (t : Targets) (g : Option Guard)
    → hosts_of (ban_target key exp now' t g).0.overlay ≡ hosts_of t.overlay
ban-hosts key exp now' t none = refl
ban-hosts key exp now' t (some g) = refl

on_overlay-hosts :
    (f : Overlay → Overlay) (t : Targets) (o : Option Overlay)
    → ((o : Overlay) → (f o).dns ≡ o.dns)
    → t.overlay ≡ o
    → hosts_of (on_overlay f t o).0.overlay ≡ hosts_of t.overlay
on_overlay-hosts f t none h e = refl
on_overlay-hosts f t (some o) h e = h o ∙ ap hosts_of (sym e)

put_dns-hosts :
    (kind key : Bytes) (exp : Instant) (t : Targets) (o : Option Overlay)
    → kind ≡ bytes "dns"
    → t.overlay ≡ o
    → Stepped kind
        (to_lower (trim_last_dot key))
        exp
        (hosts_of t.overlay)
        (hosts_of (on_overlay (put_dns key exp) t o).0.overlay)
unfolding put_dns
put_dns-hosts kind key exp t none k e = inl refl
put_dns-hosts kind key exp t (some o) k e = inr (
  k,
  ap (λ (o : Option Overlay). Dict.put (to_lower (trim_last_dot key)) exp (hosts_of o)) (sym e),
)

note_seen-hosts : (id : Bytes) (o : Overlay) → (note_seen id o).0.dns ≡ o.dns
unfolding note_seen
note_seen-hosts id o =
    if_both Fine (str_eq id []) _ _ refl (if_both Fine (refuses o id) _ _ refl refl)
  where
    Fine : Overlay × Bool → Type 0
    Fine r = r.0.dns ≡ o.dns

module _ (parse_ip : Bytes → Bool) where
  ip_target-hosts :
      (key : Bytes) (exp : Instant) (t : Targets) (o : Option Overlay)
      → t.overlay ≡ o
      → hosts_of (ip_target parse_ip key exp t o).0.overlay ≡ hosts_of t.overlay
  unfolding put_ip
  ip_target-hosts key exp t none e = refl
  ip_target-hosts key exp t (some o) e =
      if_both (λ (r : Targets × Bool). hosts_of r.0.overlay ≡ hosts_of t.overlay)
        (not (parse_ip key)) _ _ refl (ap hosts_of (sym e))

  apply_key-hosts :
      (kind key : Bytes) (exp now' : Instant) (t : Targets)
      → Stepped kind
          (to_lower (trim_last_dot key))
          exp
          (hosts_of t.overlay)
          (hosts_of (apply_key parse_ip kind key exp now' t).0.overlay)
  unfolding apply_key put_ua put_ja4
  apply_key-hosts kind key exp now' t =
      if_both Fine (str_eq kind (bytes "bind") || str_eq kind (bytes "ip_hash")) _ _
        (inl (ban-hosts key exp now' t t.protect))
        (if_both Fine (str_eq kind (bytes "ua")) _ _
          (inl (on_overlay-hosts (put_ua key exp) t t.overlay (λ o. refl) refl))
          (if_both Fine (str_eq kind (bytes "ip")) _ _
            (inl (ip_target-hosts key exp t t.overlay refl))
            (if_both Fine (str_eq kind (bytes "ja4")) _ _
              (inl (on_overlay-hosts (put_ja4 key exp) t t.overlay (λ o. refl) refl))
              (if_cases Fine (str_eq kind (bytes "dns")) _ _
                (λ p.
                  put_dns-hosts kind key exp t t.overlay ((str_eq_iff kind (bytes "dns")).0 p) refl)
                (λ p. inl refl)))))
    where
      Fine : Targets × Bool → Type 0
      Fine r =
          Stepped kind (to_lower (trim_last_dot key)) exp (hosts_of t.overlay)
            (hosts_of r.0.overlay)

  seen-hosts :
      (id : Bytes) (t : Targets) (o : Option Overlay)
      → t.overlay ≡ o
      → hosts_of (seen_targets parse_ip id t o).0.overlay ≡ hosts_of t.overlay
  seen-hosts id t none e = refl
  seen-hosts id t (some o) e = note_seen-hosts id o ∙ ap hosts_of (sym e)

  -- ApplyOne leaves the hosts as they are, or adds the one that it is given.
  apply_one-hosts :
      (e : ThreatEntry) (now now' : Instant) (t : Targets)
      → Stepped
          (kind_of e)
          (lookup_name e.key)
          (expiry e now)
          (hosts_of t.overlay)
          (hosts_of (apply_one parse_ip e now now' t).0.overlay)
  unfolding apply_one
  apply_one-hosts e now now' t =
      let seen = seen_targets parse_ip e.id t t.overlay in
      let kept = seen-hosts e.id t t.overlay refl in
      let applied = apply_key-hosts (kind_of e) (trim_space e.key) (expiry e now) now' seen.0 in
      if_both Fine (str_eq (trim_space e.key) [] || str_eq (kind_of e) []) _ _ (inl refl) (
        if_both Fine (ltb 256 (length (trim_space e.key)) || ltb 128 (length (trim_space e.reason)))
          _ _ (inl refl)
          (if_both Fine (not (ltb now (expiry e now))) _ _ (inl refl)
            (if_both Fine seen.1 _ _ (rw kept at applied) (inl kept))))
    where
      Fine : Targets × Bool → Type 0
      Fine r =
          Stepped (kind_of e) (lookup_name e.key) (expiry e now) (hosts_of t.overlay)
            (hosts_of r.0.overlay)

-- A call of ApplyOne, with its readings of the clock, or a sweep of the overlay.
pub data Change : Type 0 where
  applied : ThreatEntry → Instant → Instant → Change
  swept : Instant → Change

abbrev swept_targets : Instant → Targets → Option Overlay → Targets
swept_targets at t none = t
swept_targets at t (some o) = record t { overlay = some (sweep at o) }

-- What a change may do to the entry of a host that is to hold at a time: another entry for the same
-- name expires later than that time, too, and a sweep does not run later.
abbrev pub Spares : Bytes → Instant → Change → Type 0
Spares name until (applied e at at') =
    (kind_of e ≢ bytes "dns") ⊎ ((lookup_name e.key ≢ name) ⊎ (until < expiry e at))
Spares name until (swept at) = at ≤ until

abbrev pub AllSpare : Bytes → Instant → List Change → Type 0
AllSpare name until [] = Unit
AllSpare name until (c ∷ cs) = Spares name until c × AllSpare name until cs

live-put :
    (name other : Bytes) (exp until : Instant) (m : Dict Instant)
    → (other ≢ name) ⊎ (until < exp)
    → is_live until (Dict.get name m) ≡ true
    → is_live until (Dict.get name (Dict.put other exp m)) ≡ true
live-put name other exp until m (inl ne) h = elim (Bool-cases (str_eq other name)) [
  | inl p ↦ absurd (ne ((str_eq_iff other name).0 p))
  | inr p ↦ rw (get-put other name exp m, p) h
]
live-put name other exp until m (inr later) h = elim (Bool-cases (str_eq other name)) [
  | inl p ↦ rw (get-put other name exp m, p) (ground (arith, later))
  | inr p ↦ rw (get-put other name exp m, p) h
]

swept-live :
    (name : Bytes) (at until : Instant) (t : Targets) (o : Option Overlay)
    → at ≤ until
    → t.overlay ≡ o
    → is_live until (Dict.get name (hosts_of o)) ≡ true
    → is_live until (Dict.get name (hosts_of (swept_targets at t o).overlay)) ≡ true
unfolding sweep
swept-live name at until t none le e h = rw e h
swept-live name at until t (some o) le e h = live-swept name at until o.dns le ∙ h

module _ (parse_ip : Bytes → Bool) where
  abbrev pub changed : Change → Targets → Targets
  changed (applied e at at') t = (apply_one parse_ip e at at' t).0
  changed (swept at) t = swept_targets at t t.overlay

  -- The targets after changes.
  abbrev pub change_all : List Change → Targets → Targets
  change_all [] t = t
  change_all (c ∷ cs) t = change_all cs (changed c t)

  Stepped-live :
      (kind name other : Bytes) (exp until : Instant) (m m' : Dict Instant)
      → (kind ≢ bytes "dns") ⊎ ((other ≢ name) ⊎ (until < exp))
      → Stepped kind other exp m m'
      → is_live until (Dict.get name m) ≡ true
      → is_live until (Dict.get name m') ≡ true
  Stepped-live kind name other exp until m m' s (inl e) h = rw e h
  Stepped-live kind name other exp until m m' (inl ne) (inr (k, e)) h = absurd (ne k)
  Stepped-live kind name other exp until m m' (inr s) (inr (k, e)) h =
      rw e (live-put name other exp until m s h)

  changed-live :
      (name : Bytes) (until : Instant) (c : Change) (t : Targets)
      → Spares name until c
      → is_live until (Dict.get name (hosts_of t.overlay)) ≡ true
      → is_live until (Dict.get name (hosts_of (changed c t).overlay)) ≡ true
  changed-live name until (applied e at at') t s h =
      Stepped-live (kind_of e) name (lookup_name e.key) (expiry e at) until (hosts_of t.overlay)
        (hosts_of (apply_one parse_ip e at at' t).0.overlay) s (apply_one-hosts parse_ip e at at' t)
        h
  changed-live name until (swept at) t s h = swept-live name at until t t.overlay s refl h

  -- An entry that holds at a time is not lost by changes that spare it.
  pub change_all-live :
      (name : Bytes) (until : Instant) (cs : List Change) (t : Targets)
      → AllSpare name until cs
      → is_live until (Dict.get name (hosts_of t.overlay)) ≡ true
      → is_live until (Dict.get name (hosts_of (change_all cs t).overlay)) ≡ true
  change_all-live name until [] t s h = h
  change_all-live name until (c ∷ cs) t (s, ss) h =
      change_all-live name until cs (changed c t) ss (changed-live name until c t s h)

  -- A host entry that ApplyOne accepts blocks its host and the hosts below it, after any changes that
  -- spare it.
  pub kept-dns_blocked :
      (e : ThreatEntry) (host below : Bytes) (at at' now : Instant) (g : Option Guard)
      (o o' last : Overlay) (cs : List Change)
      → apply_one parse_ip e at at' (targets g o) ≡ (targets g o', true)
      → kind_of e ≡ bytes "dns"
      → str_eq host [] ≡ false
      → (lookup_name host ≡ lookup_name e.key)
        ⊎ (lookup_name host ≡ below ++ b'.' ∷ lookup_name e.key)
      → now < expiry e at
      → AllSpare (lookup_name e.key) now cs
      → (change_all cs (targets g o')).overlay ≡ some last
      → dns_blocked host now last ≡ true
  kept-dns_blocked e host below at at' now g o o' last cs h kind ne under live spares result =
      let stored = apply_one-live parse_ip e at at' now g o o' h kind live in
      let kept = change_all-live (lookup_name e.key) now cs (targets g o') spares stored in
      under_blocked host below (lookup_name e.key) now last ne under (rw result at kept)
