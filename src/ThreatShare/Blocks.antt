-- ===== src/ThreatShare/Blocks.antt =====
-- What an accepted entry blocks.
use ravenguard.Common.{
  ◌≤◌, ◌<◌, ◌≡◌, refl, Bool, true, false, not, Option, some, [], ◌∷◌, ◌++◌, arith, ltb, ◌==◌,
  Instant, Bytes, bytes, str_eq, str_eq_refl, inl, inr, ◌⊎◌,
}
use ravenguard.Common.Ascii.{trim_last_dot, trim_space, to_lower, contains, has_prefix}
use ravenguard.Common.Dict
use ravenguard.Common.Dict.{Dict, get-put, get-keep}
use ravenguard.Protect.Guard.{Guard}
use ravenguard.ThreatShare.{
  Overlay, ThreatEntry, Targets, expiry, note_seen, apply_key, apply_one, put_ua, put_dns,
  ua_blocked, is_live, any_suffix, dns_blocked, ip_blocked, ja4_blocked, sweep,
}

abbrev pub targets : Option Guard → Overlay → Targets
targets g o = record { protect = g; overlay = some o }

abbrev pub kind_of : ThreatEntry → Bytes
kind_of e = to_lower (trim_space e.key_type)

module _ (parse_ip : Bytes → Bool) where
  -- An accepted entry passes the guards of ApplyOne.
  pub accepted :
      (e : ThreatEntry) (now now' : Instant) (g : Option Guard) (o : Overlay) (t' : Targets)
      → apply_one parse_ip e now now' (targets g o) ≡ (t', true)
      → (apply_key parse_ip
            (kind_of e)
            (trim_space e.key)
            (expiry e now)
            now'
            (targets g (note_seen e.id o).0)
          ≡ (t', true))
        × (str_eq (trim_space e.key) [] ≡ false)
        × ((note_seen e.id o).1 ≡ true)
  unfolding apply_one
  accepted e now now' g o t' h = ground (arith, h)

  accepted_ua :
      (key : Bytes) (exp now' : Instant) (g : Option Guard) (o : Overlay) (t' : Targets)
      → apply_key parse_ip (bytes "ua") key exp now' (targets g o) ≡ (t', true)
      → t' ≡ targets g (put_ua key exp o)
  unfolding apply_key str_eq
  accepted_ua key exp now' g o t' h = cc

  accepted_dns :
      (key : Bytes) (exp now' : Instant) (g : Option Guard) (o : Overlay) (t' : Targets)
      → apply_key parse_ip (bytes "dns") key exp now' (targets g o) ≡ (t', true)
      → t' ≡ targets g (put_dns key exp o)
  unfolding apply_key str_eq
  accepted_dns key exp now' g o t' h = cc

needle_blocks :
    (key ua : Bytes) (exp now : Instant) (o : Overlay)
    → str_eq key [] ≡ false
    → now ≤ exp
    → contains (to_lower ua) (to_lower key) ≡ true
    → ua_blocked ua now (put_ua key exp o) ≡ true
unfolding ua_blocked put_ua Dict.put contains has_prefix str_eq
needle_blocks [] ua exp now o ne live h = ground (arith, ne)
needle_blocks (k ∷ key) [] exp now o ne live h = ground (arith, h)
needle_blocks (k ∷ key) (c ∷ ua) exp now o ne live h = ground (arith, h, live)

whole_blocks :
    (h : Bytes) (now : Instant) (m : Dict Instant)
    → is_live now (Dict.get h m) ≡ true
    → any_suffix true h now m ≡ true
unfolding any_suffix
whole_blocks [] now m live = live
whole_blocks (c ∷ h) now m live = rw live refl

suffix_blocks :
    (start : Bool) (a h : Bytes) (now : Instant) (m : Dict Instant)
    → is_live now (Dict.get h m) ≡ true
    → any_suffix start (a ++ b'.' ∷ h) now m ≡ true
unfolding any_suffix
suffix_blocks start [] h now m live = ground (arith, whole_blocks h now m live)
suffix_blocks start (c ∷ a) h now m live = ground (arith, suffix_blocks (c == b'.') a h now m live)

-- A host name as DNSBlocked looks it up, and a key as putDNS stores it.
abbrev pub lookup_name : Bytes → Bytes
lookup_name host = to_lower (trim_last_dot (trim_space host))

module _ (parse_ip : Bytes → Bool) where
  -- A User-Agent entry that ApplyOne accepts blocks, until its expiry, every User-Agent that
  -- contains its key, letter case aside.
  pub apply_one-ua_blocked :
      (e : ThreatEntry) (ua : Bytes) (now now' later : Instant) (g : Option Guard) (o o' : Overlay)
      → apply_one parse_ip e now now' (targets g o) ≡ (targets g o', true)
      → kind_of e ≡ bytes "ua"
      → contains (to_lower ua) (to_lower (trim_space e.key)) ≡ true
      → later ≤ expiry e now
      → ua_blocked ua later o' ≡ true
  apply_one-ua_blocked e ua now now' later g o o' h kind inside live =
      let (applied, ne, fresh) = accepted parse_ip e now now' g o (targets g o') h in
      let result =
        accepted_ua parse_ip (trim_space e.key) (expiry e now) now' g (note_seen e.id o).0
          (targets g o') (rw kind at applied) in
      let same : o' ≡ put_ua (trim_space e.key) (expiry e now) (note_seen e.id o).0 = cc in
      rw same (
        needle_blocks (trim_space e.key) ua (expiry e now) later (note_seen e.id o).0 ne live
          inside)

  -- A host entry that ApplyOne accepts is in the overlay until its expiry.
  pub apply_one-live :
      (e : ThreatEntry) (now now' later : Instant) (g : Option Guard) (o o' : Overlay)
      → apply_one parse_ip e now now' (targets g o) ≡ (targets g o', true)
      → kind_of e ≡ bytes "dns"
      → later < expiry e now
      → is_live later (Dict.get (lookup_name e.key) o'.dns) ≡ true
  unfolding put_dns
  apply_one-live e now now' later g o o' h kind live =
      let (applied, key_ne, fresh) = accepted parse_ip e now now' g o (targets g o') h in
      let o1 = (note_seen e.id o).0 in
      let result =
        accepted_dns parse_ip (trim_space e.key) (expiry e now) now' g o1 (targets g o')
          (rw kind at applied) in
      let same : o' ≡ put_dns (trim_space e.key) (expiry e now) o1 = cc in
      rw same (rw (get-put, str_eq_refl) (ground (arith, live)))

-- A host whose name, or what stands behind one of its dots, is in the overlay.
pub under_blocked :
    (host below name : Bytes) (now : Instant) (o : Overlay)
    → str_eq host [] ≡ false
    → (lookup_name host ≡ name) ⊎ (lookup_name host ≡ below ++ b'.' ∷ name)
    → is_live now (Dict.get name o.dns) ≡ true
    → dns_blocked host now o ≡ true
unfolding dns_blocked
under_blocked host below name now o ne (inl whole) live = rw (ne, whole) (whole_blocks _ now _ live)
under_blocked host below name now o ne (inr part) live =
    rw (ne, part) (suffix_blocks true below _ now _ live)

pub live-swept :
    (k : Bytes) (now later : Instant) (m : Dict Instant)
    → now ≤ later
    → is_live later (Dict.get k (Dict.keep (λ _ exp. not (ltb exp now)) m))
      ≡ is_live later (Dict.get k m)
live-swept k now later m le = ground (arith, get-keep (λ _ exp. not (ltb exp now)) k m)

swept_suffix :
    (start : Bool) (h : Bytes) (now later : Instant) (m : Dict Instant)
    → now ≤ later
    → any_suffix start h later (Dict.keep (λ _ exp. not (ltb exp now)) m)
      ≡ any_suffix start h later m
unfolding any_suffix
swept_suffix start [] now later m le = rw (live-swept [] now later m le)
swept_suffix start (c ∷ h) now later m le =
    rw (live-swept (c ∷ h) now later m le, swept_suffix (c == b'.') h now later m le)

-- A sweep changes no later answer about an address, a JA4 fingerprint or a host.
pub sweep-blocked :
    (k : Bytes) (now later : Instant) (o : Overlay)
    → now ≤ later
    → (ip_blocked k later (sweep now o) ≡ ip_blocked k later o)
      × (ja4_blocked k later (sweep now o) ≡ ja4_blocked k later o)
      × (dns_blocked k later (sweep now o) ≡ dns_blocked k later o)
unfolding sweep ip_blocked ja4_blocked dns_blocked
sweep-blocked k now later o le = (
  live-swept k now later o.ip le,
  rw (live-swept (to_lower k) now later o.ja4 le),
  rw (swept_suffix true (lookup_name k) now later o.dns le),
)
