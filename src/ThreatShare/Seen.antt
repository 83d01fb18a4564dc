-- ===== src/ThreatShare/Seen.antt =====
-- The identifiers of the entries that were applied.
use ravenguard.Common.{
  ℕ, ◌≤◌, ◌≡◌, refl, Bool, true, false, Option, none, some, List, [], ◌∷◌, arith, Instant, Bytes,
  str_eq, str_eq_refl, length,
}
use ravenguard.Common.Dict
use ravenguard.Common.Dict.{Dict, get-put, length-delete}
use ravenguard.Protect.Guard.{Guard}
use ravenguard.ThreatShare.{
  Overlay, new_overlay, ThreatEntry, Targets, expiry, note_seen, seen_targets, apply_key, apply_one,
  put_ua, put_ip, put_ja4, put_dns, sweep,
}
use ravenguard.ThreatShare.Blocks.{targets, kind_of, accepted}
use ravenguard.Common.Ascii.{trim_space}

-- The seen identifiers and their limit.
abbrev pub ids : Option Overlay → Dict Bool × ℕ
ids none = ([], 0)
ids (some o) = (o.seen, o.max_ents)

abbrev pub Bounded : Dict Bool × ℕ → Type 0
Bounded (seen, max_ents) = length seen ≤ max_ents

note_seen-Bounded :
    (id : Bytes) (o : Overlay) → Bounded (ids (some o)) → Bounded (ids (some (note_seen id o).0))
unfolding note_seen Dict.put
note_seen-Bounded id o h = ground (arith, h, length-delete id o.seen)

seen_now :
    (id : Bytes) (o o' : Overlay)
    → str_eq id [] ≡ false
    → (note_seen id o).1 ≡ true
    → ids (some o') ≡ ids (some (note_seen id o).0)
    → note_seen id o' ≡ (o', false)
unfolding note_seen
seen_now id o o' named fresh same =
    ground (arith, named, fresh, same, get-put id id true o.seen, str_eq_refl id)

module _ (parse_ip : Bytes → Bool) where
  apply_key-ids :
      (key_type key : Bytes) (exp now' : Instant) (t : Targets)
      → ids (apply_key parse_ip key_type key exp now' t).0.overlay ≡ ids t.overlay
  unfolding apply_key put_ua put_ip put_ja4 put_dns
  apply_key-ids key_type key exp now' t = ground arith

  noted-Bounded :
      (id : Bytes) (t : Targets) (o : Option Overlay)
      → t.overlay ≡ o
      → Bounded (ids o)
      → Bounded (ids (seen_targets parse_ip id t o).0.overlay)
  noted-Bounded id t none e h = rw e h
  noted-Bounded id t (some o) e h = note_seen-Bounded id o h

  apply_one-Bounded :
      (e : ThreatEntry) (now now' : Instant) (t : Targets)
      → Bounded (ids t.overlay)
      → Bounded (ids (apply_one parse_ip e now now' t).0.overlay)
  unfolding apply_one
  apply_one-Bounded e now now' t h =
      let noted = noted-Bounded e.id t t.overlay refl h in
      let next = (seen_targets parse_ip e.id t t.overlay).0 in
      ground
        (arith, h, noted, apply_key-ids (kind_of e) (trim_space e.key) (expiry e now) now' next)

  -- An entry with an identifier is applied once: applied again, at any time, it is refused and
  -- changes nothing.
  pub apply_one-repeated :
      (e : ThreatEntry) (now now' later later' : Instant) (g g' : Option Guard) (o o' : Overlay)
      → str_eq e.id [] ≡ false
      → apply_one parse_ip e now now' (targets g o) ≡ (targets g' o', true)
      → apply_one parse_ip e later later' (targets g' o') ≡ (targets g' o', false)
  apply_one-repeated e now now' later later' g g' o o' named h =
      let (applied, ne, fresh) = accepted parse_ip e now now' g o (targets g' o') h in
      let same =
        apply_key-ids (kind_of e) (trim_space e.key) (expiry e now) now'
          (targets g (note_seen e.id o).0) in
      let noted = seen_now e.id o o' named fresh (rw applied at same) in
      unfold apply_one in ground (arith, noted)

-- One operation that changes the targets, with its readings of the clock.
pub data ShareOp : Type 0 where
  do_apply : ThreatEntry → Instant → Instant → ShareOp
  do_sweep : Instant → ShareOp

abbrev swept_overlay : Instant → Option Overlay → Option Overlay
swept_overlay now none = none
swept_overlay now (some o) = some (sweep now o)

module _ (parse_ip : Bytes → Bool) where
  unfoldable pub run_all : List ShareOp → Targets → Targets
  run_all [] t = t
  run_all (do_apply e now now' ∷ ops) t = run_all ops (apply_one parse_ip e now now' t).0
  run_all (do_sweep now ∷ ops) t = run_all ops (record t { overlay = swept_overlay now t.overlay })

  swept-Bounded :
      (now : Instant) (o : Option Overlay) → Bounded (ids o) → Bounded (ids (swept_overlay now o))
  unfolding sweep
  swept-Bounded now none h = h
  swept-Bounded now (some o) h = ground (arith, h)

  run_all-from :
      (ops : List ShareOp) (t : Targets)
      → Bounded (ids t.overlay)
      → Bounded (ids (run_all ops t).overlay)
  unfolding run_all
  run_all-from [] t h = h
  run_all-from (do_apply e now now' ∷ ops) t h =
      run_all-from ops (apply_one parse_ip e now now' t).0
        (apply_one-Bounded parse_ip e now now' t h)
  run_all-from (do_sweep now ∷ ops) t h =
      run_all-from ops (record t { overlay = swept_overlay now t.overlay })
        (swept-Bounded now t.overlay h)

  -- However entries and sweeps follow each other, a new overlay never holds more identifiers than
  -- its limit.
  pub run_all-Bounded :
      (ops : List ShareOp) (max_entries : ℕ) (g : Option Guard)
      → Bounded (ids (run_all ops (targets g (new_overlay max_entries))).overlay)
  run_all-Bounded ops max_entries g =
      run_all-from ops (targets g (new_overlay max_entries)) (unfold new_overlay in omega arith)
