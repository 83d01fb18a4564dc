-- ===== src/ThreatShare.antt =====
-- internal/threatshare/overlay.go: threat entries that the fleet shares, applied to the guard's
-- bans and to an overlay of blocked User-Agents, addresses, JA4 fingerprints and host names.
-- `parse_ip` is whether net.ParseIP accepts a text; an address is asked for by its IP.String().
-- Keys are ASCII, and an expiry in seconds is below 2 ^ 62.
pub mod Blocks
pub mod Kept
pub mod Seen
pub mod Tests
use Prim.Native.Nat.{◌^◌}
use ravenguard.Common.{
  ℕ, ◌+◌, ◌-◌, ◌*◌, ◌/◌, ◌%◌, Bool, true, false, ◌&&◌, ◌||◌, not, Option, none, some, List, [], ◌∷◌,
  ltb, leb, ◌==◌, if◌then◌else◌, Instant, Bytes, bytes, str_eq, length,
}
use ravenguard.Common.Ascii.{trim_last_dot, trim_space, to_lower, contains}
use ravenguard.Common.Dict
use ravenguard.Common.Dict.{Dict}
use ravenguard.Protect.Guard.{Guard}
use ravenguard.Protect.Bans.{ban_until}

-- The set of seen identifiers is a map to the unit value.
pub record Overlay : Type 0 where
  pub ua : Dict Instant
  pub ip : Dict Instant
  pub ja4 : Dict Instant
  pub dns : Dict Instant
  pub seen : Dict Bool
  pub max_ents : ℕ

-- NewOverlay
unfoldable pub new_overlay : ℕ → Overlay
new_overlay max_entries = record {
  ua = [];
  ip = [];
  ja4 = [];
  dns = [];
  seen = [];
  max_ents = if max_entries == 0 then 50000 else max_entries;
}

-- The times are int64 patterns, the fields that no code here reads are left out.
pub record ThreatEntry : Type 0 where
  pub id : Bytes
  pub key_type : Bytes
  pub key : Bytes
  pub ttl_seconds : ℕ
  pub reason : Bytes
  pub expires_at_unix : ℕ

abbrev is_positive : ℕ → Bool
is_positive n = ltb 0 n && ltb n (2 ^ 63)

-- January 1, 1970.
abbrev unix_epoch : Instant
unix_epoch = 62135596800000000000

abbrev add_duration : Instant → ℕ → Instant
add_duration now d = if ltb d (2 ^ 63) then now + d else now - (2 ^ 64 - d)

-- expiry
unfoldable pub expiry : ThreatEntry → Instant → Instant
expiry e now =
    if is_positive e.expires_at_unix
    then unix_epoch + e.expires_at_unix * 1000000000
    else add_duration now
        ((if is_positive e.ttl_seconds then e.ttl_seconds else 600) * 1000000000 % 2 ^ 64)

unfoldable pub put_ua : Bytes → Instant → Overlay → Overlay
put_ua key exp o = record o { ua = Dict.put (to_lower key) exp o.ua }

unfoldable pub put_ip : Bytes → Instant → Overlay → Overlay
put_ip key exp o = record o { ip = Dict.put key exp o.ip }

unfoldable pub put_ja4 : Bytes → Instant → Overlay → Overlay
put_ja4 key exp o = record o { ja4 = Dict.put (to_lower key) exp o.ja4 }

unfoldable pub put_dns : Bytes → Instant → Overlay → Overlay
put_dns key exp o = record o { dns = Dict.put (to_lower (trim_last_dot key)) exp o.dns }

abbrev is_some : {A : Type 0} → Option A → Bool
is_some none = false
is_some (some a) = true

abbrev pub refuses : Overlay → Bytes → Bool
refuses o id = is_some (Dict.get id o.seen) || leb o.max_ents (length o.seen)

-- Whether an identifier was seen or the set is full, and the set with it added.
unfoldable pub note_seen : Bytes → Overlay → Overlay × Bool
note_seen id o =
    if str_eq id []
    then (o, true)
    else if refuses o id
    then (o, false)
    else (record o { seen = Dict.put id true o.seen }, true)

-- What an entry is applied to; either can be nil.
pub record Targets : Type 0 where
  pub protect : Option Guard
  pub overlay : Option Overlay

abbrev pub ban_target : Bytes → Instant → Instant → Targets → Option Guard → Targets × Bool
ban_target key exp now' t none = (t, false)
ban_target key exp now' t (some g) = (record t { protect = some (ban_until key exp now' g) }, true)

abbrev pub on_overlay : (Overlay → Overlay) → Targets → Option Overlay → Targets × Bool
on_overlay f t none = (t, false)
on_overlay f t (some o) = (record t { overlay = some (f o) }, true)

module _ (parse_ip : Bytes → Bool) where
  abbrev pub ip_target : Bytes → Instant → Targets → Option Overlay → Targets × Bool
  ip_target key exp t none = (t, false)
  ip_target key exp t (some o) =
      if not (parse_ip key)
      then (t, false)
      else (record t { overlay = some (put_ip key exp o) }, true)

  -- The switch of ApplyOne.
  unfoldable pub apply_key : Bytes → Bytes → Instant → Instant → Targets → Targets × Bool
  apply_key key_type key exp now' t =
      if str_eq key_type (bytes "bind") || str_eq key_type (bytes "ip_hash")
      then ban_target key exp now' t t.protect
      else if str_eq key_type (bytes "ua")
      then on_overlay (put_ua key exp) t t.overlay
      else if str_eq key_type (bytes "ip")
      then ip_target key exp t t.overlay
      else if str_eq key_type (bytes "ja4")
      then on_overlay (put_ja4 key exp) t t.overlay
      else if str_eq key_type (bytes "dns")
      then on_overlay (put_dns key exp) t t.overlay
      else (t, false)

  abbrev pub seen_targets : Bytes → Targets → Option Overlay → Targets × Bool
  seen_targets id t none = (t, true)
  seen_targets id t (some o) =
      let (o', fresh) = note_seen id o in (record t { overlay = some o' }, fresh)

  -- ApplyOne; BanUntil reads the clock again.
  unfoldable pub apply_one : ThreatEntry → Instant → Instant → Targets → Targets × Bool
  apply_one e now now' t =
      let key_type = to_lower (trim_space e.key_type) in
      let key = trim_space e.key in
      if str_eq key [] || str_eq key_type []
      then (t, false)
      else if ltb 256 (length key) || ltb 128 (length (trim_space e.reason))
      then (t, false)
      else if not (ltb now (expiry e now))
      then (t, false)
      else let (t', fresh) = seen_targets e.id t t.overlay in
        if fresh then apply_key key_type key (expiry e now) now' t' else (t', false)

unfoldable pub any_needle : Bytes → Instant → Dict Instant → Bool
any_needle low now [] = false
any_needle low now ((needle, exp) ∷ m) =
    (not (ltb exp now) && contains low needle) || any_needle low now m

-- UABlocked
unfoldable pub ua_blocked : Bytes → Instant → Overlay → Bool
unfolding any_needle
ua_blocked ua now o = not (str_eq ua []) && any_needle (to_lower ua) now o.ua

abbrev pub is_live : Instant → Option Instant → Bool
is_live now none = false
is_live now (some exp) = ltb now exp

-- IPBlocked, of the text of an address
unfoldable pub ip_blocked : Bytes → Instant → Overlay → Bool
ip_blocked ip now o = is_live now (Dict.get ip o.ip)

-- JA4Blocked
unfoldable pub ja4_blocked : Bytes → Instant → Overlay → Bool
ja4_blocked ja4 now o = not (str_eq ja4 []) && is_live now (Dict.get (to_lower ja4) o.ja4)

-- The loop of DNSBlocked: the host, then what stands behind each of its dots. `start` is whether
-- the text stands at the start or behind a dot.
unfoldable pub any_suffix : Bool → Bytes → Instant → Dict Instant → Bool
any_suffix start [] now m = start && is_live now (Dict.get [] m)
any_suffix start (c ∷ h) now m =
    start && is_live now (Dict.get (c ∷ h) m) || any_suffix (c == b'.') h now m

-- DNSBlocked
unfoldable pub dns_blocked : Bytes → Instant → Overlay → Bool
unfolding any_suffix
dns_blocked host now o =
    not (str_eq host []) && any_suffix true (to_lower (trim_last_dot (trim_space host))) now o.dns

abbrev live_only : Instant → Dict Instant → Dict Instant
live_only now m = Dict.keep (λ _ exp. not (ltb exp now)) m

-- Sweep
unfoldable pub sweep : Instant → Overlay → Overlay
sweep now o = record o {
  ua = live_only now o.ua;
  ip = live_only now o.ip;
  ja4 = live_only now o.ja4;
  dns = live_only now o.dns;
  seen = if ltb (o.max_ents / 2) (length o.seen) then [] else o.seen;
}
