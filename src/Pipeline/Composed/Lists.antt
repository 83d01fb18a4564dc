-- ===== src/Pipeline/Composed/Lists.antt =====
-- guard on the host lists and the shared threat entries of its handler.
use ravenguard.Common.{
  ℕ, ◌≡◌, ◌<◌, ◌++◌, ◌⊎◌, Bool, true, false, ◌||◌, Option, some, List, [], ◌∷◌, Bytes, bytes,
  str_eq, Instant, arith,
}
use ravenguard.Common.Int64.{Int64}
use ravenguard.Common.Net.{Net}
use ravenguard.AddressLists.Blocklist
use ravenguard.AddressLists.Hosts.{Blocks, load_sets-dns_blocked}
use ravenguard.AddressLists.Lines.{Files, all_lines, normalize_host}
use ravenguard.Pipeline.{Settings, Facts, Edge}
use ravenguard.Pipeline.Barred.{refused_early, refused_late, guard-barred}
use ravenguard.Pipeline.Gates.{is_proxied}
use ravenguard.Pipeline.Handler.{HttpRequest, Packages, Handler, host, asked}
use ravenguard.Pipeline.Serve.{guard}
use ravenguard.Protect.Guard.{Guard}
use ravenguard.RateLimit.Floats.{Arithmetic}
use ravenguard.ThreatShare.{ThreatEntry, Overlay, apply_one, expiry}
use ravenguard.ThreatShare.Blocks.{targets, kind_of, lookup_name}
use ravenguard.ThreatShare.Kept.{Change, AllSpare, change_all, kept-dns_blocked}

refused_host : (f : Facts) → f.host_blocked ≡ true → (refused_early f || refused_late f) ≡ true
refused_host f h = ground (arith, h)

refused_shared : (f : Facts) → f.shared_host ≡ true → (refused_early f || refused_late f) ≡ true
refused_shared f h = ground (arith, h)

module _ {net : Net} (P : Packages net) (h : Handler net) (r : HttpRequest) (clock : ℕ → Instant)
    (now : Instant) (unix : Int64) (f : Facts) (s : Settings) (A : Arithmetic)
    (e : Edge A.Num) where
  -- A host that a loaded list names is served nothing: the request is refused whatever else it shows,
  -- whatever the state of the limiters and trackers, and for clients on the allow list too.
  pub guard-host_line :
      (files : Files) (loaded : Instant) (ip_files dns_files ua_files lines : List Bytes)
      (sets : Blocklist.Sets net)
      → all_lines files dns_files ≡ some lines
      → (Blocklist.load_sets net files loaded ip_files dns_files ua_files sets).1 ≡ true
      → h.lists ≡ some (Blocklist.load_sets net files loaded ip_files dns_files ua_files sets).0
      → Blocks net lines (normalize_host net (host P h r))
      → is_proxied (guard s (asked P h r clock now unix f) now A e).1 ≡ false
  unfolding asked
  guard-host_line files loaded ip_files dns_files ua_files lines sets read ok installed blocks =
      guard-barred s (asked P h r clock now unix f) now A e (
        refused_host (asked P h r clock now unix f) (
          rw installed (
            (load_sets-dns_blocked net files loaded ip_files dns_files ua_files lines sets
                (host P h r) read ok).1
              blocks)))

  -- A host entry that ApplyOne has accepted into the overlay keeps guard, before its expiry, from
  -- proxying a request for its host or a host below it, in every overlay that later calls of ApplyOne
  -- and Sweep make of it, as long as every later entry for the same name expires after the request and
  -- no sweep has a clock that is ahead of the request.
  pub guard-shared_host :
      (parse_ip : Bytes → Bool) (t : ThreatEntry) (below : Bytes) (at at' : Instant)
      (g : Option Guard) (o o' last : Overlay) (later : List Change)
      → apply_one parse_ip t at at' (targets g o) ≡ (targets g o', true)
      → kind_of t ≡ bytes "dns"
      → AllSpare (lookup_name t.key) now later
      → (change_all parse_ip later (targets g o')).overlay ≡ some last
      → h.threat_overlay ≡ some last
      → str_eq (host P h r) [] ≡ false
      → (lookup_name (host P h r) ≡ lookup_name t.key)
        ⊎ (lookup_name (host P h r) ≡ below ++ b'.' ∷ lookup_name t.key)
      → now < expiry t at
      → is_proxied (guard s (asked P h r clock now unix f) now A e).1 ≡ false
  unfolding asked
  guard-shared_host parse_ip t below at at' g o o' last later accepted kind spares made installed
        named under live =
      guard-barred s (asked P h r clock now unix f) now A e (
        refused_shared (asked P h r clock now unix f) (
          rw installed (
            kept-dns_blocked parse_ip t (host P h r) below at at' now g o o' last later accepted
              kind named under live spares made)))
