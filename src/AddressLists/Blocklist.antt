-- ===== src/AddressLists/Blocklist.antt =====
-- internal/blocklist/blocklist.go: Sets. A map with empty values is the list of its keys, and the
-- search of faststr.Matcher is a parameter.
use ravenguard.Common.{
  ℕ, Bool, true, false, ◌&&◌, ◌||◌, Option, none, some, List, [], ◌∷◌, ◌==◌, if◌then◌else◌, Bytes,
  str_eq, length, Instant,
}
use ravenguard.Common.Net.{Net}
use ravenguard.Faststr.{append_lower_ascii}
use ravenguard.AddressLists.Lines.{
  Files, all_lines, lower_lines, load, dot, normalize_host, host_lines, ip_lines, any_net, listed,
}

-- The loop of DNSBlocked: the texts behind the dots of a host.
unfoldable pub parent_listed : List Bytes → Bytes → Bool
unfolding listed
parent_listed dns [] = false
parent_listed dns (c ∷ h) = c == dot && listed dns h || parent_listed dns h

module _ (net : Net) where
  pub record Sets : Type 0 where
    pub ips : List net.Cidr
    pub dns : List Bytes
    pub uas : List Bytes
    pub last_reload : Instant
    pub ip_files : List Bytes
    pub dns_files : List Bytes
    pub ua_files : List Bytes

  abbrev pub new : Sets
  new = record {
    ips = [];
    dns = [];
    uas = [];
    last_reload = 0;
    ip_files = [];
    dns_files = [];
    ua_files = [];
  }

  abbrev pub stored :
      Sets → Option (List net.Cidr) → Option (List Bytes) → Option (List Bytes) → Sets → Sets × Bool
  stored s none dns uas loaded = (s, false)
  stored s (some ips) none uas loaded = (s, false)
  stored s (some ips) (some dns) none loaded = (s, false)
  stored s (some ips) (some dns) (some uas) loaded =
      (record loaded { ips = ips; dns = dns; uas = uas }, true)

  -- Load, without the overlay files; an error is false.
  unfoldable pub load_sets :
      Files → Instant → List Bytes → List Bytes → List Bytes → Sets → Sets × Bool
  unfolding all_lines ip_lines host_lines lower_lines
  load_sets files now ip_files dns_files ua_files s =
      stored s (load (ip_lines net) (all_lines files ip_files))
        (load (host_lines net) (all_lines files dns_files))
        (load lower_lines (all_lines files ua_files))
        (record s {
          ip_files = ip_files;
          dns_files = dns_files;
          ua_files = ua_files;
          last_reload = now;
        })

  -- One round of the loop of StartReload, which drops an error.
  unfoldable pub reload : Files → Instant → Sets → Sets
  unfolding load_sets
  reload files now s = (load_sets files now s.ip_files s.dns_files s.ua_files s).0

  unfoldable pub ip_blocked : Sets → Option net.Ip → Bool
  unfolding any_net
  ip_blocked s none = false
  ip_blocked s (some ip) = any_net net s.ips ip

  unfoldable pub dns_blocked : Sets → Bytes → Bool
  unfolding normalize_host parent_listed
  dns_blocked s host =
      let h = normalize_host net host in
      if str_eq h [] then false else listed s.dns h || parent_listed s.dns h

  unfoldable pub ua_blocked : (List Bytes → Bytes → Bool) → Sets → Bytes → Bool
  ua_blocked found s ua = if str_eq ua [] then false else found s.uas (append_lower_ascii ua)

  unfoldable pub stats : Sets → ℕ × ℕ × ℕ × Instant
  stats s = (length s.ips, length s.dns, length s.uas, s.last_reload)
