-- ===== src/AddressLists/Tests.antt =====
-- Lists loaded from small files.
use ravenguard.Common.{
  ◌≡◌, refl, ◌↔◌, true, none, some, [], ◌∷◌, if◌then◌else◌, Bytes, bytes, str_eq,
}
use ravenguard.Common.Net.{Net}
use ravenguard.AddressLists.Lines.{Files, all_lines, normalize_host}
use ravenguard.AddressLists.Blocklist
use ravenguard.AddressLists.Blocklist.{dns_blocked}
use ravenguard.AddressLists.Hosts.{Blocks, load_sets-dns_blocked}
use ravenguard.AddressLists.Reload.{AllOrNothing, load_sets-AllOrNothing}

abbrev texts : Net
texts = record {
  Ip = Bytes;
  Cidr = Bytes;
  parse_ip = λ s. none;
  parse_cidr = λ s. none;
  split_host = λ s. none;
  host_net = λ ip. ip;
  holds = λ n ip. str_eq n ip;
  show = λ ip. ip;
}

abbrev disk : Files
disk name =
    if str_eq name (bytes "dns")
    then some (bytes "# hosts" ∷ bytes " *.Evil.example. # seen" ∷ bytes "" ∷ [])
    else if str_eq name (bytes "ua")
    then some (bytes "GoodBot" ∷ [])
    else none

blocklist_lines : all_lines disk (bytes "dns" ∷ []) ≡ some (bytes "*.Evil.example." ∷ [])
unfolding all_lines
blocklist_lines = refl

star : normalize_host texts (bytes "*.Evil.example.:80/x") ≡ bytes "evil.example"
unfolding normalize_host
star = refl

load_sets-dns_blocked_example :
    (dns_blocked texts
        (Blocklist.load_sets texts disk 3 [] (bytes "dns" ∷ []) [] (Blocklist.new texts)).0
        (bytes "www.EVIL.example")
      ≡ true)
    ↔ Blocks texts (bytes "*.Evil.example." ∷ []) (normalize_host texts (bytes "www.EVIL.example"))
unfolding all_lines Blocklist.load_sets
load_sets-dns_blocked_example =
    load_sets-dns_blocked texts disk 3 [] (bytes "dns" ∷ []) [] (bytes "*.Evil.example." ∷ [])
      (Blocklist.new texts) (bytes "www.EVIL.example") refl refl

-- Two files of User-Agents.
two_files :
    (Blocklist.load_sets texts disk 3 [] []
      (bytes "ua" ∷ bytes "dns" ∷ [])
      (Blocklist.new texts)).0.uas
    ≡ bytes "goodbot" ∷ bytes "*.evil.example." ∷ []
unfolding all_lines Blocklist.load_sets
two_files = refl

load_sets-AllOrNothing_example :
    AllOrNothing texts disk (bytes "ips" ∷ []) (bytes "dns" ∷ []) [] (Blocklist.new texts) (
      Blocklist.load_sets texts disk 3
        (bytes "ips" ∷ [])
        (bytes "dns" ∷ [])
        []
        (Blocklist.new texts))
load_sets-AllOrNothing_example =
    load_sets-AllOrNothing texts disk 3 (bytes "ips" ∷ []) (bytes "dns" ∷ []) []
      (Blocklist.new texts)
