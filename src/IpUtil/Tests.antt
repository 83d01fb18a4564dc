-- ===== src/IpUtil/Tests.antt =====
-- ClientIP over a small package net: an address is a text of digits and dots, and a network an address.
use ravenguard.Common.{
  ◌≡◌, ◌⊎◌, Option, refl, Bool, true, false, ◌&&◌, ◌||◌, none, some, List, [], ◌∷◌, ◌==◌, leb,
  if◌then◌else◌, Bytes, bytes, str_eq,
}
use mathlib.Core.List.{reverse}
use ravenguard.Common.Net.{Net}
use ravenguard.Common.Strings.{split}
use ravenguard.IpUtil.{Request, comma, is_trusted, client_ip, parse_ip, from_end, answer, untrusted}
use ravenguard.IpUtil.Forwarded.{
  client_ip-hops, FirstHop, Inside, or_remote, Outside, forwarded_for,
}

abbrev is_dotted : Bytes → Bool
is_dotted [] = true
is_dotted (c ∷ s) = (leb b'0' c && leb c b'9' || c == b'.') && is_dotted s

abbrev dotted_net : Net
dotted_net = record {
  Ip = Bytes;
  Cidr = Bytes;
  parse_ip = λ s. if is_dotted s then some s else none;
  parse_cidr = λ s. none;
  split_host = λ s. none;
  host_net = λ ip. ip;
  holds = λ n ip. str_eq n ip;
  show = λ ip. ip;
}

abbrev relayed : Bytes → Request
relayed value = record {
  header = λ name. if str_eq name forwarded_for then value else [];
  remote_addr = bytes "10.0.0.1";
  tls = false;
}

abbrev proxies : List Bytes
proxies = bytes "10.0.0.1" ∷ bytes "10.0.0.2" ∷ []

abbrev hops : List Bytes
hops = reverse (split comma (bytes "6.6.6.6, 9.9.9.9 ,10.0.0.2"))

client_ip-hops_example :
    (Outside dotted_net proxies (bytes "10.0.0.1")
      × (client_ip dotted_net (relayed (bytes "6.6.6.6, 9.9.9.9 ,10.0.0.2")) proxies forwarded_for
          ≡ some (bytes "10.0.0.1")))
    ⊎ (Inside dotted_net proxies (bytes "10.0.0.1")
        × ((o : Option Bytes) × FirstHop dotted_net proxies hops o
            × (client_ip dotted_net
                  (relayed (bytes "6.6.6.6, 9.9.9.9 ,10.0.0.2"))
                  proxies
                  forwarded_for
                ≡ or_remote dotted_net o (bytes "10.0.0.1"))))
unfolding parse_ip
client_ip-hops_example =
    client_ip-hops dotted_net proxies (relayed (bytes "6.6.6.6, 9.9.9.9 ,10.0.0.2"))
      (bytes "10.0.0.1") refl

-- The last hop is a proxy, and the one before it is the client.
hop_answers :
    client_ip dotted_net (relayed (bytes "6.6.6.6, 9.9.9.9 ,10.0.0.2")) proxies forwarded_for
    ≡ some (bytes "9.9.9.9")
unfolding client_ip parse_ip from_end answer is_trusted untrusted
hop_answers = refl
