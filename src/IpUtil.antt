-- ===== src/IpUtil.antt =====
-- internal/iputil/iputil.go: which address a request comes from, behind trusted proxies. Addresses
-- and networks are those of package net, whose functions are a parameter.
pub mod Forwarded
mod Tests
use mathlib.Core.List.{reverse}
use mathlib.Core.Option
use ravenguard.Common.{
  ℕ, ◌+◌, Bool, true, false, ◌&&◌, ◌||◌, not, Option, none, some, List, [], ◌∷◌, ◌++◌, leb, ltb,
  ◌==◌, if◌then◌else◌, Bytes, bytes, str_eq, length,
}
use ravenguard.Common.Dict.{Dict, put}
use ravenguard.Common.Net.{Net}
use ravenguard.Faststr.{trim_blanks, contains_fold, equal_fold_ascii}

abbrev pub comma : ℕ
comma = b','

-- The text between square brackets, or the whole text.
abbrev close : ℕ → Bytes → Bytes → Bytes
close c s [] = s
close c s (d ∷ u) = if c == b'[' && d == b']' then reverse u else s

abbrev unbracket : Bytes → Bytes
unbracket [] = []
unbracket (c ∷ t) = close c (c ∷ t) (reverse t)

abbrev or_whole : Bytes → Option Bytes → Bytes
or_whole s none = s
or_whole s (some host) = host

-- What ClientIP and RequestHTTPS read of a request: Header.Get, RemoteAddr, and whether there is TLS.
pub record Request : Type 0 where
  pub header : Bytes → Bytes
  pub remote_addr : Bytes
  pub tls : Bool

abbrev any_comma : Bytes → Bool
any_comma [] = false
any_comma (c ∷ s) = c == comma || any_comma s

unfoldable pub request_https : Request → Bytes → Bool
unfolding trim_blanks contains_fold equal_fold_ascii str_eq
request_https r proto_header =
    let p = trim_blanks (r.header proto_header) in
    let named = not (str_eq proto_header []) in
    let fwd = r.header (bytes "Forwarded") in
    if r.tls
    then true
    else if named && equal_fold_ascii p (bytes "https")
    then true
    else if named && equal_fold_ascii p (bytes "http")
    then false
    else if str_eq fwd []
    then false
    else contains_fold fwd (bytes "proto=https")

-- SetClientForwardHeadersIP
unfoldable pub set_client_forward_headers : Bytes → Bytes → Dict Bytes → Dict Bytes
unfolding str_eq put
set_client_forward_headers ip proto header =
    let named = put (bytes "X-Forwarded-For") ip (put (bytes "X-Real-IP") ip header) in
    if str_eq ip []
    then header
    else if str_eq proto []
    then named
    else put (bytes "X-Forwarded-Proto") proto named

module _ (net : Net) where
  open net use {Ip, Cidr}

  -- ParseIP
  unfoldable pub parse_ip : Bytes → Option Ip
  unfolding trim_blanks str_eq
  parse_ip s =
      let s = trim_blanks s in
      let host = or_whole s (net.split_host s) in
      if str_eq s [] then none else net.parse_ip (unbracket host)

  -- isTrusted, and ContainsIP
  unfoldable pub is_trusted : Ip → List Cidr → Bool
  is_trusted ip [] = false
  is_trusted ip (n ∷ ns) = net.holds n ip || is_trusted ip ns

  abbrev pub first_of : Option Ip → Option Ip → Option Ip
  first_of none next = next
  first_of (some ip) next = some ip

  abbrev pub unless_trusted : List Cidr → Option Ip → Option Ip
  unless_trusted trusted none = none
  unless_trusted trusted (some ip) = if is_trusted ip trusted then none else some ip

  -- One part of the header: an address that is not trusted.
  unfoldable pub untrusted : List Cidr → Bytes → Option Ip
  unfolding parse_ip is_trusted
  untrusted trusted part =
      let part = trim_blanks part in
      if str_eq part [] then none else unless_trusted trusted (parse_ip part)

  -- The loop of ClientIP over the parts of the header, from its end; `part` is read so far, and the
  -- text is reversed.
  unfoldable pub from_end : List Cidr → Bytes → Bytes → Option Ip
  unfolding untrusted
  from_end trusted [] part = untrusted trusted part
  from_end trusted (c ∷ s) part =
      let more = from_end trusted s (c ∷ part) in
      let next = first_of (untrusted trusted part) (from_end trusted s []) in
      if c == comma then next else more

  abbrev pub with_remote : Option Ip → (Ip → Option Ip) → Option Ip
  with_remote none answer = none
  with_remote (some remote) answer = answer remote

  -- ClientIP for the address of the connection and the text of the header.
  unfoldable pub answer : List Cidr → Bytes → Bytes → Ip → Option Ip
  unfolding parse_ip is_trusted from_end equal_fold_ascii str_eq
  answer trusted header raw remote =
      let single = not (equal_fold_ascii header (bytes "X-Forwarded-For")) && not (any_comma raw) in
      if not (is_trusted remote trusted) || str_eq header []
      then some remote
      else if str_eq raw []
      then some remote
      else if single
      then first_of (parse_ip raw) (some remote)
      else first_of (from_end trusted (reverse raw) []) (some remote)

  unfoldable pub client_ip : Request → List Cidr → Bytes → Option Ip
  unfolding answer
  client_ip r trusted header =
      with_remote (parse_ip r.remote_addr) (answer trusted header (r.header header))

  -- ParseCIDRs; an error is none.
  abbrev onto : Option Cidr → Option (List Cidr) → Option (List Cidr)
  onto none rest = none
  onto (some n) none = none
  onto (some n) (some ns) = some (n ∷ ns)

  abbrev any_slash : Bytes → Bool
  any_slash [] = false
  any_slash (c ∷ s) = c == b'/' || any_slash s

  unfoldable pub parse_cidrs : List Bytes → Option (List Cidr)
  unfolding trim_blanks str_eq
  parse_cidrs [] = some []
  parse_cidrs (s ∷ list) =
      let s = trim_blanks s in
      let rest = parse_cidrs list in
      if str_eq s []
      then rest
      else if not (any_slash s)
      then onto (Option.map net.host_net (net.parse_ip s)) rest
      else onto (net.parse_cidr s) rest
