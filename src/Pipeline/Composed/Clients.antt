-- ===== src/Pipeline/Composed/Clients.antt =====
-- guard on who asks: a banned client behind a proxy, and the access policy of a route.
use ravenguard.Common.{
  ℕ, ◌≡◌, refl, ap, true, false, ◌&&◌, ◌||◌, not, some, List, [], Bytes, bytes, str_eq, Instant,
  arith, if◌then◌else◌,
}
use mathlib.Core.List.{reverse}
use ravenguard.Access.{CompiledPolicy, AccessRequest, verify_value}
use ravenguard.Access.Rules.{is_none, any_holds, all_hold, any_secret, check-verdict}
use ravenguard.Common.Dict
use ravenguard.Common.Int64.{Int64}
use ravenguard.Common.Net.{Net}
use ravenguard.Common.Strings.{split}
use ravenguard.Common.Strings.Parts.{joined}
use ravenguard.IpUtil.{is_trusted, comma, parse_ip}
use ravenguard.IpUtil.Forwarded.{first_hop, forwarded_for, client_ip-appended}
use ravenguard.Pipeline.{Settings, Facts, Edge, blocked}
use ravenguard.Pipeline.Banned.{guard-banned}
use ravenguard.Pipeline.Barred.{refused_early, refused_late, guard-barred}
use ravenguard.Pipeline.Gates.{is_proxied}
use ravenguard.Pipeline.Handler.{
  HttpRequest, Packages, Handler, AccessManager, ip_request, resolve_client_ip, bind_id,
  check_access, asked,
}
use ravenguard.Pipeline.Serve.{guard}
use ravenguard.Protect.Config.{size_ok, check_request_size}
use ravenguard.Protect.Guard.{Guard}
use ravenguard.Protect.Bans.{banned}
use ravenguard.RateLimit.Floats.{Arithmetic}
use ravenguard.Router.{Table, Compiled, lookup}

refused_access : (f : Facts) → f.access_ok ≡ false → (refused_early f || refused_late f) ≡ true
refused_access f h = ground (arith, h)

module _ {net : Net} (P : Packages net) (h : Handler net) (r : HttpRequest) where
  -- The key of a client behind a trusted proxy is that of the hop that the proxies added.
  resolve_client_ip-appended :
      (remote ip : net.Ip) (front hops : Bytes)
      → h.behind_proxy ≡ true
      → h.real_ip_header ≡ forwarded_for
      → parse_ip net r.remote_addr ≡ some remote
      → is_trusted net remote h.trusted ≡ true
      → r.base.header forwarded_for ≡ joined comma front hops
      → first_hop net h.trusted (reverse (split comma hops)) ≡ some ip
      → resolve_client_ip P h r ≡ some ip
  unfolding resolve_client_ip
  resolve_client_ip-appended remote ip front hops behind named connected trusted header found =
      rw (behind, named)
        (client_ip-appended net h.trusted (ip_request P h r) remote connected front hops ip trusted
          header found)

  -- What a request shows to the access manager.
  abbrev pub shows : AccessManager (List net.Cidr) → AccessRequest net.Ip
  shows m = record {
    header = r.base.header;
    cookie = r.cookie m.cookie_name;
    client_ip = resolve_client_ip P h r;
  }

  module _ (clock : ℕ → Instant) (now : Instant) (unix : Int64) (f : Facts) (s : Settings)
      (A : Arithmetic) (e : Edge A.Num) where
    -- A client that guard has banned under the address which the proxies in front of it report stays
    -- refused, whatever it writes at the front of X-Forwarded-For and whatever else it sends within the
    -- size limits.
    pub guard-forwarded_ban :
        (g : Guard) (remote ip : net.Ip) (front hops : Bytes)
        → h.behind_proxy ≡ true
        → h.real_ip_header ≡ forwarded_for
        → parse_ip net r.remote_addr ≡ some remote
        → is_trusted net remote h.trusted ≡ true
        → r.base.header forwarded_for ≡ joined comma front hops
        → first_hop net h.trusted (reverse (split comma hops)) ≡ some ip
        → e.prot ≡ some g
        → g.cfg.enabled ≡ true
        → check_request_size g.cfg r.base.path r.base.raw_query r.content_length ≡ size_ok
        → (banned (P.bind (net.show ip)) now g).1 ≡ true
        → (guard s (asked P h r clock now unix f) now A e).1 ≡ blocked (bytes "Temporarily banned")
    unfolding asked
    guard-forwarded_ban g remote ip front hops behind named connected trusted header found installed
          on size ban =
        let who =
          resolve_client_ip-appended remote ip front hops behind named connected trusted header
            found in
        let ban' : (banned (bind_id P h r) now g).1 ≡ true = rw (bind_id, who) ban in
        ap (λ t. t.1)
          (guard-banned s (asked P h r clock now unix f) now A e g installed on size ban')

    -- A request for a route with a known access policy is not proxied if no cookie clears it and its
    -- rules are not met, by the address that ClientIP gives, as the mode of the policy asks.
    pub guard-policy :
        (t : Table) (c : Compiled) (m : AccessManager (List net.Cidr))
        (cp : CompiledPolicy (List net.Cidr))
        → h.routes ≡ some t
        → lookup r.base.host r.base.path t ≡ some c
        → str_eq c.route.access_policy_id [] ≡ false
        → h.access ≡ some m
        → Dict.get c.route.access_policy_id m.policies ≡ some cp
        → verify_value P.hmac m.secret c.route.access_policy_id
            (bind_id P h r)
            unix
            (r.cookie m.cookie_name)
          ≡ false
        → (if cp.any_mode
            then is_none cp.rules
              || any_holds (λ nets ip. is_trusted net ip nets) (shows m) cp.rules
            else all_hold (λ nets ip. is_trusted net ip nets) (shows m) cp.rules
              && not (any_secret cp.rules))
          ≡ false
        → is_proxied (guard s (asked P h r clock now unix f) now A e).1 ≡ false
    unfolding asked check_access
    guard-policy t c m cp routed found named managed known uncleared unmet =
        let verdict =
          (check-verdict (λ nets ip. is_trusted net ip nets) P.hmac m.secret
            c.route.access_policy_id (bind_id P h r) unix m.policies cp (shows m) named known).0 in
        guard-barred s (asked P h r clock now unix f) now A e (
          refused_access (asked P h r clock now unix f)
            (rw (routed, found, named, managed, verdict, uncleared, unmet) refl))
