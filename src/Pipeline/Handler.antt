-- ===== src/Pipeline/Handler.antt =====
-- internal/pipeline/pipeline.go: the packages that a Handler holds, and what guard asks them about a
-- request. Package net, the privacy hash, the search of faststr.Matcher, url.PathUnescape and
-- url.QueryUnescape, HMAC-SHA256 and the scorer are parameters.
use ravenguard.Common.{
  ℕ, Bool, true, false, ◌&&◌, ◌||◌, not, Option, none, some, List, [], ◌∷◌, if◌then◌else◌, Bytes,
  bytes, str_eq, Instant,
}
use ravenguard.Common.Ascii.{has_prefix}
use ravenguard.Common.Dict.{Dict}
use ravenguard.Common.Int.{ℤ}
use ravenguard.Common.Int64.{Int64}
use ravenguard.Common.Net.{Net}
use ravenguard.Access
use ravenguard.Access.{CompiledPolicy, AccessResult, check}
use ravenguard.Access.Rules.{is_allow}
use ravenguard.AddressLists.Allowlist
use ravenguard.AddressLists.Blocklist
use ravenguard.BodyBuf
use ravenguard.Detect.Attack.{Target, is_some, attack_match}
use ravenguard.Detect.Requests.{
  Request, is_git_smart_http, is_stream_protocol, is_websocket_upgrade, is_sse,
}
use ravenguard.Detect.Score
use ravenguard.Detect.Score.{is_ai_ua}
use ravenguard.IpUtil
use ravenguard.IpUtil.{client_ip, is_trusted}
use ravenguard.Pipeline.{Facts}
use ravenguard.Pipeline.Payloads.{Scorer, Payload, inspected_body, run_semantic_ml}
use ravenguard.Pipeline.Requests.{
  strip_port, is_top_level_navigation, wants_html_challenge, is_same_origin_request,
  is_browser_same_origin_subrequest,
}
use ravenguard.Pipeline.Traps
use ravenguard.Pipeline.Traps.{TrapSet}
use ravenguard.Router
use ravenguard.Router.{Compiled, Table}
use ravenguard.Semantic.Engine.{Engine}
use ravenguard.ThreatShare
use ravenguard.ThreatShare.{Overlay}

-- A request as the pipeline reads it: what its parts read, and the value of a cookie.
pub record HttpRequest : Type 0 where
  pub base : Request
  pub raw_path : Bytes
  pub remote_addr : Bytes
  pub tls : Bool
  pub content_length : ℤ
  pub body : BodyBuf.Request
  pub cookie : Bytes → Option Bytes

-- access.Manager
pub record AccessManager (Nets : Type 0) : Type 0 where
  pub secret : Bytes
  pub cookie_name : Bytes
  pub policies : Dict (CompiledPolicy Nets)

-- The functions of other code.
pub record Packages (net : Net) : Type 0 where
  -- clientBind
  pub bind : Bytes → Bytes
  -- iputil.SubnetKey
  pub subnet : net.Ip → Bytes
  pub found : List Bytes → Bytes → Bool
  pub path_unescape : Bytes → Option Bytes
  pub query_unescape : Bytes → Option Bytes
  pub hmac : Bytes → Bytes → Bytes

pub record Handler (net : Net) : Type 0 where
  pub behind_proxy : Bool
  pub trusted : List net.Cidr
  pub real_ip_header : Bytes
  pub lists : Option (Blocklist.Sets net)
  pub allows : Option (Allowlist.Sets net)
  pub threat_overlay : Option Overlay
  pub traps : Option TrapSet
  pub semantic : Option Engine
  pub ml : Option Scorer
  pub max_body_inspect : ℕ
  pub routes : Option Table
  pub skip_path_prefixes : List Bytes
  pub access : Option (AccessManager (List net.Cidr))
  pub detect_cfg : Score.Config

-- The loop of skipChallenge.
unfoldable pub any_prefix : Bytes → List Bytes → Bool
any_prefix path [] = false
any_prefix path (p ∷ ps) = not (str_eq p []) && has_prefix path p || any_prefix path ps

module _ {net : Net} (P : Packages net) (h : Handler net) (r : HttpRequest) where
  abbrev pub ip_request : IpUtil.Request
  ip_request = record { header = r.base.header; remote_addr = r.remote_addr; tls = r.tls }

  -- resolveClientIP
  unfoldable pub resolve_client_ip : Option net.Ip
  unfolding client_ip
  resolve_client_ip =
      if h.behind_proxy
      then client_ip net ip_request h.trusted h.real_ip_header
      else client_ip net ip_request [] []

  abbrev show_ip : Option net.Ip → Bytes
  show_ip none = []
  show_ip (some ip) = net.show ip

  -- bindID
  abbrev pub bind_id : Bytes
  bind_id = P.bind (show_ip resolve_client_ip)

  abbrev subnet_of : Option net.Ip → Bytes
  subnet_of none = []
  subnet_of (some ip) = P.bind (P.subnet ip)

  abbrev pub host : Bytes
  host = strip_port r.base.host

  abbrev pub user_agent : Bytes
  user_agent = r.base.header (bytes "User-Agent")

  abbrev pub target : Target
  target = record { path = r.base.path; raw_path = r.raw_path; raw_query = r.base.raw_query }

  abbrev pub asks_lists : Option (Blocklist.Sets net) → (Blocklist.Sets net → Bool) → Bool
  asks_lists none test = false
  asks_lists (some s) test = test s

  abbrev pub asks_overlay : Option Overlay → (Overlay → Bool) → Bool
  asks_overlay none test = false
  asks_overlay (some o) test = test o

  abbrev allowed_by : Option (Allowlist.Sets net) → Bool
  allowed_by none = false
  allowed_by (some s) = Allowlist.matches net s resolve_client_ip user_agent r.base.header

  abbrev pub trapped_by : Option TrapSet → Bool
  trapped_by none = false
  trapped_by (some t) = Traps.matches t r.base.path

  -- routes.Lookup
  abbrev pub route_of : Option Table → Option Compiled
  route_of none = none
  route_of (some t) = Router.lookup r.base.host r.base.path t

  abbrev skips : Option Compiled → Bool
  skips none = false
  skips (some c) = c.route.skip_challenge

  -- skipChallenge
  unfoldable pub skip_challenge : Bool
  unfolding any_prefix
  skip_challenge =
      if any_prefix r.base.path h.skip_path_prefixes then true else skips (route_of h.routes)

  abbrev pub policy_of : Option Compiled → Bytes
  policy_of none = []
  policy_of (some c) = c.route.access_policy_id

  -- am.Check, for a policy of the route and the Unix time.
  abbrev pub asks_access : Int64 → Bytes → Option (AccessManager (List net.Cidr)) → AccessResult
  asks_access unix policy none = Access.allow
  asks_access unix policy (some m) =
      check P.hmac (λ nets ip. is_trusted net ip nets) m.secret m.policies policy bind_id unix
        record {
          header = r.base.header;
          cookie = r.cookie m.cookie_name;
          client_ip = resolve_client_ip;
        }

  -- checkAccess; a policy without a name lets everything pass.
  unfoldable pub check_access : Int64 → Bool
  unfolding check is_trusted
  check_access unix =
      if str_eq (policy_of (route_of h.routes)) []
      then true
      else is_allow (asks_access unix (policy_of (route_of h.routes)) h.access)

  -- dcfg, for an agent that is verified.
  abbrev forgiving : Bool → Score.Config
  forgiving forgiven =
      if forgiven then record h.detect_cfg { ai_ua_action = bytes "allow" } else h.detect_cfg

  module _ (clock : ℕ → Instant) where
    abbrev pub payload : Payload
    payload =
        run_semantic_ml clock r.base (inspected_body h.max_body_inspect r.base.method r.body)
          h.semantic h.ml

  -- The answers to guard, among those that are given: those of the modelled packages.
  unfoldable pub asked : (clock : ℕ → Instant) (now : Instant) (unix : Int64) → Facts → Facts
  unfolding resolve_client_ip strip_port skip_challenge check_access run_semantic_ml inspected_body
      attack_match
  asked clock now unix f = record f {
    key = bind_id;
    path = r.base.path;
    raw_query = r.base.raw_query;
    method = r.base.method;
    user_agent = user_agent;
    content_length = r.content_length;
    has_client_ip = is_some resolve_client_ip;
    subnet_key = subnet_of resolve_client_ip;
    allowed = allowed_by h.allows;
    git_smart_http = is_git_smart_http r.base;
    stream = is_stream_protocol r.base;
    websocket = is_websocket_upgrade r.base;
    sse_subresource =
        is_sse r.base && is_same_origin_request r.base && not (is_top_level_navigation r.base);
    wants_html = wants_html_challenge r.base;
    subrequest = is_browser_same_origin_subrequest r.base;
    ip_blocked = asks_lists h.lists (λ s. Blocklist.ip_blocked net s resolve_client_ip);
    host_blocked = asks_lists h.lists (λ s. Blocklist.dns_blocked net s host);
    ua_blocked = asks_lists h.lists (λ s. Blocklist.ua_blocked net P.found s user_agent);
    shared_ip = asks_overlay h.threat_overlay (λ o. elim resolve_client_ip [
      | none ↦ false
      | some ip ↦ ThreatShare.ip_blocked (net.show ip) now o
    ]);
    shared_host = asks_overlay h.threat_overlay (λ o. ThreatShare.dns_blocked host now o);
    shared_ua = asks_overlay h.threat_overlay (λ o. ThreatShare.ua_blocked user_agent now o);
    shared_ja4 =
        asks_overlay h.threat_overlay
          (λ o. ThreatShare.ja4_blocked (r.base.header (bytes "X-JA4")) now o);
    trap = trapped_by h.traps;
    attack = is_some (attack_match P.path_unescape P.query_unescape target);
    semantic_stop = (payload clock).stop;
    ml_extra = (payload clock).extra;
    semantic_challenge = (payload clock).need_chal;
    score = λ forgiven. (Score.score P.found r.base (forgiving forgiven) false).score;
    ai_ua = is_ai_ua P.found user_agent;
    skip_challenge = skip_challenge;
    access_ok = check_access unix;
  }
