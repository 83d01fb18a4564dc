-- ===== src/Pipeline/Composed/Tests.antt =====
-- guard on the answers of its packages, at concrete requests.
use ravenguard.Common.{
  ◌≡◌, refl, Bool, true, false, none, some, List, [], ◌∷◌, if◌then◌else◌, Bytes, bytes, str_eq, inr,
  arith,
}
use ravenguard.Common.Ascii.{contains, has_prefix, has_suffix}
use ravenguard.Common.Dict
use ravenguard.Common.Int.{pos}
use ravenguard.Common.Sharded
use ravenguard.Common.Strings.{split}
use ravenguard.Access.{ip_allowlist, CompiledRule, CompiledPolicy}
use ravenguard.AddressLists.Blocklist
use ravenguard.AddressLists.Lines.{Files, all_lines, normalize_host}
use ravenguard.BodyBuf.{capture}
use ravenguard.Detect.Attack.{contains_byte, any_bytes, may_have_injection}
use ravenguard.IpUtil.{client_ip, is_trusted, untrusted, parse_ip}
use ravenguard.Pipeline.{blocked}
use ravenguard.Pipeline.Gates.{is_proxied}
use ravenguard.Pipeline.Handler.{HttpRequest, Handler, AccessManager, asked}
use ravenguard.Pipeline.Requests.{strip_port}
use ravenguard.Pipeline.Serve.{guard}
use ravenguard.Protect.Bans.{ban_until, banned, banned_entry}
use ravenguard.Protect.Config.{check_request_size, url_length, with_defaults}
use ravenguard.Protect.Guard.{new}
use ravenguard.Pipeline.Tests.{settings, visit, edge, banning}
use ravenguard.RateLimit.Floats.{nano}
use ravenguard.Router.{Compiled, lookup, first_match, serves, match_prefix}
use ravenguard.Semantic.Decoders.{query_unescape, try_url_decode}
use ravenguard.Semantic.Engine.{
  SemanticConfig, apply, inputs, skip_body_ct, cheap_prefilter, analyze_all, path_skipped,
}
use ravenguard.Semantic.Decode.{member, decodings, trunc_evidence}
use ravenguard.Semantic.Analyze.{
  no_result, score_sqli, score_xss, score_cmd, score_path, mark, finish, has_sql_union_select,
  behind, has_stacked_query, has_tautology, has_shell_verb,
}
use ravenguard.Pipeline.Payloads.{inspected_body, after_engine}
use ravenguard.Detect.Requests.{is_git_smart_http}
use ravenguard.Faststr.{has_prefix_fold, equal_fold_ascii}
use ravenguard.Common.Ascii.{trim_last_dot, trim_space}
use ravenguard.ThreatShare.{
  ThreatEntry, Overlay, new_overlay, apply_one, apply_key, note_seen, expiry, put_dns, sweep,
}
use ravenguard.ThreatShare.Blocks.{targets}
use ravenguard.ThreatShare.Kept.{Change, applied, swept, change_all}
use ravenguard.Pipeline.Composed.Sample.{dotted_net, packages, handler, base, request, still}
use ravenguard.Pipeline.Composed.Lists.{guard-host_line, guard-shared_host}
use ravenguard.Pipeline.Composed.Payload.{guard-payload}
use ravenguard.Pipeline.Composed.Clients.{guard-forwarded_ban, guard-policy}

runs : Unit {0}
unfolding parse_ip is_trusted split untrusted client_ip ban_until new with_defaults
    check_request_size url_length banned banned_entry Sharded.get Sharded.put Sharded.delete
    Sharded.empty Dict.get Dict.put Dict.delete str_eq all_lines Blocklist.load_sets normalize_host
    strip_port contains_byte any_bytes contains has_prefix has_suffix may_have_injection
    query_unescape
runs = tt

-- A client whose key is banned, with an address of its own in front of that of the proxy.
guard-forwarded_ban_example :
    (guard settings
      (asked packages handler request still 20 0 visit)
      20
      nano
      (record edge { prot = some banning })).1
    ≡ blocked (bytes "Temporarily banned")
unfolding runs
guard-forwarded_ban_example =
    guard-forwarded_ban packages handler request still 20 0 visit settings nano
      (record edge { prot = some banning }) banning (bytes "10.0.0.1") (bytes "9.9.9.9")
      (bytes "6.6.6.6") (bytes "9.9.9.9") refl refl refl refl refl refl refl refl refl refl

abbrev disk : Files
disk name =
    if str_eq name (bytes "dns")
    then some (bytes "# hosts" ∷ bytes " *.Evil.example. # seen" ∷ [])
    else none

-- Its host lies below a host of the list.
guard-host_line_example :
    is_proxied
      (guard settings
        (asked packages
          (record handler {
            lists =
                some
                  (Blocklist.load_sets dotted_net disk 3 []
                    (bytes "dns" ∷ [])
                    []
                    (Blocklist.new dotted_net)).0;
          })
          request
          still
          20
          0
          visit)
        20
        nano
        edge).1
    ≡ false
unfolding runs
guard-host_line_example =
    guard-host_line packages
      (record handler {
        lists =
            some
              (Blocklist.load_sets dotted_net disk 3 [] (bytes "dns" ∷ []) []
                (Blocklist.new dotted_net)).0;
      })
      request still 20 0 visit settings nano edge disk 3 [] (bytes "dns" ∷ []) []
      (bytes "*.Evil.example." ∷ []) (Blocklist.new dotted_net) refl refl refl
      (bytes "evil.example", (bytes "*.Evil.example.", refl, refl, cc), inr (bytes "www", refl))

abbrev bad_host : ThreatEntry
bad_host = record {
  id = bytes "2";
  key_type = bytes "dns";
  key = bytes "evil.example.";
  ttl_seconds = 60;
  reason = [];
  expires_at_unix = 0;
}

abbrev shared : Overlay
shared = record (new_overlay 10) {
  dns = (bytes "evil.example", 60000000005) ∷ [];
  seen = (bytes "2", true) ∷ [];
}

abbrev no_ip : Bytes → Bool
no_ip s = false

applies : Unit {0}
unfolding apply_one apply_key note_seen expiry put_dns trim_last_dot trim_space new_overlay Dict.get
    Dict.put Dict.delete str_eq strip_port
applies = tt

host_applied :
    apply_one no_ip bad_host 5 6 (targets none (new_overlay 10)) ≡ (targets none shared, true)
unfolding applies
host_applied = refl

-- The entry comes again with another identifier, and a sweep runs.
abbrev later : List Change
later = applied (record bad_host { id = bytes "3" }) 8 9 ∷ swept 10 ∷ []

abbrev renewed : Overlay
renewed = record (new_overlay 10) {
  dns = (bytes "evil.example", 60000000008) ∷ [];
  seen = (bytes "3", true) ∷ (bytes "2", true) ∷ [];
}

after_later : (change_all no_ip later (targets none shared)).overlay ≡ some renewed
unfolding applies sweep Dict.keep
after_later = refl

guard-shared_host_example :
    is_proxied
      (guard settings
        (asked packages (record handler { threat_overlay = some renewed }) request still 20 0 visit)
        20
        nano
        edge).1
    ≡ false
guard-shared_host_example =
    guard-shared_host packages (record handler { threat_overlay = some renewed }) request still 20 0
      visit settings nano edge no_ip bad_host (bytes "www") 5 6 none (new_overlay 10) shared renewed
      later host_applied (unfold applies in refl)
      (inr (inr (unfold applies in omega arith)), (omega arith, tt)) after_later refl
      (unfold applies in refl) (inr (unfold applies in refl)) (unfold applies in omega arith)

abbrev probing : HttpRequest
probing = record request { base = record base { raw_query = bytes "f=%2e%2E/key" } }

abbrev strict : SemanticConfig
strict = record {
  enabled = true;
  mode = bytes "block";
  max_body_inspect = 0;
  max_decode_depth = 3;
  max_decode_bytes = 1000;
  max_cpu_nanos = 10;
  strict_budget = true;
  families = [];
  skip_path_prefixes = bytes "/static" ∷ [];
}

asks : Unit {0}
unfolding asked is_git_smart_http has_prefix_fold equal_fold_ascii
asks = tt

semantics : Unit {0}
unfolding apply trim_space str_eq inputs skip_body_ct inspected_body capture member cheap_prefilter
    decodings try_url_decode query_unescape analyze_all score_sqli score_xss score_cmd score_path
    mark finish has_sql_union_select behind has_stacked_query has_tautology has_shell_verb contains
    has_prefix path_skipped has_suffix trunc_evidence
semantics = tt

abbrev scripted : HttpRequest
scripted = record request { base = record base { raw_query = bytes "q=%3Cscript%3E" } }

-- In mode shadow a match that blocks nothing still adds 40 to the score of detection.
shadow_adds :
    after_engine
      (apply (record strict { mode = bytes "shadow" }))
      (record no_result { matched = true; score = 85 })
    ≡ record { extra = 40; need_chal = false; stop = none }
unfolding after_engine apply trim_space str_eq
shadow_adds = refl

guard-payload_example :
    is_proxied
      (guard settings
        (asked packages
          (record handler { semantic = some (apply strict) })
          scripted
          still
          20
          0
          visit)
        20
        nano
        edge).1
    ≡ false
guard-payload_example =
    guard-payload packages (record handler { semantic = some (apply strict) }) scripted still 20 0
      visit settings nano edge (apply strict) (bytes "q=%3Cscript%3E") (bytes "q=<script>")
      (unfold asks in refl) (unfold asks in refl) refl (unfold semantics in refl)
      (unfold semantics in refl) (unfold semantics in refl) (unfold semantics in refl)
      (unfold semantics in refl) (unfold semantics in refl) (inr (unfold semantics in refl))
      (unfold semantics in omega arith)

abbrev inner_only : CompiledRule (List Bytes)
inner_only = record {
  rule = record {
    type = ip_allowlist;
    secret = [];
    secret_hash = [];
    header_name = [];
    header_value = [];
    cidrs = bytes "10.1.1.1" ∷ [];
    user_agents = [];
  };
  nets = some (bytes "10.1.1.1" ∷ []);
}

abbrev inner_policy : CompiledPolicy (List Bytes)
inner_policy = record {
  id = bytes "staff";
  any_mode = false;
  cookie_ttl = 0;
  rules = inner_only ∷ [];
}

abbrev manager : AccessManager (List Bytes)
manager = record {
  secret = bytes "k";
  cookie_name = bytes "rg";
  policies = (bytes "staff", inner_policy) ∷ [];
}

abbrev staff_route : Compiled
staff_route = record {
  route = record {
    id = bytes "r";
    enabled = true;
    hosts = [];
    path_prefix = bytes "/";
    upstream_id = bytes "u";
    strip_prefix = false;
    priority = pos 0;
    skip_challenge = false;
    access_policy_id = bytes "staff";
  };
  hosts = [];
  prefix = bytes "/";
  upstream = record { id = bytes "u"; url = [] };
}

abbrev guarded : Handler dotted_net
guarded = record handler {
  routes = some (record { compiled = staff_route ∷ [] });
  access = some manager;
}

guard-policy_example :
    is_proxied (guard settings (asked packages guarded request still 20 0 visit) 20 nano edge).1
    ≡ false
unfolding asked lookup first_match serves match_prefix strip_port Dict.get str_eq
guard-policy_example =
    guard-policy packages guarded request still 20 0 visit settings nano edge
      (record { compiled = staff_route ∷ [] }) staff_route manager inner_policy refl refl refl refl
      refl refl refl
