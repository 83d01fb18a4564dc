-- ===== src/Pipeline/Steps.antt =====
-- The parts of guard in internal/pipeline/pipeline.go up to the rate limits, in their order.
use ravenguard.Common.{
  ℕ, Bool, true, false, ◌&&◌, ◌||◌, not, Option, none, some, List, [], ◌∷◌, ◌++◌, ltb,
  if◌then◌else◌, Bytes, bytes, Instant, ◌+◌, str_eq,
}
use ravenguard.Detect.Forge.{ForgeClass, forge_none, forge_browse, forge_hot, classify_request}
use ravenguard.Protect.Config.{method_cost}
use ravenguard.Protect.Guard.{Guard}
use ravenguard.Protect.Bans.{ban_now, ban_until, strike}
use ravenguard.RateLimit.{Limiter, allow_n, allow}
use ravenguard.RateLimit.Floats.{Arithmetic}
use ravenguard.Pipeline.{
  TrapAction, trap_ban, trap_tarpit, trap_challenge, trap_block, Settings, Facts, Outcome, blocked,
  rate_limited, tarpit, upstream_down, challenged, challenge_unavailable, Pass, Step, guarded,
}

abbrev pub if_enabled : (Guard → Guard) → Option Guard → Option Guard
if_enabled op none = none
if_enabled op (some g) = some (if g.cfg.enabled then op g else g)

-- An operation of the protect guard, if there is one and it is enabled.
abbrev pub on_prot : {Num : Type 0} → (Guard → Guard) → Pass Num → Pass Num
on_prot op p = record p { edge = record p.edge { prot = if_enabled op p.edge.prot } }

abbrev pub attack_block : Option Guard → Bool
attack_block none = false
attack_block (some g) = g.cfg.attack_block

abbrev pub is_hot : ForgeClass → Bool
is_hot forge_none = false
is_hot forge_browse = false
is_hot forge_hot = true

abbrev pub is_expensive : ForgeClass → Bool
is_expensive forge_none = false
is_expensive forge_browse = true
is_expensive forge_hot = true

abbrev pub answer_if : {Num : Type 0} → Bool → Outcome → Step Num
answer_if test o p = (p, if test then some o else none)

module _ (s : Settings) (f : Facts) (now : Instant) where
  -- serveChallenge
  abbrev pub serve_challenge : Outcome
  serve_challenge = if f.has_challenge then challenged else challenge_unavailable

  abbrev pub hot_forge : Bool
  hot_forge = is_hot (classify_request s.forge_flavor f.path f.raw_query)

  -- The guard on what a client's allowance exempts it from.
  abbrev pub screened : Bool
  screened = not f.allowed && not f.git_smart_http

  -- cfg.Challenge.Enabled && h.chal != nil && !h.skipChallenge(r)
  abbrev pub may_challenge : Bool
  may_challenge = s.challenge && f.has_challenge && not f.skip_challenge

  module _ {Num : Type 0} where
    abbrev pub ban : Pass Num → Pass Num
    ban = on_prot (ban_now f.key now now)

    abbrev pub strike_client : Pass Num → Pass Num
    strike_client = on_prot (strike f.key now)

    -- The lists, the shared blocks and the feeds.
    abbrev pub list_steps : List (Step Num)
    list_steps =
        answer_if f.ip_blocked (blocked (bytes "IP blocked"))
        ∷ answer_if f.host_blocked (blocked (bytes "Host blocked"))
        ∷ answer_if f.ua_blocked (blocked (bytes "Client blocked"))
        ∷ answer_if f.shared_ip (blocked (bytes "Shared IP block"))
        ∷ answer_if f.shared_host (blocked (bytes "Shared host block"))
        ∷ answer_if f.shared_ua (blocked (bytes "Shared client block"))
        ∷ answer_if f.shared_ja4 (blocked (bytes "Shared fingerprint block"))
        ∷ answer_if f.feed_ip (blocked (bytes "Threat feed match"))
        ∷ answer_if f.feed_domain (blocked (bytes "Threat feed match"))
        ∷ []

    -- serveTrap
    unfoldable pub serve_trap : TrapAction → Pass Num → Pass Num × Option Outcome
    unfolding ban_until
    serve_trap trap_ban p = (
      on_prot (ban_until f.key (now + s.trap_ban_ttl) now) p,
      some (blocked (bytes "Honeypot path")),
    )
    serve_trap trap_tarpit p = (p, some tarpit)
    serve_trap trap_challenge p = (p, some serve_challenge)
    serve_trap trap_block p = (p, some (blocked (bytes "Honeypot path")))

    unfoldable pub trap_step : Step Num
    unfolding serve_trap
    trap_step p = if f.trap then serve_trap s.trap_action p else (p, none)

    abbrev pub health_step : Step Num
    health_step = answer_if (not f.upstream_healthy) upstream_down

    -- The WAF rules.
    unfoldable pub waf_step : Step Num
    unfolding ban_now
    waf_step p =
        if f.coraza_block
        then (ban p, some (blocked (bytes "Request blocked by WAF rules")))
        else (p, none)

    -- The attack signatures.
    unfoldable pub attack_step : Step Num
    unfolding ban_now strike
    attack_step p =
        if f.coraza_mode_block || not f.attack
        then (p, none)
        else if not (guarded p.edge.prot) || attack_block p.edge.prot
        then (ban p, some (blocked (bytes "Attack pattern blocked")))
        else (strike_client p, none)

    abbrev pub stop_with : Pass Num → Option Bytes → Pass Num × Option Outcome
    stop_with p none = (p, none)
    stop_with p (some reason) = (ban p, some (blocked reason))

    -- runSemanticML, where it handles the request.
    unfoldable pub semantic_step : Step Num
    unfolding ban_now
    semantic_step p = if screened then stop_with p f.semantic_stop else (p, none)

    -- The parts of guard from the lists to the semantic analysis.
    abbrev pub front_steps : List (Step Num)
    front_steps =
        list_steps ++ (trap_step ∷ health_step ∷ waf_step ∷ attack_step ∷ semantic_step ∷ [])

  -- What denyLimited answers.
  abbrev pub limited : Outcome
  limited =
      if f.stream
      then rate_limited
      else if s.challenge_over && may_challenge
      then serve_challenge
      else rate_limited

  -- The cost of the request.
  unfoldable pub cost : Option Guard → ℕ
  unfolding classify_request method_cost
  cost prot =
      let base = if guarded prot then method_cost f.method s.write_cost else 1 in
      if hot_forge && ltb base s.forge_rate_cost then s.forge_rate_cost else base

  module _ (A : Arithmetic) where
    open A use {Num}

    -- A limiter that is not configured lets everything pass.
    abbrev pub try_limit :
        Option (Limiter Num) → (Limiter Num → Limiter Num × Bool) → Option (Limiter Num) × Bool
    try_limit none call = (none, true)
    try_limit (some l) call = let (l', ok) = call l in (some l', ok)

    unfoldable pub global_step : Step Num
    unfolding allow
    global_step p =
        let (l, ok) = try_limit p.edge.global_limit (allow A (bytes "site") (bytes "/") now) in
        (record p { edge = record p.edge { global_limit = l } }, if ok then none else some limited)

    unfoldable pub subnet_step : Step Num
    unfolding allow_n cost
    subnet_step p =
        if f.has_client_ip && not (str_eq f.subnet_key [])
        then (let (l, ok) =
              try_limit p.edge.subnet_limit
                (allow_n A f.subnet_key (bytes "/") (cost p.edge.prot) now) in
            (
              record p { edge = record p.edge { subnet_limit = l } },
              if ok then none else some limited,
            ))
        else (p, none)

    -- The limiter of the client; only it strikes.
    unfoldable pub client_step : Step Num
    unfolding allow_n cost strike
    client_step p =
        let (l, ok) = try_limit p.edge.limiter (allow_n A f.key f.path (cost p.edge.prot) now) in
        let after = record p { edge = record p.edge { limiter = l } } in
        if ok then (after, none) else (strike_client after, some limited)

    abbrev pub rate_steps : List (Step Num)
    rate_steps = if s.rate_limit then global_step ∷ subnet_step ∷ client_step ∷ [] else []
