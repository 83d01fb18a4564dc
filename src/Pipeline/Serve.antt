-- ===== src/Pipeline/Serve.antt =====
-- guard and proxy of internal/pipeline/pipeline.go, composed of their parts.
use ravenguard.Common.{
  Bool, true, false, ◌&&◌, ◌||◌, not, Option, none, some, List, [], ◌∷◌, ◌++◌, if◌then◌else◌, bytes,
  Instant,
}
use ravenguard.Detect.Counter.{Tracker, record_penalty, record_not_found}
use ravenguard.Protect.Config.{
  SizeVerdict, size_ok, url_too_large, body_too_large, check_request_size,
}
use ravenguard.Protect.Guard.{Guard}
use ravenguard.Protect.Bans.{banned}
use ravenguard.Protect.Slots.{acquire, release}
use ravenguard.RateLimit.Floats.{Arithmetic}
use ravenguard.Pipeline.{
  Settings, Facts, Outcome, proxied, blocked, rate_limited, clearance_required, access_refused,
  schema_refused, Edge, Pass, Step, in_order,
}
use ravenguard.Pipeline.Steps.{
  serve_challenge, hot_forge, screened, may_challenge, front_steps, trap_step, waf_step,
  attack_step, semantic_step, rate_steps,
}
use ravenguard.Pipeline.Detection.{detect_steps}

module _ (s : Settings) (f : Facts) (now : Instant) where
  abbrev is_none : {A : Type 0} → Option A → Bool
  is_none none = true
  is_none (some a) = false

  abbrev count_with : (Tracker → Tracker) → Option Tracker → Option Tracker
  count_with op none = none
  count_with op (some t) = some (op t)

  -- isSameOriginSSE, and the other requests that a challenge lets pass.
  abbrev pub passes_softly : Bool
  passes_softly =
      not s.challenge_always
      && not (hot_forge s f now)
      && (f.sse_subresource || not f.wants_html && f.subrequest)

  module _ {Num : Type 0} where
    abbrev pub goes_uncounted : Edge Num → Bool
    goes_uncounted e =
        f.stream || is_none e.nf && is_none e.pen && not s.caches_misses || not s.detect

    -- proxy: the status of the upstream's response is counted, but for streams, without detection
    -- and when nothing would read it.
    unfoldable pub proxy : Pass Num → Pass Num
    unfolding record_not_found record_penalty
    proxy p = if goes_uncounted p.edge then p else record p {
      edge = record p.edge {
        nf = count_with (record_not_found f.key f.status now) p.edge.nf;
        pen = count_with (record_penalty f.key f.status now) p.edge.pen;
      };
    }

    -- checkAccess, checkOpenAPI, proxy
    unfoldable pub admit : Pass Num → Pass Num × Outcome
    unfolding proxy
    admit p =
        if not f.access_ok
        then (p, access_refused)
        else if not f.schema_ok
        then (p, schema_refused)
        else (proxy p, proxied)

    -- A WebSocket handshake cannot show a challenge.
    unfoldable pub websocket_step : Step Num
    unfolding admit
    websocket_step p =
        if not f.websocket
        then (p, none)
        else if not f.allowed && may_challenge s f now && not f.has_clearance
        then (p, some clearance_required)
        else (let (p', o) = admit p in (p', some o))

    unfoldable pub challenge_step : Step Num
    challenge_step p = (
      p,
      if screened s f now
            && may_challenge s f now
            && not f.has_clearance
            && (s.challenge_always || p.need_challenge || screened s f now && f.semantic_challenge)
            && not passes_softly
          then some (serve_challenge s f now)
          else none,
    )

  module _ (A : Arithmetic) where
    open A use {Num}

    -- The parts behind the semantic analysis.
    abbrev pub back_steps : List (Step Num)
    back_steps =
        rate_steps s f now A
        ++ (websocket_step ∷ (if screened s f now && s.detect then detect_steps s f now else [])
            ++ (challenge_step ∷ []))

    -- guard behind the protect guard.
    abbrev pub steps : List (Step Num)
    steps = front_steps s f now ++ back_steps

    abbrev pub answered : Pass Num × Option Outcome → Edge Num × Outcome
    answered (p, none) = let (p', o) = admit p in (p'.edge, o)
    answered (p, some o) = (p.edge, o)

    unfoldable pub inner : Edge Num → Edge Num × Outcome
    unfolding in_order trap_step waf_step attack_step semantic_step websocket_step challenge_step
        admit
    inner e =
        answered (in_order steps (record { edge = e; need_challenge = false; detect_score = 0 }))

    abbrev pub set_prot : Edge Num → Guard → Edge Num
    set_prot e g = record e { prot = some g }

    abbrev pub release_in : Option Guard → Option Guard
    release_in none = none
    release_in (some g) = some (release f.key g)

    -- defer h.prot.Release(bindID)
    abbrev pub after_release : Edge Num × Outcome → Edge Num × Outcome
    after_release (e, o) = (record e { prot = release_in e.prot }, o)

    abbrev pub with_slot : Edge Num → Guard × Bool → Edge Num × Outcome
    with_slot e (g, true) = after_release (inner (set_prot e g))
    with_slot e (g, false) = (set_prot e g, rate_limited)

    abbrev pub unless_banned : Edge Num → Guard × Bool → Edge Num × Outcome
    unless_banned e (g, true) = (set_prot e g, blocked (bytes "Temporarily banned"))
    unless_banned e (g, false) = with_slot e (acquire f.key g)

    abbrev pub by_size : Edge Num → Guard → SizeVerdict → Edge Num × Outcome
    by_size e g size_ok = unless_banned e (banned f.key now g)
    by_size e g url_too_large = (e, blocked (bytes "url too large"))
    by_size e g body_too_large = (e, blocked (bytes "body too large"))

    -- The part of guard behind `h.prot != nil && h.prot.Enabled()`.
    unfoldable pub by_prot : Edge Num → Option Guard → Edge Num × Outcome
    unfolding inner banned acquire release check_request_size
    by_prot e none = inner e
    by_prot e (some g) =
        if g.cfg.enabled
        then by_size e g (check_request_size g.cfg f.path f.raw_query f.content_length)
        else inner e

    -- guard
    unfoldable pub guard : Edge Num → Edge Num × Outcome
    unfolding by_prot
    guard e = by_prot e e.prot
