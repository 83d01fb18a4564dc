-- ===== src/Pipeline/Detection.antt =====
-- The parts of guard in internal/pipeline/pipeline.go that score a request, for a client that is
-- screened.
use ravenguard.Common.{
  ℕ, Bool, true, false, ◌&&◌, ◌||◌, Option, none, some, List, [], ◌∷◌, ltb, leb, if◌then◌else◌,
  Bytes, bytes, Instant, ◌+◌,
}
use ravenguard.Detect.Forge.{classify_request}
use ravenguard.Detect.Behavior.{BehaviorTracker, record_request, strikes_exceeded, score, total}
use ravenguard.Detect.Counter.{Tracker, exceeded}
use ravenguard.Protect.Bans.{ban_now, strike}
use ravenguard.Pipeline.{
  AiPolicy, ai_allow, ai_block, ai_pay, CountAction, count_block, count_tarpit, count_off,
  count_challenge, WebBot, wba_none, wba_verified, wba_invalid, Settings, Facts, Outcome, blocked,
  tarpit, payment_required, Pass, Step,
}
use ravenguard.Pipeline.Steps.{ban, strike_client, is_expensive}

module _ (s : Settings) (f : Facts) (now : Instant) where
  -- ClassifyRequest as Record reads it.
  abbrev expensive : Bytes → Bytes → Bool
  expensive path raw_query = is_expensive (classify_request s.forge_flavor path raw_query)

  -- h.beh != nil: Record, then StrikesExceeded.
  unfoldable pub visit : Option BehaviorTracker → Option BehaviorTracker × Bool
  unfolding record_request strikes_exceeded
  visit none = (none, false)
  visit (some t) =
      let (t', over) =
        strikes_exceeded f.key now
          (record_request expensive f.key f.path f.raw_query f.method f.user_agent now t) in
      (some t', over)

  -- h.beh != nil: Score.
  unfoldable pub behave : Option BehaviorTracker → Option BehaviorTracker × ℕ
  unfolding score total
  behave none = (none, 0)
  behave (some t) = let (t', reasons) = score f.key now t in (some t', total reasons)

  -- A verified agent, unless AI is blocked or pays, is not scored by its user agent.
  abbrev forgives : WebBot → AiPolicy → Bool
  forgives wba_verified ai_allow = true
  forgives wba_verified ai_block = false
  forgives wba_verified ai_pay = false
  forgives wba_none p = false
  forgives wba_invalid p = false

  abbrev spoof_points : WebBot → ℕ
  spoof_points wba_none = 0
  spoof_points wba_verified = 0
  spoof_points wba_invalid = s.wba_spoof

  -- The score of the request, with the points of the behaviour.
  abbrev pub points : ℕ → ℕ
  points behaviour =
      f.score (forgives f.web_bot s.ai_policy)
      + spoof_points f.web_bot
      + behaviour
      + (if f.crawler_spoofed then s.crawler_spoof else 0)
      + f.ml_extra

  -- h.nf or h.pen, if there is one: Exceeded.
  unfoldable pub over : Option Tracker → Option Tracker × Bool
  unfolding exceeded
  over none = (none, false)
  over (some t) = let (t', many) = exceeded f.key now t in (some t', many)

  module _ {Num : Type 0} where
    unfoldable pub visit_step : Step Num
    unfolding visit ban_now
    visit_step p =
        let (t, many) = visit p.edge.beh in
        let after = record p { edge = record p.edge { beh = t } } in
        if many
        then (ban s f now after, some (blocked (bytes "Too many failed challenges")))
        else (after, none)

    -- The score, and the block at its threshold, whose list of reasons reads the behaviour again.
    unfoldable pub score_step : Step Num
    unfolding behave strike
    score_step p =
        let (t, behaviour) = behave p.edge.beh in
        let sum = points behaviour in
        let block = leb s.block_score sum in
        let after = record p {
          edge = record p.edge { beh = if block && ltb 0 sum then (behave t).0 else t };
          need_challenge = p.need_challenge || f.semantic_challenge;
          detect_score = sum;
        } in
        if block
        then (strike_client s f now after, some (blocked (bytes "Request blocked")))
        else (after, none)

    unfoldable pub ai_by : AiPolicy → Step Num
    unfolding strike
    ai_by ai_allow p = (p, none)
    ai_by ai_block p = (strike_client s f now p, some (blocked (bytes "AI crawlers not allowed")))
    ai_by ai_pay p = (p, if f.ai_paid then none else some payment_required)

    abbrev pub ai_step : Step Num
    ai_step p = if f.ai_ua then ai_by s.ai_policy p else (p, none)

    unfoldable pub threshold_step : Step Num
    threshold_step p = (
      record p { need_challenge = p.need_challenge || leb s.challenge_score p.detect_score },
      none,
    )

    -- What a client over a counter gets.
    unfoldable pub count_by : CountAction → Bytes → Pass Num → Pass Num × Option Outcome
    unfolding strike
    count_by count_block reason p = (strike_client s f now p, some (blocked reason))
    count_by count_tarpit reason p = (strike_client s f now p, some tarpit)
    count_by count_off reason p = (p, none)
    count_by count_challenge reason p = (record p { need_challenge = true }, none)

    abbrev pub set_nf : Pass Num → Option Tracker → Pass Num
    set_nf p t = record p { edge = record p.edge { nf = t } }

    abbrev pub set_pen : Pass Num → Option Tracker → Pass Num
    set_pen p t = record p { edge = record p.edge { pen = t } }

    unfoldable pub missing_step : Step Num
    unfolding over count_by
    missing_step p =
        let (t, many) = over p.edge.nf in
        let after = set_nf p t in
        if many
        then count_by s.high404_action (bytes "Too many missing pages") after
        else (after, none)

    unfoldable pub penalty_step : Step Num
    unfolding over count_by
    penalty_step p =
        let (t, many) = over p.edge.pen in
        let after = set_pen p t in
        if many
        then count_by s.pen_action (bytes "Too many expensive responses") after
        else (after, none)

    abbrev pub detect_steps : List (Step Num)
    detect_steps =
        visit_step ∷ score_step ∷ ai_step ∷ threshold_step ∷ missing_step ∷ penalty_step ∷ []
