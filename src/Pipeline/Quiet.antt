-- ===== src/Pipeline/Quiet.antt =====
-- The parts of guard behind the semantic analysis: only a WebSocket part proxies, and not when
-- access or the schema refuses.
use ravenguard.Common.{
  ◌≡◌, refl, Bool, true, false, ◌&&◌, ◌||◌, not, Option, none, some, List, [], ◌∷◌, if◌then◌else◌,
  Bytes, Instant, arith, Bool-cases, inl, inr, leb, str_eq, bytes,
}
use ravenguard.RateLimit.{Limiter, allow, allow_n}
use ravenguard.RateLimit.Floats.{Arithmetic}
use ravenguard.Pipeline.{
  AiPolicy, ai_allow, ai_block, ai_pay, CountAction, count_block, count_tarpit, count_off,
  count_challenge, Settings, Facts, Outcome, Pass,
}
use ravenguard.Pipeline.Gates.{
  is_proxied, is_quiet, Gated, no_gates, gate, Gated-append, quiet-Gate,
}
use ravenguard.Pipeline.Steps.{
  serve_challenge, screened, may_challenge, limited, try_limit, cost, global_step, subnet_step,
  client_step,
}
use ravenguard.Pipeline.Detection.{
  visit, visit_step, score_step, ai_by, ai_step, threshold_step, count_by, over, missing_step,
  penalty_step, detect_steps, behave, points,
}
use ravenguard.Pipeline.Serve.{admit, websocket_step, challenge_step, back_steps}

module _ {Num : Type 0} where
  quiet_if :
      (b : Bool) (x y : Pass Num × Option Outcome)
      → is_quiet x ≡ true
      → is_quiet y ≡ true
      → is_quiet (if b then x else y) ≡ true
  quiet_if true x y h k = h
  quiet_if false x y h k = k

  quiet_unless :
      (b : Bool) (p : Pass Num) (o : Outcome)
      → is_proxied o ≡ false
      → is_quiet (p, if b then none else some o) ≡ true
  quiet_unless true p o h = refl
  quiet_unless false p o h = rw h refl

  quiet_when :
      (b : Bool) (p : Pass Num) (o : Outcome)
      → is_proxied o ≡ false
      → is_quiet (p, if b then some o else none) ≡ true
  quiet_when true p o h = rw h refl
  quiet_when false p o h = refl

module _ (s : Settings) (f : Facts) (now : Instant) where
  serve_challenge-quiet : is_proxied (serve_challenge s f now) ≡ false
  serve_challenge-quiet = elim (Bool-cases f.has_challenge) [
    | inl h ↦ rw h refl
    | inr h ↦ rw h refl
  ]

  limited-quiet : is_proxied (limited s f now) ≡ false
  limited-quiet = ground arith

  module _ {Num : Type 0} where
    visit-quiet : (p : Pass Num) → is_quiet (visit_step s f now p) ≡ true
    unfolding visit_step
    visit-quiet p = quiet_if (visit s f now p.edge.beh).1 _ _ refl refl

    score-quiet : (p : Pass Num) → is_quiet (score_step s f now p) ≡ true
    unfolding score_step
    score-quiet p =
        quiet_if (leb s.block_score (points s f now (behave s f now p.edge.beh).1)) _ _ refl refl

    ai_by-quiet : (a : AiPolicy) (p : Pass Num) → is_quiet (ai_by s f now a p) ≡ true
    unfolding ai_by
    ai_by-quiet ai_allow p = refl
    ai_by-quiet ai_block p = refl
    ai_by-quiet ai_pay p = quiet_unless f.ai_paid p _ refl

    ai-quiet : (p : Pass Num) → is_quiet (ai_step s f now p) ≡ true
    ai-quiet p = quiet_if f.ai_ua _ _ (ai_by-quiet s.ai_policy p) refl

    threshold-quiet : (p : Pass Num) → is_quiet (threshold_step s f now p) ≡ true
    unfolding threshold_step
    threshold-quiet p = refl

    count_by-quiet :
        (a : CountAction) (reason : Bytes) (p : Pass Num)
        → is_quiet (count_by s f now a reason p) ≡ true
    unfolding count_by
    count_by-quiet count_block reason p = refl
    count_by-quiet count_tarpit reason p = refl
    count_by-quiet count_off reason p = refl
    count_by-quiet count_challenge reason p = refl

    missing-quiet : (p : Pass Num) → is_quiet (missing_step s f now p) ≡ true
    unfolding missing_step
    missing-quiet p =
        quiet_if (over s f now p.edge.nf).1 _ _ (count_by-quiet s.high404_action _ _) refl

    penalty-quiet : (p : Pass Num) → is_quiet (penalty_step s f now p) ≡ true
    unfolding penalty_step
    penalty-quiet p =
        quiet_if (over s f now p.edge.pen).1 _ _ (count_by-quiet s.pen_action _ _) refl

    challenge-quiet : (p : Pass Num) → is_quiet (challenge_step s f now p) ≡ true
    unfolding challenge_step
    challenge-quiet p = quiet_when _ p _ serve_challenge-quiet

    pub admit-refused :
        (p : Pass Num)
        → (not f.access_ok || not f.schema_ok) ≡ true
        → is_proxied (admit s f now p).1 ≡ false
    unfolding admit
    admit-refused p h = elim (Bool-cases f.access_ok) [
      | inl a ↦ elim (Bool-cases f.schema_ok) [
        | inl b ↦ ground (arith, a, b, h)
        | inr b ↦ rw (a, b) refl
      ]
      | inr a ↦ rw a refl
    ]

    websocket-quiet :
        (not f.access_ok || not f.schema_ok) ≡ true
        → (p : Pass Num) → is_quiet (websocket_step s f now p) ≡ true
    unfolding websocket_step
    websocket-quiet h p =
        let rest : is_quiet ((admit s f now p).0, some (admit s f now p).1) ≡ true =
          rw (admit-refused p h) refl in
        elim (Bool-cases f.websocket) [
          | inl a ↦
              elim (Bool-cases (not f.allowed && may_challenge s f now && not f.has_clearance)) [
                | inl b ↦ rw (a, b) refl
                | inr b ↦ rw (a, b) rest
              ]
          | inr a ↦ rw a refl
        ]

  module _ (A : Arithmetic) where
    open A use {Num}

    limit-quiet :
        (after : Pass Num) (r : Option (Limiter Num) × Bool)
        → is_quiet (after, if r.1 then none else some (limited s f now)) ≡ true
    limit-quiet after r = quiet_unless r.1 after (limited s f now) limited-quiet

    global-quiet : (p : Pass Num) → is_quiet (global_step s f now A p) ≡ true
    unfolding global_step
    global-quiet p =
        limit-quiet (global_step s f now A p).0
          (try_limit s f now A p.edge.global_limit (allow A (bytes "site") (bytes "/") now))

    subnet-quiet : (p : Pass Num) → is_quiet (subnet_step s f now A p) ≡ true
    unfolding subnet_step
    subnet-quiet p = elim (Bool-cases (f.has_client_ip && not (str_eq f.subnet_key []))) [
      | inl h ↦ rw h (
          limit-quiet p (
            try_limit s f now A p.edge.subnet_limit
              (allow_n A f.subnet_key (bytes "/") (cost s f now p.edge.prot) now)))
      | inr h ↦ rw h refl
    ]

    client-quiet : (p : Pass Num) → is_quiet (client_step s f now A p) ≡ true
    unfolding client_step
    client-quiet p =
        elim (Bool-cases
          (try_limit s f now A p.edge.limiter
            (allow_n A f.key f.path (cost s f now p.edge.prot) now)).1) [
              | inl h ↦ rw h refl
              | inr h ↦ rw (h, limited-quiet) refl
            ]

    rate-Gated :
        (on : Bool)
        → (ts : List Bool) × Gated ts (
            if on
            then global_step s f now A ∷ subnet_step s f now A ∷ client_step s f now A ∷ []
            else [])
    rate-Gated true = (
      _,
      gate (quiet-Gate _ global-quiet)
          (gate (quiet-Gate _ subnet-quiet) (gate (quiet-Gate _ client-quiet) no_gates)),
    )
    rate-Gated false = ([], no_gates)

    detect-Gated :
        (on : Bool)
        → (ts : List Bool) × Gated {Num = Num} ts (if on then detect_steps s f now else [])
    detect-Gated true = (
      _,
      gate (quiet-Gate _ visit-quiet) (
          gate (quiet-Gate _ score-quiet) (
            gate (quiet-Gate _ ai-quiet) (
              gate (quiet-Gate _ threshold-quiet)
                (gate (quiet-Gate _ missing-quiet) (gate (quiet-Gate _ penalty-quiet) no_gates))))),
    )
    detect-Gated false = ([], no_gates)

    -- When access or the schema refuses, no part proxies.
    pub back-Gated :
        (not f.access_ok || not f.schema_ok) ≡ true
        → (ts : List Bool) × Gated ts (back_steps s f now A)
    back-Gated h =
        let (rs, r) = rate-Gated s.rate_limit in
        let (ds, d) = detect-Gated (screened s f now && s.detect) in
        (
          _,
          Gated-append r (
              gate (quiet-Gate _ (websocket-quiet h))
                (Gated-append d (gate (quiet-Gate _ challenge-quiet) no_gates))),
        )
