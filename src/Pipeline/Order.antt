-- ===== src/Pipeline/Order.antt =====
-- What must hold of a request that guard proxies.
use ravenguard.Common.{
  ◌≡◌, refl, Bool, true, false, ◌&&◌, ◌||◌, not, Option, none, some, List, [], ◌∷◌, ◌++◌, Bytes,
  Instant, arith, Bool-cases, inl, inr,
}
use ravenguard.Pipeline.{
  TrapAction, trap_ban, trap_tarpit, trap_challenge, trap_block, Settings, Facts, Outcome, Pass,
  guarded,
}
use ravenguard.Pipeline.Steps.{
  serve_challenge, screened, list_steps, serve_trap, trap_step, waf_step, attack_step,
  semantic_step, front_steps, attack_block, stop_with,
}
use ravenguard.Pipeline.Gates.{
  is_proxied, is_quiet, is_bar, Gate, Gated, no_gates, gate, Gated-append, answer_if-Gate,
  quiet-Gate,
}

-- Whether the semantic analysis ends the request.
abbrev pub stops : Option Bytes → Bool
stops none = false
stops (some reason) = true

module _ (s : Settings) (f : Facts) (now : Instant) where
  -- The answers of the lists, the shared blocks and the feeds.
  abbrev pub listed : List Bool
  listed =
      f.ip_blocked ∷ f.host_blocked ∷ f.ua_blocked ∷ f.shared_ip ∷ f.shared_host ∷ f.shared_ua
      ∷ f.shared_ja4 ∷ f.feed_ip ∷ f.feed_domain ∷ []

  serve_challenge-quiet : is_proxied (serve_challenge s f now) ≡ false
  serve_challenge-quiet = elim (Bool-cases f.has_challenge) [
    | inl h ↦ rw h refl
    | inr h ↦ rw h refl
  ]

  module _ {Num : Type 0} where
    serve_trap-bar : (a : TrapAction) (p : Pass Num) → is_bar (serve_trap s f now a p) ≡ true
    unfolding serve_trap
    serve_trap-bar trap_ban p = refl
    serve_trap-bar trap_tarpit p = refl
    serve_trap-bar trap_challenge p = rw serve_challenge-quiet refl
    serve_trap-bar trap_block p = refl

    bar→quiet : (r : Pass Num × Option Outcome) → is_bar r ≡ true → is_quiet r ≡ true
    bar→quiet (p, none) h = refl
    bar→quiet (p, some o) h = h

    trap-Gate : Gate {Num = Num} f.trap (trap_step s f now)
    unfolding trap_step
    trap-Gate = elim (Bool-cases f.trap) [
      | inl h ↦ record {
        quiet = λ p.
            rw h (bar→quiet (serve_trap s f now s.trap_action p) (serve_trap-bar s.trap_action p));
        bars = λ e p. rw h (serve_trap-bar s.trap_action p);
      }
      | inr h ↦ record { quiet = λ p. rw h refl; bars = λ e p. ground (arith, e, h) }
    ]

    waf-Gate : Gate {Num = Num} f.coraza_block (waf_step s f now)
    unfolding waf_step
    waf-Gate = elim (Bool-cases f.coraza_block) [
      | inl h ↦ record { quiet = λ p. rw h refl; bars = λ e p. rw h refl }
      | inr h ↦ record { quiet = λ p. rw h refl; bars = λ e p. ground (arith, e, h) }
    ]

    list-Gated : Gated {Num = Num} listed (list_steps s f now)
    list-Gated = gate (answer_if-Gate f.ip_blocked _ refl) (
        gate (answer_if-Gate f.host_blocked _ refl) (
          gate (answer_if-Gate f.ua_blocked _ refl) (
            gate (answer_if-Gate f.shared_ip _ refl) (
              gate (answer_if-Gate f.shared_host _ refl) (
                gate (answer_if-Gate f.shared_ua _ refl) (
                  gate (answer_if-Gate f.shared_ja4 _ refl) (
                    gate (answer_if-Gate f.feed_ip _ refl)
                      (gate (answer_if-Gate f.feed_domain _ refl) no_gates))))))))

    attack-quiet : (p : Pass Num) → is_quiet (attack_step s f now p) ≡ true
    unfolding attack_step
    attack-quiet p = elim (Bool-cases (f.coraza_mode_block || not f.attack)) [
      | inl h ↦ rw h refl
      | inr h ↦ elim (Bool-cases (not (guarded p.edge.prot) || attack_block p.edge.prot)) [
        | inl k ↦ rw (h, k) refl
        | inr k ↦ rw (h, k) refl
      ]
    ]

    stop_with-quiet : (p : Pass Num) (o : Option Bytes) → is_quiet (stop_with s f now p o) ≡ true
    stop_with-quiet p none = refl
    stop_with-quiet p (some reason) = refl

    stop_with-bar :
        (p : Pass Num) (o : Option Bytes) → stops o ≡ true → is_bar (stop_with s f now p o) ≡ true
    stop_with-bar p none h = ground (arith, h)
    stop_with-bar p (some reason) h = refl

    semantic-Gate :
        Gate {Num = Num} (screened s f now && stops f.semantic_stop) (semantic_step s f now)
    unfolding semantic_step
    semantic-Gate = elim (Bool-cases (screened s f now)) [
      | inl h ↦ record {
        quiet = λ p. rw h (stop_with-quiet p f.semantic_stop);
        bars = λ e p. rw h (stop_with-bar p f.semantic_stop (ground (arith, e, h)));
      }
      | inr h ↦ record { quiet = λ p. rw h refl; bars = λ e p. ground (arith, e, h) }
    ]

    -- The tests of the parts up to the semantic analysis.
    pub front-Gated :
        Gated {Num = Num}
          (listed
            ++ (f.trap
                ∷ not f.upstream_healthy
                ∷ f.coraza_block
                ∷ false
                ∷ (screened s f now && stops f.semantic_stop)
                ∷ []))
          (front_steps s f now)
    front-Gated = Gated-append list-Gated (
        gate trap-Gate (
          gate (answer_if-Gate (not f.upstream_healthy) _ refl)
            (gate waf-Gate (gate (quiet-Gate _ attack-quiet) (gate semantic-Gate no_gates)))))
