-- ===== src/Pipeline/Gates.antt =====
-- Parts of guard that never proxy, and answer when a test holds.
use ravenguard.Common.{
  ◌≡◌, refl, Bool, true, false, ◌||◌, not, Option, none, some, List, [], ◌∷◌, ◌++◌, arith,
}
use ravenguard.Pipeline.{
  Outcome, proxied, blocked, rate_limited, tarpit, upstream_down, challenged, challenge_unavailable,
  clearance_required, payment_required, access_refused, schema_refused, Pass, Step, in_order,
  resume,
}
use ravenguard.Pipeline.Steps.{answer_if}

abbrev pub is_proxied : Outcome → Bool
is_proxied proxied = true
is_proxied (blocked reason) = false
is_proxied rate_limited = false
is_proxied tarpit = false
is_proxied upstream_down = false
is_proxied challenged = false
is_proxied challenge_unavailable = false
is_proxied clearance_required = false
is_proxied payment_required = false
is_proxied access_refused = false
is_proxied schema_refused = false

abbrev pub any_true : List Bool → Bool
any_true [] = false
any_true (t ∷ ts) = t || any_true ts

module _ {Num : Type 0} where
  -- No answer, or one that does not proxy.
  abbrev pub is_quiet : Pass Num × Option Outcome → Bool
  is_quiet (p, none) = true
  is_quiet (p, some o) = not (is_proxied o)

  abbrev pub is_bar : Pass Num × Option Outcome → Bool
  is_bar (p, none) = false
  is_bar (p, some o) = not (is_proxied o)

  -- A part that never proxies, and answers when its test holds.
  pub record Gate (test : Bool) (s : Step Num) : Type 0 where
    pub quiet : (p : Pass Num) → is_quiet (s p) ≡ true
    pub bars : test ≡ true → (p : Pass Num) → is_bar (s p) ≡ true

  pub data Gated : List Bool → List (Step Num) → Type 0 where
    no_gates : Gated [] []
    gate :
        {t : Bool} {s : Step Num} {ts : List Bool} {ss : List (Step Num)}
        → Gate t s
        → Gated ts ss
        → Gated (t ∷ ts) (s ∷ ss)

  pub Gated-append :
      {ts us : List Bool} {ss rs : List (Step Num)}
      → Gated ts ss
      → Gated us rs
      → Gated (ts ++ us) (ss ++ rs)
  Gated-append no_gates h = h
  Gated-append (gate g gs) h = gate g (Gated-append gs h)

  resume-quiet :
      (next : Step Num) (r : Pass Num × Option Outcome)
      → is_quiet r ≡ true
      → ((p : Pass Num) → is_quiet (next p) ≡ true)
      → is_quiet (resume next r) ≡ true
  resume-quiet next (p, none) h k = k p
  resume-quiet next (p, some o) h k = h

  resume-bar :
      (next : Step Num) (r : Pass Num × Option Outcome)
      → is_quiet r ≡ true
      → ((p : Pass Num) → is_bar (next p) ≡ true)
      → is_bar (resume next r) ≡ true
  resume-bar next (p, none) h k = k p
  resume-bar next (p, some o) h k = h

  pub bar_stays :
      (next : Step Num) (r : Pass Num × Option Outcome)
      → is_bar r ≡ true
      → is_bar (resume next r) ≡ true
  bar_stays next (p, none) h = ground (arith, h)
  bar_stays next (p, some o) h = h

  pub in_order-quiet :
      {ts : List Bool} {ss : List (Step Num)}
      → Gated ts ss
      → (p : Pass Num) → is_quiet (in_order ss p) ≡ true
  unfolding in_order
  in_order-quiet no_gates p = refl
  in_order-quiet (gate {s = s} {ss = ss} g gs) p =
      resume-quiet (in_order ss) (s p) (g.quiet p) (in_order-quiet gs)

  -- Parts of which a test holds answer, and do not proxy, whatever comes after them.
  pub in_order-bar :
      {ts : List Bool} {ss : List (Step Num)} (rest : List (Step Num))
      → Gated ts ss
      → any_true ts ≡ true
      → (p : Pass Num) → is_bar (in_order (ss ++ rest) p) ≡ true
  unfolding in_order
  in_order-bar rest no_gates h p = ground (arith, h)
  in_order-bar rest (gate {t = true} {s = s} {ss = ss} g gs) h p =
      bar_stays (in_order (ss ++ rest)) (s p) (g.bars refl p)
  in_order-bar rest (gate {t = false} {s = s} {ss = ss} g gs) h p =
      resume-bar (in_order (ss ++ rest)) (s p) (g.quiet p) (in_order-bar rest gs h)

  pub answer_if-Gate : (t : Bool) (o : Outcome) → is_proxied o ≡ false → Gate t (answer_if t o)
  answer_if-Gate true o h = record { quiet = λ p. rw h refl; bars = λ e p. rw h refl }
  answer_if-Gate false o h = record { quiet = λ p. refl; bars = λ e p. ground (arith, e) }

  -- A part that never proxies, without a test.
  pub quiet-Gate : (s : Step Num) → ((p : Pass Num) → is_quiet (s p) ≡ true) → Gate false s
  quiet-Gate s q = record { quiet = q; bars = λ e p. ground (arith, e) }
