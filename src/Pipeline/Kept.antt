-- ===== src/Pipeline/Kept.antt =====
-- The parts of guard behind the semantic analysis, and guard as a whole, leave the slots alone.
use ravenguard.Common.{
  ◌≡◌, refl, Bool, true, false, ◌&&◌, not, Option, none, some, [], ◌∷◌, if◌then◌else◌, Instant,
  if_both, ◌∙◌, str_eq, All,
}
use ravenguard.RateLimit.{allow_n}
use ravenguard.RateLimit.Floats.{Arithmetic}
use ravenguard.Pipeline.{Settings, Facts, Outcome, Edge, Pass, in_order}
use ravenguard.Pipeline.Steps.{
  screened, may_challenge, front_steps, try_limit, global_step, subnet_step, client_step,
  rate_steps, cost,
}
use ravenguard.Pipeline.Serve.{
  goes_uncounted, proxy, admit, websocket_step, challenge_step, steps, back_steps, answered, inner,
}
use ravenguard.Pipeline.Neutral.{
  slots_of, IsKept, IsNeutral, prot_slots, in_order-IsNeutral, front-IsNeutral, All-append,
  strike-IsKept, detect-IsNeutral,
}

module _ (s : Settings) (f : Facts) (now : Instant) where
  module _ (A : Arithmetic) where
    open A use {Num}

    global-IsNeutral : IsNeutral (global_step s f now A)
    unfolding global_step
    global-IsNeutral p = refl

    subnet-IsNeutral : IsNeutral (subnet_step s f now A)
    unfolding subnet_step
    subnet-IsNeutral p =
        if_both (IsKept p) (f.has_client_ip && not (str_eq f.subnet_key [])) _ _ refl refl

    client-IsNeutral : IsNeutral (client_step s f now A)
    unfolding client_step
    client-IsNeutral p =
        if_both (IsKept p)
          (try_limit s f now A p.edge.limiter
            (allow_n A f.key f.path (cost s f now p.edge.prot) now)).1
          _ _ refl (strike-IsKept s f now p.edge.prot)

    rate-IsNeutral :
        (on : Bool)
        → All (IsNeutral {Num = Num}) (
            if on
            then global_step s f now A ∷ subnet_step s f now A ∷ client_step s f now A ∷ []
            else [])
    rate-IsNeutral true = (global-IsNeutral, (subnet-IsNeutral, (client-IsNeutral, tt)))
    rate-IsNeutral false = tt

    proxy-IsKept : (p : Pass Num) → prot_slots (proxy s f now p) ≡ prot_slots p
    unfolding proxy
    proxy-IsKept p =
        if_both (λ (q : Pass Num). prot_slots q ≡ prot_slots p) (goes_uncounted s f now p.edge) _ _
          refl refl

    admit-IsKept : (p : Pass Num) → prot_slots (admit s f now p).0 ≡ prot_slots p
    unfolding admit
    admit-IsKept p =
        if_both (λ (r : Pass Num × Outcome). prot_slots r.0 ≡ prot_slots p) (not f.access_ok) _ _
          refl
          (if_both (λ (r : Pass Num × Outcome). prot_slots r.0 ≡ prot_slots p) (not f.schema_ok) _ _
            refl (proxy-IsKept p))

    websocket-IsNeutral : IsNeutral {Num = Num} (websocket_step s f now)
    unfolding websocket_step
    websocket-IsNeutral p = if_both (IsKept p) (not f.websocket) _ _ refl (
        if_both (IsKept p) (not f.allowed && may_challenge s f now && not f.has_clearance) _ _ refl
          (admit-IsKept p))

    steps-IsNeutral : IsNeutral (in_order (steps s f now A))
    steps-IsNeutral = in_order-IsNeutral (steps s f now A) (
        All-append (front_steps s f now) (back_steps s f now A) (front-IsNeutral s f now) (
          All-append (rate_steps s f now A) _ (rate-IsNeutral s.rate_limit) (
            websocket-IsNeutral,
            All-append _ _ (detect-IsNeutral s f now Num (screened s f now && s.detect))
                (λ p. unfold challenge_step in refl, tt),
          )))

    answered-IsKept :
        (r : Pass Num × Option Outcome) → slots_of (answered s f now A r).0.prot ≡ prot_slots r.0
    answered-IsKept (p, none) = admit-IsKept p
    answered-IsKept (p, some o) = refl

    -- All of guard between Acquire and Release leaves the slots alone.
    pub inner-IsKept : (e : Edge Num) → slots_of (inner s f now A e).0.prot ≡ slots_of e.prot
    unfolding inner
    inner-IsKept e =
        let start : Pass Num = record { edge = e; need_challenge = false; detect_score = 0 } in
        answered-IsKept (in_order (steps s f now A) start) ∙ steps-IsNeutral start
