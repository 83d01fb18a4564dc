-- ===== src/Pipeline/Attack.antt =====
-- What guard does with an attack signature.
use ravenguard.Common.{
  ◌≡◌, refl, Bool, true, false, ◌||◌, not, Option, none, some, List, [], ◌∷◌, ◌++◌, Instant, arith,
  ap, ◌∙◌, if_both, All,
}
use ravenguard.Protect.Config.{
  SizeVerdict, size_ok, url_too_large, body_too_large, check_request_size,
}
use ravenguard.Protect.Guard.{Guard}
use ravenguard.Protect.Bans.{banned}
use ravenguard.Protect.Slots.{acquire}
use ravenguard.Protect.Slots.Refinement.{acquire-cfg}
use ravenguard.Pipeline.Barred.{answered-bar}
use ravenguard.RateLimit.Floats.{Arithmetic}
use ravenguard.Pipeline.{Settings, Facts, Outcome, Edge, Pass, Step, in_order, resume, guarded}
use ravenguard.Pipeline.Gates.{
  is_proxied, is_quiet, is_bar, Gated, no_gates, gate, in_order-quiet, bar_stays,
}
use ravenguard.Pipeline.Order.{front-Gated}
use ravenguard.Pipeline.Steps.{
  list_steps, trap_step, health_step, waf_step, semantic_step, attack_step, attack_block,
}
use ravenguard.Pipeline.Neutral.{
  IsNeutral, IsKept, prot_slots, in_order-IsNeutral, front-IsNeutral, slots, slots_of, banned-slots,
}
use ravenguard.Pipeline.Serve.{
  inner, set_prot, with_slot, unless_banned, by_size, by_prot, guard, steps, back_steps,
}

-- Whether a signature blocks: there is no guard, it is off, or it is set to block.
abbrev pub blocks_attacks : Option Guard → Bool
blocks_attacks prot = not (guarded prot) || attack_block prot

-- That depends on the configuration of the guard only.
blocks_attacks-slots :
    (prot before : Option Guard)
    → slots_of prot ≡ slots_of before
    → blocks_attacks prot ≡ blocks_attacks before
blocks_attacks-slots none none e = refl
blocks_attacks-slots none (some g) e = ground (arith, e)
blocks_attacks-slots (some g) none e = ground (arith, e)
blocks_attacks-slots (some g) (some h) e =
    let same : slots g ≡ slots h = cc in
    ap (λ c. not c.enabled || c.attack_block) (ap (λ t. t.0) same)

attack-bar :
    {Num : Type 0} (s : Settings) (f : Facts) (now : Instant) (p : Pass Num)
    → f.coraza_mode_block ≡ false
    → f.attack ≡ true
    → blocks_attacks p.edge.prot ≡ true
    → is_bar (attack_step s f now p) ≡ true
unfolding attack_step
attack-bar s f now p mode attack blocks = rw (mode, attack, blocks) refl

module _ {Num : Type 0} where
  resume-resume :
      (next later : Step Num) (both : Step Num) (r : Pass Num × Option Outcome)
      → ((q : Pass Num) → both q ≡ resume later (next q))
      → resume both r ≡ resume later (resume next r)
  resume-resume next later both (q, none) h = h q
  resume-resume next later both (q, some o) h = refl

  in_order-append :
      (ss rest : List (Step Num)) (p : Pass Num)
      → in_order (ss ++ rest) p ≡ resume (in_order rest) (in_order ss p)
  unfolding in_order
  in_order-append [] rest p = refl
  in_order-append (s ∷ ss) rest p =
      resume-resume (in_order ss) (in_order rest) (in_order (ss ++ rest)) (s p)
        (in_order-append ss rest)

  Gated-take :
      {ts : List Bool} (ss rest : List (Step Num))
      → Gated ts (ss ++ rest)
      → (us : List Bool) × Gated us ss
  Gated-take [] rest h = ([], no_gates)
  Gated-take (s ∷ ss) rest (gate g gs) = let (us, h) = Gated-take ss rest gs in (_, gate g h)

  All-take : (ss rest : List (Step Num)) → All IsNeutral (ss ++ rest) → All IsNeutral ss
  All-take [] rest h = tt
  All-take (s ∷ ss) rest (here, h) = (here, All-take ss rest h)

  -- Parts that leave the slots alone and do not proxy, then one that answers as long as the slots
  -- are as they were: the request is answered and not proxied.
  resume-attacked :
      (rest : List (Step Num)) (p : Pass Num) (r : Pass Num × Option Outcome)
      → is_quiet r ≡ true
      → IsKept p r
      → ((q : Pass Num) → prot_slots q ≡ prot_slots p → is_bar (in_order rest q) ≡ true)
      → is_bar (resume (in_order rest) r) ≡ true
  resume-attacked rest p (q, none) quiet kept bars = bars q kept
  resume-attacked rest p (q, some o) quiet kept bars = quiet

module _ (s : Settings) (f : Facts) (now : Instant) (A : Arithmetic) where
  open A use {Num}

  abbrev before : List (Step Num)
  before = list_steps s f now ++ (trap_step s f now ∷ health_step s f now ∷ waf_step s f now ∷ [])

  abbrev after : List (Step Num)
  after = semantic_step s f now ∷ back_steps s f now A

  attack_first :
      (q : Pass Num)
      → f.coraza_mode_block ≡ false
      → f.attack ≡ true
      → blocks_attacks q.edge.prot ≡ true
      → is_bar (in_order (attack_step s f now ∷ after) q) ≡ true
  unfolding in_order
  attack_first q mode attack blocks =
      bar_stays (in_order after) (attack_step s f now q) (attack-bar s f now q mode attack blocks)

  steps-attacked :
      (p : Pass Num)
      → f.coraza_mode_block ≡ false
      → f.attack ≡ true
      → blocks_attacks p.edge.prot ≡ true
      → is_bar (in_order (steps s f now A) p) ≡ true
  steps-attacked p mode attack blocks =
      let (us, gates) =
        Gated-take before (attack_step s f now ∷ semantic_step s f now ∷ [])
          (front-Gated s f now) in
      let neutral =
        All-take before (attack_step s f now ∷ semantic_step s f now ∷ [])
          (front-IsNeutral s f now) in
      rw (in_order-append before (attack_step s f now ∷ after) p) (
        resume-attacked (attack_step s f now ∷ after) p (in_order before p) (in_order-quiet gates p)
          (in_order-IsNeutral before neutral p)
          (λ q kept.
            attack_first q mode attack
              (blocks_attacks-slots q.edge.prot p.edge.prot kept ∙ blocks)))

  module _ (mode : f.coraza_mode_block ≡ false) (attack : f.attack ≡ true) where
    inner-attacked :
        (e : Edge Num) → blocks_attacks e.prot ≡ true → is_proxied (inner s f now A e).1 ≡ false
    unfolding inner
    inner-attacked e blocks =
        let start : Pass Num = record { edge = e; need_challenge = false; detect_score = 0 } in
        answered-bar s f now A (in_order (steps s f now A) start)
          (steps-attacked start mode attack blocks)

    with_slot-attacked :
        (e : Edge Num) (r : Guard × Bool)
        → blocks_attacks (some r.0) ≡ true
        → is_proxied (with_slot s f now A e r).1 ≡ false
    with_slot-attacked e (g, true) blocks = inner-attacked (set_prot s f now A e g) blocks
    with_slot-attacked e (g, false) blocks = refl

    unless_banned-attacked :
        (e : Edge Num) (r : Guard × Bool)
        → blocks_attacks (some r.0) ≡ true
        → is_proxied (unless_banned s f now A e r).1 ≡ false
    unless_banned-attacked e (g, true) blocks = refl
    unless_banned-attacked e (g, false) blocks =
        with_slot-attacked e (acquire f.key g)
          (ap (λ c. not c.enabled || c.attack_block) (acquire-cfg f.key g) ∙ blocks)

    by_size-attacked :
        (e : Edge Num) (g : Guard) (v : SizeVerdict)
        → blocks_attacks (some g) ≡ true
        → is_proxied (by_size s f now A e g v).1 ≡ false
    by_size-attacked e g size_ok blocks = unless_banned-attacked e (banned f.key now g) (
        blocks_attacks-slots (some (banned f.key now g).0) (some g)
          (ap some (banned-slots f.key now g))
        ∙ blocks)
    by_size-attacked e g url_too_large blocks = refl
    by_size-attacked e g body_too_large blocks = refl

    by_prot-attacked :
        (e : Edge Num) (prot : Option Guard)
        → e.prot ≡ prot
        → blocks_attacks prot ≡ true
        → is_proxied (by_prot s f now A e prot).1 ≡ false
    unfolding by_prot
    by_prot-attacked e none m blocks = inner-attacked e (ap blocks_attacks m)
    by_prot-attacked e (some g) m blocks =
        if_both (λ (r : Edge Num × Outcome). is_proxied r.1 ≡ false) g.cfg.enabled
          (by_size s f now A e g (check_request_size g.cfg f.path f.raw_query f.content_length))
          (inner s f now A e)
          (by_size-attacked e g (check_request_size g.cfg f.path f.raw_query f.content_length)
            blocks)
          (inner-attacked e (ap blocks_attacks m ∙ blocks))

  -- A request that shows an attack signature is not proxied when there is no protect guard, it is
  -- off, or it is set to block attacks, whatever the rest of the state and for allow-listed clients
  -- too, unless the WAF is in blocking mode, which takes the place of the signatures.
  pub guard-attacked :
      (e : Edge Num)
      → f.coraza_mode_block ≡ false
      → f.attack ≡ true
      → blocks_attacks e.prot ≡ true
      → is_proxied (guard s f now A e).1 ≡ false
  unfolding guard
  guard-attacked e mode attack blocks = by_prot-attacked mode attack e e.prot refl blocks
