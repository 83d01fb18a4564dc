-- ===== src/Pipeline/Neutral.antt =====
-- The parts of guard leave the slots of the protect guard alone.
use ravenguard.Common.{
  ◌≡◌, refl, Bool, true, false, ◌||◌, not, Option, none, some, List, [], ◌∷◌, ◌++◌, if◌then◌else◌,
  Bytes, Instant, arith, if_both, ap, ◌∙◌, leb, All, ◌+◌,
}
use ravenguard.Common.Int.{ℤ}
use ravenguard.Common.Dict.{Dict}
use ravenguard.Protect.Config.{Config}
use ravenguard.Protect.Guard.{Guard, BanEntry}
use ravenguard.Protect.Bans.{banned_entry, inactive, banned, ban_now, ban_until, strike}
use ravenguard.Pipeline.{
  AiPolicy, ai_allow, ai_block, ai_pay, TrapAction, trap_ban, trap_tarpit, trap_challenge,
  trap_block, CountAction, count_block, count_tarpit, count_off, count_challenge, Settings, Facts,
  Outcome, Pass, Step, in_order, guarded, resume,
}
use ravenguard.Pipeline.Steps.{
  if_enabled, serve_trap, trap_step, waf_step, attack_step, attack_block, stop_with, semantic_step,
  screened, front_steps,
}
use ravenguard.Common.Sharded
use ravenguard.Pipeline.Detection.{
  visit, visit_step, score_step, behave, points, ai_by, threshold_step, count_by, over,
  missing_step, penalty_step, detect_steps, set_nf, set_pen,
}

-- What the slots of a guard are counted with; bans and strikes leave it alone.
abbrev pub slots : Guard → Config × ℤ × Dict ℤ
slots g = (g.cfg, g.global, g.clients)

abbrev pub slots_of : Option Guard → Option (Config × ℤ × Dict ℤ)
slots_of none = none
slots_of (some g) = some (slots g)

abbrev Keeps : (Guard → Guard) → Type 0
Keeps op = (g : Guard) → slots (op g) ≡ slots g

ban_until-Keeps : (key : Bytes) (until now : Instant) → Keeps (ban_until key until now)
unfolding ban_until
ban_until-Keeps key until now g = ground arith

ban_now-Keeps : (key : Bytes) (now now' : Instant) → Keeps (ban_now key now now')
unfolding ban_now
ban_now-Keeps key now now' g = ground arith

strike-Keeps : (key : Bytes) (now : Instant) → Keeps (strike key now)
unfolding strike
strike-Keeps key now g = ground arith

banned_entry-slots :
    (key : Bytes) (now : Instant) (g : Guard) (e : Option BanEntry)
    → slots (banned_entry key now g e).0 ≡ slots g
unfolding banned_entry
banned_entry-slots key now g none = refl
banned_entry-slots key now g (some e) = ground arith

pub banned-slots : (key : Bytes) (now : Instant) (g : Guard) → slots (banned key now g).0 ≡ slots g
unfolding banned
banned-slots key now g =
    if_both (λ (r : Guard × Bool). slots r.0 ≡ slots g) (inactive g key) _ _ refl
      (banned_entry-slots key now g (Sharded.get key g.bans))

pub if_enabled-slots :
    (op : Guard → Guard)
    → Keeps op
    → (prot : Option Guard) → slots_of (if_enabled op prot) ≡ slots_of prot
if_enabled-slots op k none = refl
if_enabled-slots op k (some g) =
    if_both (λ h. some (slots h) ≡ some (slots g)) g.cfg.enabled (op g) g (ap some (k g)) refl

module _ {Num : Type 0} where
  abbrev pub prot_slots : Pass Num → Option (Config × ℤ × Dict ℤ)
  prot_slots p = slots_of p.edge.prot

  -- A result of a part that was run from p: the slots are as they were.
  abbrev pub IsKept : Pass Num → Pass Num × Option Outcome → Type 0
  IsKept p r = prot_slots r.0 ≡ prot_slots p

  abbrev pub IsNeutral : Step Num → Type 0
  IsNeutral s = (p : Pass Num) → IsKept p (s p)

  resume-IsKept :
      (p : Pass Num) (next : Step Num) (r : Pass Num × Option Outcome)
      → IsKept p r
      → IsNeutral next
      → IsKept p (resume next r)
  resume-IsKept p next (q, none) h k = k q ∙ h
  resume-IsKept p next (q, some o) h k = h

  pub in_order-IsNeutral : (ss : List (Step Num)) → All IsNeutral ss → IsNeutral (in_order ss)
  unfolding in_order
  in_order-IsNeutral [] h p = refl
  in_order-IsNeutral (s ∷ ss) (here, h) p =
      resume-IsKept p (in_order ss) (s p) (here p) (in_order-IsNeutral ss h)

  pub All-append :
      (ss rs : List (Step Num)) → All IsNeutral ss → All IsNeutral rs → All IsNeutral (ss ++ rs)
  All-append [] rs h k = k
  All-append (s ∷ ss) rs (here, h) k = (here, All-append ss rs h k)

module _ (s : Settings) (f : Facts) (now : Instant) where
  ban-IsKept :
      (prot : Option Guard) → slots_of (if_enabled (ban_now f.key now now) prot) ≡ slots_of prot
  ban-IsKept prot = if_enabled-slots (ban_now f.key now now) (ban_now-Keeps f.key now now) prot

  pub strike-IsKept :
      (prot : Option Guard) → slots_of (if_enabled (strike f.key now) prot) ≡ slots_of prot
  strike-IsKept prot = if_enabled-slots (strike f.key now) (strike-Keeps f.key now) prot

  module _ {Num : Type 0} where
    serve_trap-IsKept : (a : TrapAction) (p : Pass Num) → IsKept p (serve_trap s f now a p)
    unfolding serve_trap
    serve_trap-IsKept trap_ban p =
        if_enabled-slots (ban_until f.key (now + s.trap_ban_ttl) now)
          (ban_until-Keeps f.key (now + s.trap_ban_ttl) now) p.edge.prot
    serve_trap-IsKept trap_tarpit p = refl
    serve_trap-IsKept trap_challenge p = refl
    serve_trap-IsKept trap_block p = refl

    trap-IsNeutral : IsNeutral {Num = Num} (trap_step s f now)
    unfolding trap_step
    trap-IsNeutral p = if_both (IsKept p) f.trap _ _ (serve_trap-IsKept s.trap_action p) refl

    waf-IsNeutral : IsNeutral {Num = Num} (waf_step s f now)
    unfolding waf_step
    waf-IsNeutral p = if_both (IsKept p) f.coraza_block _ _ (ban-IsKept p.edge.prot) refl

    attack-IsNeutral : IsNeutral {Num = Num} (attack_step s f now)
    unfolding attack_step
    attack-IsNeutral p = if_both (IsKept p) (f.coraza_mode_block || not f.attack) _ _ refl (
        if_both (IsKept p) (not (guarded p.edge.prot) || attack_block p.edge.prot) _ _
          (ban-IsKept p.edge.prot) (strike-IsKept p.edge.prot))

    stop_with-IsKept : (p : Pass Num) (o : Option Bytes) → IsKept p (stop_with s f now p o)
    stop_with-IsKept p none = refl
    stop_with-IsKept p (some reason) = ban-IsKept p.edge.prot

    semantic-IsNeutral : IsNeutral {Num = Num} (semantic_step s f now)
    unfolding semantic_step
    semantic-IsNeutral p =
        if_both (IsKept p) (screened s f now) _ _ (stop_with-IsKept p f.semantic_stop) refl

    pub front-IsNeutral : All (IsNeutral {Num = Num}) (front_steps s f now)
    front-IsNeutral = (
      λ p. refl,
      (
        λ p. refl,
        (
          λ p. refl,
          (
            λ p. refl,
            (
              λ p. refl,
              (
                λ p. refl,
                (
                  λ p. refl,
                  (
                    λ p. refl,
                    (
                      λ p. refl,
                      (
                        trap-IsNeutral,
                        (λ p. refl, (waf-IsNeutral, (attack-IsNeutral, (semantic-IsNeutral, tt)))),
                      ),
                    ),
                  ),
                ),
              ),
            ),
          ),
        ),
      ),
    )

    visit-IsNeutral : IsNeutral {Num = Num} (visit_step s f now)
    unfolding visit_step
    visit-IsNeutral p =
        if_both (IsKept p) (visit s f now p.edge.beh).1 _ _ (ban-IsKept p.edge.prot) refl

    score-IsNeutral : IsNeutral {Num = Num} (score_step s f now)
    unfolding score_step
    score-IsNeutral p =
        if_both (IsKept p) (leb s.block_score (points s f now (behave s f now p.edge.beh).1)) _ _
          (strike-IsKept p.edge.prot) refl

    ai_by-IsNeutral : (a : AiPolicy) → IsNeutral {Num = Num} (ai_by s f now a)
    unfolding ai_by
    ai_by-IsNeutral ai_allow p = refl
    ai_by-IsNeutral ai_block p = strike-IsKept p.edge.prot
    ai_by-IsNeutral ai_pay p = refl

    count_by-IsKept :
        (a : CountAction) (reason : Bytes) (p : Pass Num) → IsKept p (count_by s f now a reason p)
    unfolding count_by
    count_by-IsKept count_block reason p = strike-IsKept p.edge.prot
    count_by-IsKept count_tarpit reason p = strike-IsKept p.edge.prot
    count_by-IsKept count_off reason p = refl
    count_by-IsKept count_challenge reason p = refl

    missing-IsNeutral : IsNeutral {Num = Num} (missing_step s f now)
    unfolding missing_step
    missing-IsNeutral p =
        if_both (IsKept p) (over s f now p.edge.nf).1 _ _
          (count_by-IsKept s.high404_action _ (set_nf s f now p (over s f now p.edge.nf).0)) refl

    penalty-IsNeutral : IsNeutral {Num = Num} (penalty_step s f now)
    unfolding penalty_step
    penalty-IsNeutral p =
        if_both (IsKept p) (over s f now p.edge.pen).1 _ _
          (count_by-IsKept s.pen_action _ (set_pen s f now p (over s f now p.edge.pen).0)) refl

  pub detect-IsNeutral :
      (Num : Type 0) (on : Bool)
      → All (IsNeutral {Num = Num}) (if on then detect_steps s f now else [])
  detect-IsNeutral Num true = (
    visit-IsNeutral,
    (
      score-IsNeutral,
      (
        λ p. if_both (IsKept p) f.ai_ua _ _ (ai_by-IsNeutral s.ai_policy p) refl,
        (λ p. unfold threshold_step in refl, (missing-IsNeutral, (penalty-IsNeutral, tt))),
      ),
    ),
  )
  detect-IsNeutral Num false = tt
