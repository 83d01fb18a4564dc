-- ===== src/Semantic/Reasons.antt =====
-- internal/semantic/engine.go: why Evaluate blocks a request or wants a challenge for it.
use ravenguard.Common.{
  ℕ, ◌≤◌, ◌≡◌, refl, ◌⊎◌, inl, inr, Bool, true, ◌||◌, not, some, List, [], ◌∷◌, ltb, ◌==◌, Bytes,
  Instant, str_eq_iff, bytes, arith, if_both,
}
use ravenguard.Semantic.Decode.{Budget, Walk, look, member}
use ravenguard.Semantic.Verdict.{inspect_both}
use ravenguard.Semantic.Analyze.{
  Result, no_result, Tally, finish, score_sqli, score_xss, score_cmd, score_path,
}
use ravenguard.Semantic.Engine.{
  Engine, Request, evaluate, inspect, pick, verdict, abort_result, better, if_family, analyze_all,
  inputs, fresh_walk, any_skipped,
}

abbrev Capped : Result → Type 0
Capped r = r.score ≤ 100

finish-Capped : (family b : Bytes) (t : Tally) → Capped (finish family b t)
unfolding finish
finish-Capped family b t = ground arith

sqli-Capped : (b : Bytes) → Capped (score_sqli b)
unfolding score_sqli
sqli-Capped b = finish-Capped _ b _

xss-Capped : (b : Bytes) → Capped (score_xss b)
unfolding score_xss
xss-Capped b = finish-Capped _ b _

cmd-Capped : (b : Bytes) → Capped (score_cmd b)
unfolding score_cmd
cmd-Capped b = finish-Capped _ b _

path-Capped : (b : Bytes) → Capped (score_path b)
unfolding score_path
path-Capped b = finish-Capped _ b _

better-Capped : (best r : Result) → Capped best → Capped r → Capped (better best r)
better-Capped best r h k = if_both Capped (ltb best.score r.score) r best k h

family-Capped :
    (name : Bytes) (fams : List Bytes) (r best : Result)
    → Capped r
    → Capped best
    → Capped (if_family name fams r best)
family-Capped name fams r best h k =
    if_both Capped (member name fams) _ _ (better-Capped best r k h) k

analyze_all-Capped : (b : Bytes) (fams : List Bytes) → Capped (analyze_all b fams)
unfolding analyze_all
analyze_all-Capped b fams = family-Capped _ fams _ _ (path-Capped b) (
    family-Capped _ fams _ _ (cmd-Capped b) (
      family-Capped _ fams _ _ (xss-Capped b)
        (family-Capped _ fams _ no_result (sqli-Capped b) (omega arith))))

pick-Capped :
    (clock : ℕ → Instant) (budget : Budget) (fams : List Bytes) (texts : List Bytes) (w w' : Walk)
    (best found : Result)
    → Capped best
    → pick clock budget fams texts w best ≡ some (w', found)
    → Capped found
unfolding pick
pick-Capped clock budget fams [] w w' best found h e = ground (arith, h, e)
pick-Capped clock budget fams (b ∷ bs) w w' best found h e =
    pick-Capped clock budget fams bs (look clock budget w) w' (better best (analyze_all b fams))
      found (better-Capped best _ h (analyze_all-Capped b fams)) (ground (arith, e))

-- What a result says, and why.
pub record IsJustified (mode : Bytes) (strict : Bool) (r : Result) : Type 0 where
  pub capped : r.score ≤ 100
  pub blocked :
      r.should_block ≡ true
      → (mode ≡ bytes "block") × ((80 ≤ r.score) ⊎ ((r.aborted ≡ true) × (strict ≡ true)))
  pub challenged : r.need_chal ≡ true → 50 ≤ r.score
  pub reported : r.should_block ≡ true → (r.matched || r.aborted) ≡ true

abort-IsJustified :
    (mode : Bytes) (strict : Bool) (msg : Bytes)
    → IsJustified mode strict (abort_result mode strict msg)
unfolding abort_result
abort-IsJustified mode strict msg = record {
  capped = omega arith;
  blocked =
      λ b. ((str_eq_iff mode (bytes "block")).0 (ground (arith, b)), inr (refl, ground (arith, b)));
  challenged = λ n. cc;
  reported = λ b. ground (arith, b);
}

none-IsJustified : (mode : Bytes) (strict : Bool) → IsJustified mode strict no_result
none-IsJustified mode strict = record {
  capped = omega arith;
  blocked = λ b. cc;
  challenged = λ n. cc;
  reported = λ b. ground (arith, b);
}

verdict-IsJustified :
    (mode : Bytes) (strict : Bool) (best : Result)
    → Capped best
    → IsJustified mode strict (verdict mode best)
unfolding verdict
verdict-IsJustified mode strict best h =
    if_both (IsJustified mode strict) (best.score == 0) _ _ (none-IsJustified mode strict) (record {
      capped = h;
      blocked =
          λ b. ((str_eq_iff mode (bytes "block")).0 (ground (arith, b)), inl (ground (arith, b)));
      challenged = λ n. ground (arith, n);
      reported = λ b. refl;
    })

inspect-IsJustified :
    (clock : ℕ → Instant) (budget : Budget) (fams : List Bytes) (mode : Bytes) (strict : Bool)
    (ins : List Bytes) (w : Walk) (best : Result)
    → Capped best
    → IsJustified mode strict (inspect clock budget fams mode strict ins w best)
unfolding inspect
inspect-IsJustified clock budget fams mode strict [] w best h =
    verdict-IsJustified mode strict best h
inspect-IsJustified clock budget fams mode strict (b ∷ bs) w best h =
    inspect_both clock budget fams mode strict (IsJustified mode strict)
      (abort-IsJustified mode strict) b bs w best
      (λ pass. inspect-IsJustified clock budget fams mode strict bs (look clock budget w) best h)
      (λ texts w' found e p.
        inspect-IsJustified clock budget fams mode strict bs w' found
          (pick-Capped clock budget fams texts _ w' best found h p))

-- Evaluate blocks a request only in mode block, and then for a score of 80 or more or for a strict
-- budget that has run out; it asks for a challenge only for a score of 50 or more, and no score
-- passes 100; what it blocks it reports, as a match or as aborted. That is so for every clock, settings and request.
pub evaluate-IsJustified :
    (clock : ℕ → Instant) (e : Engine) (r : Request)
    → IsJustified e.mode e.cfg.strict_budget (evaluate clock e r)
unfolding evaluate
evaluate-IsJustified clock e r =
    let good : Result → Type 0 = IsJustified e.mode e.cfg.strict_budget in
    let empty = none-IsJustified e.mode e.cfg.strict_budget in
    if_both good (not e.enabled) _ _ empty (
      if_both good (any_skipped r.path e.cfg.skip_path_prefixes) _ _ empty (
        inspect-IsJustified clock _ e.families e.mode e.cfg.strict_budget (inputs e.cfg r)
          fresh_walk no_result (omega arith)))
