-- ===== src/Semantic/Verdict.antt =====
-- internal/semantic/engine.go: when Evaluate blocks a request.
use ravenguard.Common.{
  ℕ, ◌≤◌, ◌≡◌, ◌≢◌, refl, ◌⊎◌, inl, inr, Bool, true, false, Option, none, some, List, [], ◌∷◌,
  Bytes, Instant, str_eq, str_eq_iff, bytes, arith, if_both, Bool-cases,
}
use ravenguard.Semantic.Decode.{Budget, Walk, decode_chain, decodings, member, expired, look}
use ravenguard.Semantic.Candidates.{decode_chain-Candidates}
use ravenguard.Semantic.Analyze.{Result, no_result}
use ravenguard.Semantic.Engine.{
  Engine, Request, evaluate, inspect, pick, settle, weigh, verdict, abort_result, better,
  analyze_all, inputs, cheap_prefilter, budget_of, fresh_walk, any_skipped,
}

-- A text is one of a list.
better_bounds :
    (best r : Result) → (best.score ≤ (better best r).score) × (r.score ≤ (better best r).score)
better_bounds best r = ground arith

module _ (clock : ℕ → Instant) (budget : Budget) (fams : List Bytes) where
  -- The best result is at least that of every text.
  pick_bounds :
      (texts : List Bytes) (w w' : Walk) (best found : Result)
      → pick clock budget fams texts w best ≡ some (w', found)
      → (best.score ≤ found.score)
        × ((c : Bytes) → member c texts ≡ true → (analyze_all c fams).score ≤ found.score)
  unfolding pick member
  pick_bounds [] w w' best found e = (ground (arith, e), λ c m. cc)
  pick_bounds (b ∷ bs) w w' best found e =
      let next : Result = better best (analyze_all b fams) in
      let rest = pick_bounds bs (look clock budget w) w' next found (ground (arith, e)) in
      let (up, down) = better_bounds best (analyze_all b fams) in
      (
        omega (arith, up, rest.0),
        λ c m. elim (Bool-cases (str_eq b c)) [
          | inl same ↦ rw (← (str_eq_iff b c).0 same) (omega (arith, down, rest.0))
          | inr other ↦ rest.1 c (ground (arith, m, other))
        ],
      )

  verdict_high :
      (best : Result) → 80 ≤ best.score → (verdict (bytes "block") best).should_block ≡ true
  unfolding verdict str_eq
  verdict_high best h = ground (arith, h)

  abort_strict : (msg : Bytes) → (abort_result (bytes "block") true msg).should_block ≡ true
  unfolding abort_result str_eq
  abort_strict msg = refl

  module _ (mode : Bytes) (strict : Bool) (P : Result → Type 0)
      (aborts : (msg : Bytes) → P (abort_result mode strict msg)) where
    -- What holds of an aborted run and of every run that goes on.
    settle_both :
        (next : Walk → Result → Result) (o : Option (Walk × Result))
        → ((w : Walk) (best : Result) → o ≡ some (w, best) → P (next w best))
        → P (settle clock budget fams mode strict next o)
    settle_both next none h = aborts (bytes "cpu budget exceeded")
    settle_both next (some (w, best)) h = h w best refl

    weigh_both :
        (next : Walk → Result → Result) (w : Walk) (best : Result) (o : Option (List Bytes))
        → ((texts : List Bytes) (w' : Walk) (found : Result)
            → o ≡ some texts
            → pick clock budget fams texts w best ≡ some (w', found)
            → P (next w' found))
        → P (weigh clock budget fams mode strict next w best o)
    weigh_both next w best none h = aborts (bytes "decode budget exceeded")
    weigh_both next w best (some texts) h =
        settle_both next (pick clock budget fams texts w best)
          (λ w' found e. h texts w' found refl e)

    pub inspect_both :
        (b : Bytes) (bs : List Bytes) (w : Walk) (best : Result)
        → (cheap_prefilter b ≡ false
            → P (inspect clock budget fams mode strict bs (look clock budget w) best))
        → ((texts : List Bytes) (w' : Walk) (found : Result)
            → (decode_chain clock budget b (look clock budget w)).1 ≡ some texts
            → pick clock budget fams texts
                (decode_chain clock budget b (look clock budget w)).0
                best
              ≡ some (w', found)
            → P (inspect clock budget fams mode strict bs w' found))
        → P (inspect clock budget fams mode strict (b ∷ bs) w best)
    unfolding inspect
    inspect_both b bs w best skips goes =
        if_both P (expired clock budget w) _ _ (aborts (bytes "cpu budget exceeded"))
          (elim (Bool-cases (cheap_prefilter b)) [
            | inl look_at ↦ rw look_at (
                weigh_both (inspect clock budget fams mode strict bs)
                  (decode_chain clock budget b (look clock budget w)).0 best
                  (decode_chain clock budget b (look clock budget w)).1 goes)
            | inr pass ↦ rw pass (skips pass)
          ])

  abbrev Blocks : Result → Type 0
  Blocks r = r.should_block ≡ true

  -- In mode block and with a strict budget, one high result is enough, whatever follows.
  inspect_high :
      (ins : List Bytes) (w : Walk) (best : Result)
      → 80 ≤ best.score
      → Blocks (inspect clock budget fams (bytes "block") true ins w best)
  unfolding inspect
  inspect_high [] w best h = verdict_high best h
  inspect_high (b ∷ bs) w best h =
      inspect_both (bytes "block") true Blocks abort_strict b bs w best
        (λ pass. inspect_high bs (look clock budget w) best h)
        (λ texts w' found e p.
          inspect_high bs w' found (omega (arith, h, (pick_bounds texts _ w' best found p).0)))

  -- A text that is dangerous as it is or after one decoding.
  abbrev Hides : Bytes → Bytes → Type 0
  Hides b c = (c ≡ b) ⊎ (member c (decodings b) ≡ true)

  passing-ne-nil : (b : Bytes) → cheap_prefilter b ≡ true → b ≢ []
  unfolding cheap_prefilter
  passing-ne-nil [] pass e = cc
  passing-ne-nil (c ∷ s) pass e = cc

  -- Such a text is among the results of DecodeChain.
  hidden_found :
      (b c : Bytes) (w : Walk) (texts : List Bytes)
      → cheap_prefilter b ≡ true
      → Hides b c
      → (decode_chain clock budget b w).1 ≡ some texts
      → member c texts ≡ true
  hidden_found b c w texts pass (inl same) e =
      rw same (decode_chain-Candidates clock budget b w texts (passing-ne-nil b pass) e).itself
  hidden_found b c w texts pass (inr made) e =
      (decode_chain-Candidates clock budget b w texts (passing-ne-nil b pass) e).layer c made

  inspect_hidden :
      (ins : List Bytes) (w : Walk) (best : Result) (b c : Bytes)
      → member b ins ≡ true
      → cheap_prefilter b ≡ true
      → Hides b c
      → 80 ≤ (analyze_all c fams).score
      → Blocks (inspect clock budget fams (bytes "block") true ins w best)
  unfolding member
  inspect_hidden [] w best b c m pass hides high = cc
  inspect_hidden (a ∷ ins) w best b c m pass hides high = elim (Bool-cases (str_eq a b)) [
    | inl same ↦
        let here : cheap_prefilter a ≡ true = rw ((str_eq_iff a b).0 same) pass in
        let hides' : Hides a c = rw ((str_eq_iff a b).0 same) hides in
        inspect_both (bytes "block") true Blocks abort_strict a ins w best
          (λ skipped. absurd (ground (arith, skipped, here)))
          (λ texts w' found e p. inspect_high ins w' found (
            omega (
              arith,
              high,
              (pick_bounds texts _ w' best found p).1 c (hidden_found a c _ texts here hides' e),
            )))
    | inr other ↦
        let rest : member b ins ≡ true = ground (arith, m, other) in
        inspect_both (bytes "block") true Blocks abort_strict a ins w best
          (λ skipped. inspect_hidden ins (look clock budget w) best b c rest pass hides high)
          (λ texts w' found e p. inspect_hidden ins w' found b c rest pass hides high)
  ]

-- In mode block and with a strict budget, a request is blocked if one of the texts that the engine
-- inspects, in a path that is not skipped, passes the prefilter and scores 80 or more, as it is or
-- after one decoding, whatever the other texts are, how often the clock is read and what it shows.
pub evaluate-blocks :
    (clock : ℕ → Instant) (e : Engine) (r : Request) (b c : Bytes)
    → e.enabled ≡ true
    → e.mode ≡ bytes "block"
    → e.cfg.strict_budget ≡ true
    → any_skipped r.path e.cfg.skip_path_prefixes ≡ false
    → member b (inputs e.cfg r) ≡ true
    → cheap_prefilter b ≡ true
    → (c ≡ b) ⊎ (member c (decodings b) ≡ true)
    → 80 ≤ (analyze_all c e.families).score
    → (evaluate clock e r).should_block ≡ true
unfolding evaluate
evaluate-blocks clock e r b c enabled mode strict inside m pass hides high =
    rw (enabled, inside, mode, strict)
      (inspect_hidden clock (budget_of e.cfg (clock 0)) e.families (inputs e.cfg r) fresh_walk
        no_result b c m pass hides high)
