-- ===== src/Semantic/Candidates.antt =====
-- internal/semantic/decode.go: the candidates that DecodeChain returns.
use ravenguard.Common.{
  ℕ, zero, suc, ◌+◌, ◌≤◌, ◌<◌, ◌≡◌, ◌≢◌, refl, Bool, true, some, List, [], ◌∷◌, Bytes, Instant, All,
  arith,
}
use ravenguard.Semantic.Decode.{
  Budget, Walk, known, look, enter, enter_new, walk, decode_chain, decodings, member,
  budget_max_depth,
}
use ravenguard.Semantic.Chain.{
  Distinct, total, Derived, root, next, Held, walk-Took, children-all, enter-Took,
}

module _ (clock : ℕ → Instant) (budget : Budget) (s : Bytes) where
  -- Made of the input by so many decodings as the depth allows.
  abbrev pub Reached : Bytes → Type 0
  Reached b = (n : ℕ) × Derived s n b × (n ≤ budget_max_depth budget)

  pub record Candidates (w : Walk) (outs : List Bytes) : Type 0 where
    pub distinct : Distinct outs
    pub reached : All Reached outs
    pub within : 0 < budget.max_bytes → w.used + total outs ≤ budget.max_bytes
    pub itself : member s outs ≡ true
    pub layer : (c : Bytes) → member c (decodings s) ≡ true → member c outs ≡ true

  abbrev Below : ℕ → Bytes → Type 0
  Below left b = (n : ℕ) × Derived s n b × (n + left ≡ budget_max_depth budget)

  not_too_deep : (left : ℕ) (b : Bytes) → Below left b → Reached b
  not_too_deep left b (n, d, e) = (n, d, omega arith)

  deeper :
      (left : ℕ) (b c : Bytes) → Below (suc left) b → member c (decodings b) ≡ true → Below left c
  deeper left b c (n, d, e) m = (suc n, next c d m, omega arith)

  start : Walk → Walk
  start w = record w { seen = []; out = [] }

  start-Held : (w : Walk) → Held clock budget Reached w.used (start w)
  unfolding start member
  start-Held w = record {
    same = λ x. refl;
    distinct = tt;
    good = tt;
    spent = omega arith;
    within = λ some. absurd (some refl);
  }

  -- The first text has not been seen.
  start-ne-known : (w : Walk) → (enter clock budget s (start w)).1 ≢ known
  unfolding start enter enter_new member look
  start-ne-known w e = ground (arith, e)

  member-nil : (outs : List Bytes) → member s outs ≡ true → outs ≢ []
  unfolding member
  member-nil outs m e = ground (arith, m, e)

  depth_pos : (k : ℕ) → budget_max_depth budget ≡ k → (n : ℕ) × (k ≡ suc n)
  unfolding budget_max_depth
  depth_pos zero e = absurd (ground (arith, e))
  depth_pos (suc n) e = (n, refl)

  walk-Candidates :
      (w : Walk) (n : ℕ)
      → budget_max_depth budget ≡ suc n
      → (walk clock budget (suc n) s (start w)).1 ≡ true
      → Candidates w (walk clock budget (suc n) s (start w)).0.out
  unfolding walk
  walk-Candidates w n depth ok =
      let origin : Below (suc n) s = (0, root, omega (arith, depth)) in
      let (held, grows, has) =
        walk-Took clock budget Reached w.used Below not_too_deep deeper (suc n) s (start w) origin
          (start-Held w) ok in
      let entry =
        enter-Took clock budget Reached w.used s (start w) (not_too_deep (suc n) s origin)
          (start-Held w) in
      record {
        distinct = held.distinct;
        reached = held.good;
        within = λ some. ground (arith, some, held.spent, held.within (member-nil _ has));
        itself = has;
        layer =
            children-all clock budget Reached w.used Below not_too_deep deeper n s (start w)
              (enter clock budget s (start w)) origin entry (start-ne-known w) ok;
      }

-- The results of DecodeChain for a text of at least one byte differ from each other, are made of the
-- text by at most as many decodings as the depth allows, and together with the bytes used before stay
-- within the budget, if it has one. The text is one of them, and so is every decoding of it.
pub decode_chain-Candidates :
    (clock : ℕ → Instant) (budget : Budget) (s : Bytes) (w : Walk) (outs : List Bytes)
    → s ≢ []
    → (decode_chain clock budget s w).1 ≡ some outs
    → Candidates clock budget s w outs
unfolding decode_chain start
decode_chain-Candidates clock budget [] w outs filled e = absurd (filled refl)
decode_chain-Candidates clock budget (c ∷ t) w outs filled e =
    let from : Walk = start clock budget (c ∷ t) w in
    let ends : Walk × Bool = walk clock budget (budget_max_depth budget) (c ∷ t) from in
    let ok : ends.1 ≡ true = ground (arith, e) in
    let same : outs ≡ ends.0.out = ground (arith, e) in
    let (n, depth) = depth_pos clock budget (c ∷ t) (budget_max_depth budget) refl in
    rw (same, depth) (walk-Candidates clock budget (c ∷ t) w n depth (rw (← depth) ok))
