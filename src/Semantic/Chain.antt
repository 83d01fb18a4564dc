-- ===== src/Semantic/Chain.antt =====
-- internal/semantic/decode.go: what DecodeChain returns, by an invariant of its walk.
use ravenguard.Common.{
  ℕ, zero, suc, ◌+◌, ◌≡◌, ◌≢◌, refl, sym, ◌∙◌, inl, inr, Bool, true, false, ◌&&◌, ◌||◌, List, [],
  ◌∷◌, ◌++◌, ltb, Bytes, Instant, str_eq, str_eq_refl, str_eq_iff, length, All, arith, if_both,
  Bool-cases,
}
use ravenguard.Semantic.Decode.{
  Budget, Walk, Entered, failed, known, fresh, goes_on, expired, look, add, each, enter_new, enter,
  walk, decodings, member,
}

abbrev pub Distinct : List Bytes → Type 0
Distinct [] = Unit
Distinct (x ∷ xs) = (member x xs ≡ false) × Distinct xs

abbrev pub total : List Bytes → ℕ
total [] = 0
total (x ∷ xs) = length x + total xs

-- What a number of decodings makes of a text.
pub data Derived (origin : Bytes) : ℕ → Bytes → Type 0 where
  root : Derived origin 0 origin
  next :
      {n : ℕ} {b : Bytes} (c : Bytes)
      → Derived origin n b
      → member c (decodings b) ≡ true
      → Derived origin (suc n) c

member-append :
    (b : Bytes) (xs ys : List Bytes) → member b (xs ++ ys) ≡ (member b xs || member b ys)
unfolding member
member-append b [] ys = refl
member-append b (x ∷ xs) ys = ground (arith, member-append b xs ys)

Distinct-append :
    (xs : List Bytes) (b : Bytes) → Distinct xs → member b xs ≡ false → Distinct (xs ++ b ∷ [])
unfolding member
Distinct-append [] b d new = (refl, tt)
Distinct-append (x ∷ xs) b (here, d) new = (
  ground (arith, member-append x xs (b ∷ []), str_eq_iff x b, str_eq_iff b x),
  Distinct-append xs b d (ground arith),
)

total-append : (xs : List Bytes) (b : Bytes) → total (xs ++ b ∷ []) ≡ total xs + length b
total-append [] b = omega arith
total-append (x ∷ xs) b = omega (arith, total-append xs b)

All-append {κ} :
    (Q : Bytes → Type κ) (xs : List Bytes) (b : Bytes) → All Q xs → Q b → All Q (xs ++ b ∷ [])
All-append Q [] b h k = (k, tt)
All-append Q (x ∷ xs) b (here, h) k = (here, All-append Q xs b h k)

member_self : (b : Bytes) (xs : List Bytes) → member b (xs ++ b ∷ []) ≡ true
unfolding member
member_self b [] = ground (arith, str_eq_refl b)
member_self b (x ∷ xs) = ground (arith, member_self b xs)

module _ (clock : ℕ → Instant) (budget : Budget) where
  -- The bytes used do not pass the budget.
  abbrev pub Fits : ℕ → Type 0
  Fits n = (ltb 0 budget.max_bytes && ltb budget.max_bytes n) ≡ false

  module _ (Q : Bytes → Type 0) (used : ℕ) where
    pub record Held (w : Walk) : Type 0 where
      pub same : (x : Bytes) → member x w.seen ≡ member x w.out
      pub distinct : Distinct w.out
      pub good : All Q w.out
      pub spent : w.used ≡ used + total w.out
      pub within : w.out ≢ [] → Fits w.used

    abbrev pub Grows : Walk → Walk → Type 0
    Grows w w' = (x : Bytes) → member x w.out ≡ true → member x w'.out ≡ true

    -- Where there was no error, the invariant holds, nothing is lost, and the text is a result.
    abbrev pub Took : Bytes → Walk → Walk × Bool → Type 0
    Took b w r = r.1 ≡ true → Held r.0 × Grows w r.0 × (member b r.0.out ≡ true)

    look-Held : (w : Walk) → Held w → Held (look clock budget w)
    unfolding look
    look-Held w h = if_both Held _ _ _ h (record {
      same = h.same;
      distinct = h.distinct;
      good = h.good;
      spent = h.spent;
      within = h.within;
    })

    look-out : (w : Walk) → (look clock budget w).out ≡ w.out
    unfolding look
    look-out w = ground arith

    add_lem :
        (n : ℕ) (w : Walk)
        → (add clock budget n w).1 ≡ true
        → ((add clock budget n w).0.out ≡ w.out)
          × ((add clock budget n w).0.seen ≡ w.seen)
          × ((add clock budget n w).0.used ≡ w.used + n)
          × Fits (w.used + n)
    unfolding add look
    add_lem n w ok =
        (ground (arith, ok), ground (arith, ok), ground (arith, ok), ground (arith, ok))

    abbrev pub Entry : Bytes → Walk → Walk × Entered → Type 0
    Entry b w r = Took b w (r.0, goes_on r.1)

    -- The same walk but for the readings of the clock.
    Took-look :
        (b : Bytes) (w : Walk) (r : Walk × Entered) → Entry b (look clock budget w) r → Entry b w r
    unfolding look
    Took-look b w r h ok =
        let (held, grows, has) = h ok in (held, λ x old. grows x (rw (look-out w) old), has)

    grown-Held :
        (b : Bytes) (w w' : Walk)
        → Q b
        → Held w
        → member b w.seen ≡ false
        → w'.out ≡ w.out
        → w'.seen ≡ b ∷ w.seen
        → w'.used ≡ w.used + length b
        → Fits (w.used + length b)
        → Held (record w' { out = w'.out ++ b ∷ [] })
    unfolding member
    grown-Held b w w' q h new outs seens useds fits = record {
      same = λ x. rw (seens, outs) (ground (arith, h.same x, member-append x w.out (b ∷ [])));
      distinct = rw outs (Distinct-append w.out b h.distinct (sym (h.same b) ∙ new));
      good = rw outs (All-append Q w.out b h.good q);
      spent = rw (outs, useds) (omega (arith, h.spent, total-append w.out b));
      within = λ _. rw useds fits;
    }

    enter_new-Entry :
        (b : Bytes) (w : Walk)
        → Q b
        → Held w
        → member b w.seen ≡ false
        → Entry b w (enter_new clock budget b w)
    unfolding enter_new
    enter_new-Entry b w q h new =
        let w1 : Walk = record w { seen = b ∷ w.seen } in
        let w2 : Walk = (add clock budget (length b) w1).0 in
        elim (Bool-cases (add clock budget (length b) w1).1) [
          | inr over ↦ rw over (λ ok. cc)
          | inl fits ↦
              let (outs, seens, useds, fit) = add_lem (length b) w1 fits in
              rw fits (λ ok. (
                grown-Held b w w2 q h new outs seens useds fit,
                λ x old. rw outs (ground (arith, member-append x w.out (b ∷ []), old)),
                rw outs (member_self b w.out),
              ))
        ]

    pub enter-Took : (b : Bytes) (w : Walk) → Q b → Held w → Entry b w (enter clock budget b w)
    unfolding enter
    enter-Took b w q h =
        let h' : Held (look clock budget w) = look-Held w h in
        if_both (Entry b w) (expired clock budget w) _ _ (λ ok. cc)
          (elim (Bool-cases (member b (look clock budget w).seen)) [
            | inl old ↦ rw old (λ ok. (h', λ x m. rw (look-out w) m, sym (h'.same b) ∙ old))
            | inr new ↦ rw new (Took-look b w _ (enter_new-Entry b (look clock budget w) q h' new))
          ])

    -- walk, for a predicate on the texts and on the depth that is left for them.
    module _ (P : ℕ → Bytes → Type 0) (result : (left : ℕ) (b : Bytes) → P left b → Q b)
        (deeper : (left : ℕ) (b c : Bytes)
          → P (suc left) b
          → member c (decodings b) ≡ true
          → P left c) where
      abbrev pub Walks : ℕ → Type 0
      Walks left =
          (b : Bytes) (w : Walk) → P left b → Held w → Took b w (walk clock budget left b w)

      -- The loop over the decoded texts keeps all of them.
      abbrev pub Loops : ℕ → List Bytes → Walk → Walk × Bool → Type 0
      Loops left bs w r =
          r.1 ≡ true
          → Held r.0 × Grows w r.0 × ((c : Bytes) → member c bs ≡ true → member c r.0.out ≡ true)

      each-Loops :
          (left : ℕ)
          → Walks left
          → (bs : List Bytes) (w : Walk) → ((c : Bytes) → member c bs ≡ true → P left c)
          → Held w
          → Loops left bs w (each clock budget (walk clock budget left) bs w)
      unfolding each member
      each-Loops left walks [] w p h = λ ok. (h, λ x m. m, λ c m. cc)
      each-Loops left walks (b ∷ bs) w p h = elim (Bool-cases (walk clock budget left b w).1) [
        | inr stop ↦ rw stop (λ ok. cc)
        | inl on ↦
            let (held, grows, has) = walks b w (p b (ground (arith, str_eq_refl b))) h on in
            let rest =
              each-Loops left walks bs (walk clock budget left b w).0
                (λ c m. p c (ground (arith, m))) held in
            rw on (λ ok.
              let (held', grows', all) = rest ok in
              (
                held',
                λ x m. grows' x (grows x m),
                λ c m. elim (Bool-cases (str_eq b c)) [
                  | inl same ↦ grows' c (rw (← (str_eq_iff b c).0 same) has)
                  | inr other ↦ all c (ground (arith, m, other))
                ],
              ))
      ]

      abbrev pub children : ℕ → Bytes → Walk × Entered → Walk × Bool
      children left b r = elim r.1 [
        | failed ↦ (r.0, false)
        | known ↦ (r.0, true)
        | fresh ↦ each clock budget (walk clock budget left) (decodings b) r.0
      ]

      children-Took :
          (left : ℕ)
          → Walks left
          → (b : Bytes) (w : Walk) (r : Walk × Entered) → P (suc left) b
          → Entry b w r
          → Took b w (children left b r)
      children-Took left walks b w (w', failed) p t ok = cc
      children-Took left walks b w (w', known) p t ok = t refl
      children-Took left walks b w (w', fresh) p t ok =
          let (held, grows, has) = t refl in
          let (held', grows', all) =
            each-Loops left walks (decodings b) w' (λ c m. deeper left b c p m) held ok in
          (held', λ x m. grows' x (grows x m), grows' b has)

      pub walk-Took : (left : ℕ) → Walks left
      unfolding walk
      walk-Took zero b w p h = enter-Took b w (result zero b p) h
      walk-Took (suc left) b w p h =
          children-Took left (walk-Took left) b w (enter clock budget b w) p
            (enter-Took b w (result (suc left) b p) h)

      -- A text that is new is decoded, where there is a depth left.
      pub children-all :
          (left : ℕ) (b : Bytes) (w : Walk) (r : Walk × Entered)
          → P (suc left) b
          → Entry b w r
          → r.1 ≢ known
          → (children left b r).1 ≡ true
          → (c : Bytes) → member c (decodings b) ≡ true
          → member c (children left b r).0.out ≡ true
      children-all left b w (w', failed) p t new ok c m = cc
      children-all left b w (w', known) p t new ok c m = absurd (new refl)
      children-all left b w (w', fresh) p t new ok c m =
          let (held, grows, has) = t refl in
          (each-Loops left (walk-Took left) (decodings b) w' (λ d n. deeper left b d p n) held ok).2
            c m
