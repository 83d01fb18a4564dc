-- ===== src/Access/Form.antt =====
-- What VerifyForm asks of the one secret that a form submits.
use ravenguard.Common.{
  ◌≤◌, ◌≡◌, refl, Bool, true, false, ◌&&◌, ◌||◌, not, some, List, [], ◌∷◌, Bytes, str_eq, arith,
  if◌then◌else◌, Bool-cases, inl, inr, ltb, ◌==◌,
}
use ravenguard.Common.Dict
use ravenguard.Common.Dict.{Dict}
use ravenguard.Access.{CompiledRule, CompiledPolicy, is_secret, needed, matched, verify_form}
use ravenguard.Access.Rules.{any_secret}

module _ {Nets : Type 0} (verify : Bytes → Bytes → Bool) where
  -- A secret rule whose hash a secret fits.
  abbrev pub fits : Bytes → CompiledRule Nets → Bool
  fits secret c = not (str_eq c.rule.secret_hash []) && verify c.rule.secret_hash secret

  abbrev pub all_fit : Bytes → List (CompiledRule Nets) → Bool
  all_fit secret [] = true
  all_fit secret (c ∷ cs) = (not (is_secret c.rule.type) || fits secret c) && all_fit secret cs

  abbrev pub any_fits : Bytes → List (CompiledRule Nets) → Bool
  any_fits secret [] = false
  any_fits secret (c ∷ cs) = is_secret c.rule.type && fits secret c || any_fits secret cs

  needed_or_none : (cs : List (CompiledRule Nets)) → (needed verify cs == 0) ≡ not (any_secret cs)
  unfolding needed
  needed_or_none [] = refl
  needed_or_none (c ∷ cs) =
      let rest = needed_or_none cs in
      elim (Bool-cases (is_secret c.rule.type)) [ inl p ↦ rw p (ground arith) | inr p ↦ rw p rest ]

  matched-fits :
      (secret : Bytes) (cs : List (CompiledRule Nets))
      → (matched verify secret cs ≤ needed verify cs)
        × (ltb 0 (matched verify secret cs) ≡ any_fits secret cs)
        × ((matched verify secret cs == needed verify cs) ≡ all_fit secret cs)
  unfolding needed matched
  matched-fits secret [] = (ground arith, refl, refl)
  matched-fits secret (c ∷ cs) =
      let (a, b, d) = matched-fits secret cs in
      elim (Bool-cases (is_secret c.rule.type)) [
        | inl p ↦ elim (Bool-cases (fits secret c)) [
          | inl q ↦ rw (p, q) (ground arith, ground arith, rw⁻¹ d (ground arith))
          | inr q ↦ rw (p, q) (ground arith, b, ground arith)
        ]
        | inr p ↦ rw p (a, b, d)
      ]

  -- A non-empty secret submitted for a policy that the manager has passes exactly when the policy
  -- has a secret rule and the secret fits one of them, in mode "any", or every one of them, in
  -- mode "all".
  pub verify_form-fits :
      (policies : Dict (CompiledPolicy Nets)) (policy_id secret : Bytes) (cp : CompiledPolicy Nets)
      → str_eq secret [] ≡ false
      → Dict.get policy_id policies ≡ some cp
      → verify_form verify policies policy_id secret ≡ (
          any_secret cp.rules
          && (if cp.any_mode then any_fits secret cp.rules else all_fit secret cp.rules))
  unfolding verify_form
  verify_form-fits policies policy_id secret cp given known =
      let (a, b, d) = matched-fits secret cp.rules in
      let n = needed_or_none cp.rules in
      rw (known, given, n, b, d)
        (elim (Bool-cases (any_secret cp.rules)) [ inl p ↦ rw p refl | inr p ↦ rw p refl ])
