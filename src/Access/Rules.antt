-- ===== src/Access/Rules.antt =====
-- What the rules of a policy ask of a request, in the two modes of check.go.
use ravenguard.Common.{
  ◌≡◌, refl, Bool, true, false, ◌&&◌, ◌||◌, not, some, List, [], ◌∷◌, Bytes, bytes, str_eq, arith,
  ◌∙◌, if◌then◌else◌, Bool-cases, inl, inr,
}
use ravenguard.Access.{
  RuleType, password, pin, ip_allowlist, header_rule, user_agent, other, CompiledRule,
  AccessRequest, AccessResult, allow, need_form, deny, match_header, match_user_agent, match_ip,
  is_secret, check_all, check_any, CompiledPolicy, verify_value, check_rules, check,
}
use ravenguard.Common.Dict
use ravenguard.Common.Dict.{Dict}
use ravenguard.Common.Int64.{Int64}

if_not {ℓ} : {A : Type ℓ} (b : Bool) (x y : A) → (if not b then x else y) ≡ (if b then y else x)
if_not true x y = refl
if_not false x y = refl

&&_comm : (a b : Bool) → (a && b) ≡ (b && a)
&&_comm true true = refl
&&_comm true false = refl
&&_comm false true = refl
&&_comm false false = refl

abbrev pub is_allow : AccessResult → Bool
is_allow allow = true
is_allow need_form = false
is_allow (deny reason) = false

abbrev pub is_form : AccessResult → Bool
is_form allow = false
is_form need_form = true
is_form (deny reason) = false

module _ {Nets : Type 0} where
  abbrev pub any_secret : List (CompiledRule Nets) → Bool
  any_secret [] = false
  any_secret (c ∷ cs) = is_secret c.rule.type || any_secret cs

  abbrev pub is_none : List (CompiledRule Nets) → Bool
  is_none [] = true
  is_none (c ∷ cs) = false

module _ {Nets Ip : Type 0} (contains_ip : Nets → Ip → Bool) where
  -- Whether a request meets a rule by itself; a secret is not a thing that a request shows.
  abbrev pub holds : AccessRequest Ip → CompiledRule Nets → Bool
  holds r c = elim c.rule.type [
    | password ↦ false
    | pin ↦ false
    | ip_allowlist ↦ match_ip contains_ip c.nets r.client_ip
    | header_rule ↦ match_header r c.rule.header_name c.rule.header_value
    | user_agent ↦ match_user_agent r c.rule.user_agents
    | other ↦ false
  ]

  -- Every rule that is not a secret is met.
  abbrev pub all_hold : AccessRequest Ip → List (CompiledRule Nets) → Bool
  all_hold r [] = true
  all_hold r (c ∷ cs) = (is_secret c.rule.type || holds r c) && all_hold r cs

  abbrev pub any_holds : AccessRequest Ip → List (CompiledRule Nets) → Bool
  any_holds r [] = false
  any_holds r (c ∷ cs) = holds r c || any_holds r cs

  -- The first rule of a policy in mode "all", whatever its kind.
  check_all-cons :
      (r : AccessRequest Ip) (c : CompiledRule Nets) (cs : List (CompiledRule Nets)) (seen : Bool)
      → (t : RuleType) → c.rule.type ≡ t
      → (b : Bytes) × (check_all contains_ip r (c ∷ cs) seen ≡ (
          if is_secret c.rule.type
          then check_all contains_ip r cs true
          else if holds r c
          then check_all contains_ip r cs seen
          else deny b))
  unfolding check_all
  check_all-cons r c cs seen password e = ([], rw e refl)
  check_all-cons r c cs seen pin e = ([], rw e refl)
  check_all-cons r c cs seen ip_allowlist e =
      (bytes "ip not allowed", rw e (if_not (match_ip contains_ip c.nets r.client_ip) _ _))
  check_all-cons r c cs seen header_rule e = (
    bytes "header mismatch",
    rw e (if_not (match_header r c.rule.header_name c.rule.header_value) _ _),
  )
  check_all-cons r c cs seen user_agent e =
      (bytes "user agent not allowed", rw e (if_not (match_user_agent r c.rule.user_agents) _ _))
  check_all-cons r c cs seen other e = (bytes "unknown rule type", rw e refl)

  secret_unheld_of :
      (r : AccessRequest Ip) (c : CompiledRule Nets) (t : RuleType)
      → c.rule.type ≡ t
      → is_secret c.rule.type ≡ true
      → holds r c ≡ false
  secret_unheld_of r c password e h = rw e refl
  secret_unheld_of r c pin e h = rw e refl
  secret_unheld_of r c ip_allowlist e h = ground (arith, e, h)
  secret_unheld_of r c header_rule e h = ground (arith, e, h)
  secret_unheld_of r c user_agent e h = ground (arith, e, h)
  secret_unheld_of r c other e h = rw e refl

  secret_unheld :
      (r : AccessRequest Ip) (c : CompiledRule Nets)
      → is_secret c.rule.type ≡ true
      → holds r c ≡ false
  secret_unheld r c = secret_unheld_of r c c.rule.type refl

  -- The first rule of a policy in mode "any".
  check_any-cons :
      (r : AccessRequest Ip) (c : CompiledRule Nets) (cs : List (CompiledRule Nets)) (seen : Bool)
      → (t : RuleType) → c.rule.type ≡ t
      → check_any contains_ip r (c ∷ cs) seen ≡ (
          if is_secret c.rule.type
          then check_any contains_ip r cs true
          else if holds r c
          then allow
          else check_any contains_ip r cs seen)
  unfolding check_any
  check_any-cons r c cs seen password e = rw e refl
  check_any-cons r c cs seen pin e = rw e refl
  check_any-cons r c cs seen ip_allowlist e = rw e refl
  check_any-cons r c cs seen header_rule e = rw e refl
  check_any-cons r c cs seen user_agent e = rw e refl
  check_any-cons r c cs seen other e = rw e refl

  check_all-from :
      (r : AccessRequest Ip) (cs : List (CompiledRule Nets)) (seen : Bool)
      → (is_allow (check_all contains_ip r cs seen)
          ≡ (all_hold r cs && not (seen || any_secret cs)))
        × (is_form (check_all contains_ip r cs seen) ≡ (all_hold r cs && (seen || any_secret cs)))
  check_all-from r [] true = unfold check_all in (refl, refl)
  check_all-from r [] false = unfold check_all in (refl, refl)
  check_all-from r (c ∷ cs) seen =
      let (b, e) = check_all-cons r c cs seen c.rule.type refl in
      let (a, f) = check_all-from r cs seen in
      let (a', f') = check_all-from r cs true in
      elim (Bool-cases (is_secret c.rule.type)) [
        | inl p ↦ (rw (e, p, a') (ground arith), rw (e, p, f') (ground arith))
        | inr p ↦ elim (Bool-cases (holds r c)) [
          | inl q ↦ (rw (e, p, q, a) refl, rw (e, p, q, f) refl)
          | inr q ↦ (rw (e, p, q) refl, rw (e, p, q) refl)
        ]
      ]

  check_any-from :
      (r : AccessRequest Ip) (cs : List (CompiledRule Nets)) (seen : Bool)
      → (is_allow (check_any contains_ip r cs seen) ≡ any_holds r cs)
        × (is_form (check_any contains_ip r cs seen)
            ≡ (not (any_holds r cs) && (seen || any_secret cs)))
  check_any-from r [] true = unfold check_any in (refl, refl)
  check_any-from r [] false = unfold check_any in (refl, refl)
  check_any-from r (c ∷ cs) seen =
      let e = check_any-cons r c cs seen c.rule.type refl in
      let (a, f) = check_any-from r cs seen in
      let (a', f') = check_any-from r cs true in
      elim (Bool-cases (is_secret c.rule.type)) [
        | inl p ↦
            let q = secret_unheld r c p in (rw (e, p, q, a') refl, rw (e, p, q, f') (ground arith))
        | inr p ↦ elim (Bool-cases (holds r c)) [
          | inl q ↦ (rw (e, p, q) refl, rw (e, p, q) refl)
          | inr q ↦ (rw (e, p, q, a) refl, rw (e, p, q, f) refl)
        ]
      ]

  check_rules-verdict :
      (hmac : Bytes → Bytes → Bytes) (r : AccessRequest Ip) (any_mode : Bool)
      (cs : List (CompiledRule Nets))
      → (is_allow (check_rules hmac contains_ip r any_mode cs) ≡ (
          if any_mode then is_none cs || any_holds r cs else all_hold r cs && not (any_secret cs)))
        × (is_form (check_rules hmac contains_ip r any_mode cs)
            ≡ (any_secret cs && (if any_mode then not (any_holds r cs) else all_hold r cs)))
  check_rules-verdict hmac r true [] = (refl, refl)
  check_rules-verdict hmac r false [] = (refl, refl)
  check_rules-verdict hmac r true (c ∷ cs) =
      let (a, f) = check_any-from r (c ∷ cs) false in
      (a, f ∙ &&_comm (not (any_holds r (c ∷ cs))) _)
  check_rules-verdict hmac r false (c ∷ cs) =
      let (a, f) = check_all-from r (c ∷ cs) false in (a, f ∙ &&_comm (all_hold r (c ∷ cs)) _)

  -- A named policy that the manager has: the request passes exactly when its cookie clears it, or,
  -- in mode "any", there is no rule or one is met, or, in mode "all", every rule is met and none is
  -- a secret. It is sent to the form exactly when no cookie clears it, the policy has a secret
  -- rule, and no other rule is met, in mode "any", or all others are, in mode "all".
  pub check-verdict :
      (hmac : Bytes → Bytes → Bytes) (secret policy_id bind_id : Bytes) (now : Int64)
      (policies : Dict (CompiledPolicy Nets)) (cp : CompiledPolicy Nets) (r : AccessRequest Ip)
      → str_eq policy_id [] ≡ false
      → Dict.get policy_id policies ≡ some cp
      → (is_allow (check hmac contains_ip secret policies policy_id bind_id now r) ≡ (
          verify_value hmac secret policy_id bind_id now r.cookie
          || (if cp.any_mode
              then is_none cp.rules || any_holds r cp.rules
              else all_hold r cp.rules && not (any_secret cp.rules))))
        × (is_form (check hmac contains_ip secret policies policy_id bind_id now r) ≡ (
            not (verify_value hmac secret policy_id bind_id now r.cookie)
            && any_secret cp.rules
            && (if cp.any_mode then not (any_holds r cp.rules) else all_hold r cp.rules)))
  unfolding check
  check-verdict hmac secret policy_id bind_id now policies cp r named known =
      elim (Bool-cases (verify_value hmac secret policy_id bind_id now r.cookie)) [
        | inl p ↦ (rw (named, known, p) refl, rw (named, known, p) refl)
        | inr p ↦
            let (a, f) = check_rules-verdict hmac r cp.any_mode cp.rules in
            (rw (named, known, p) a, rw (named, known, p) f)
      ]
