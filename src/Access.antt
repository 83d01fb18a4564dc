-- ===== src/Access.antt =====
-- internal/access: gates of a route by secret, address, header or User-Agent (check.go, policy.go),
-- and the clearance cookie (cookie.go). Parameters: `contains_ip` is iputil.ContainsIP and
-- `parse_cidrs` is iputil.ParseCIDRs, for any type of networks; `verify` and `hash_secret` are
-- VerifySecret and HashSecret, argon2id; `hmac key message` is HMAC-SHA256. Times are Unix seconds.
pub mod Compile
pub mod Rules
pub mod Form
pub mod Cookie
pub mod Tests
use ravenguard.Common.{
  ℕ, suc, ◌+◌, Bool, true, false, ◌&&◌, ◌||◌, not, Option, none, some, List, [], ◌∷◌, ◌++◌, ltb,
  leb, ◌==◌, if◌then◌else◌, Bytes, bytes, str_eq,
}
use ravenguard.Common.Ascii.{contains}
use ravenguard.Common.Dict
use ravenguard.Common.Dict.{Dict}
use ravenguard.Common.Int64.{Int64, ltb_int}
use ravenguard.Common.Strings.{format_int, parse_int, split, hex}

-- The kinds of Rule.Type; any other text is `other`.
pub data RuleType : Type 0 where
  password pin ip_allowlist header_rule user_agent other : RuleType

pub record Rule : Type 0 where
  pub type : RuleType
  pub secret : Bytes
  pub secret_hash : Bytes
  pub header_name : Bytes
  pub header_value : Bytes
  pub cidrs : List Bytes
  pub user_agents : List Bytes

pub record Policy : Type 0 where
  pub id : Bytes
  pub mode : Bytes
  pub rules : List Rule
  pub cookie_ttl : Int64

pub record CompiledRule (Nets : Type 0) : Type 0 where
  pub rule : Rule
  pub nets : Option Nets

pub record CompiledPolicy (Nets : Type 0) : Type 0 where
  pub id : Bytes
  pub any_mode : Bool
  pub cookie_ttl : Int64
  pub rules : List (CompiledRule Nets)

-- What a request shows: its headers, the value of a cookie, and the client's address.
pub record AccessRequest (Ip : Type 0) : Type 0 where
  pub header : Bytes → Bytes
  pub cookie : Option Bytes
  pub client_ip : Option Ip

pub data AccessResult : Type 0 where
  allow : AccessResult
  need_form : AccessResult
  deny : Bytes → AccessResult

-- matchHeader
abbrev match_header : {Ip : Type 0} → AccessRequest Ip → Bytes → Bytes → Bool
match_header r name want = not (str_eq name []) && str_eq (r.header name) want

unfoldable pub any_inside : Bytes → List Bytes → Bool
any_inside ua [] = false
any_inside ua (sub ∷ subs) = not (str_eq sub []) && contains ua sub || any_inside ua subs

-- matchUserAgent; an empty list has no entry to match.
abbrev match_user_agent : {Ip : Type 0} → AccessRequest Ip → List Bytes → Bool
match_user_agent r allowed =
    not (str_eq (r.header (bytes "User-Agent")) [])
    && any_inside (r.header (bytes "User-Agent")) allowed

abbrev pub is_secret : RuleType → Bool
is_secret password = true
is_secret pin = true
is_secret ip_allowlist = false
is_secret header_rule = false
is_secret user_agent = false
is_secret other = false

module _ {Nets Ip : Type 0} (contains_ip : Nets → Ip → Bool) where
  -- matchIP; networks that could not be parsed are an empty list.
  abbrev match_ip : Option Nets → Option Ip → Bool
  match_ip none ip = false
  match_ip (some nets) none = false
  match_ip (some nets) (some ip) = contains_ip nets ip

  -- The loop of checkAll, with whether a secret rule was seen.
  unfoldable pub check_all : AccessRequest Ip → List (CompiledRule Nets) → Bool → AccessResult
  check_all r [] need_auth = if need_auth then need_form else allow
  check_all r (c ∷ cs) need_auth = elim c.rule.type [
    | password ↦ check_all r cs true
    | pin ↦ check_all r cs true
    | ip_allowlist ↦
        (let rest = check_all r cs need_auth in
          if not (match_ip c.nets r.client_ip) then deny (bytes "ip not allowed") else rest)
    | header_rule ↦
        (let rest = check_all r cs need_auth in
          if not (match_header r c.rule.header_name c.rule.header_value)
          then deny (bytes "header mismatch")
          else rest)
    | user_agent ↦
        (let rest = check_all r cs need_auth in
          if not (match_user_agent r c.rule.user_agents)
          then deny (bytes "user agent not allowed")
          else rest)
    | other ↦ deny (bytes "unknown rule type")
  ]

  -- The loop of checkAny.
  unfoldable pub check_any : AccessRequest Ip → List (CompiledRule Nets) → Bool → AccessResult
  check_any r [] has_auth = if has_auth then need_form else deny (bytes "access denied")
  check_any r (c ∷ cs) has_auth = elim c.rule.type [
    | password ↦ check_any r cs true
    | pin ↦ check_any r cs true
    | ip_allowlist ↦
        (let rest = check_any r cs has_auth in if match_ip c.nets r.client_ip then allow else rest)
    | header_rule ↦
        (let rest = check_any r cs has_auth in
          if match_header r c.rule.header_name c.rule.header_value then allow else rest)
    | user_agent ↦
        (let rest = check_any r cs has_auth in
          if match_user_agent r c.rule.user_agents then allow else rest)
    | other ↦ check_any r cs has_auth
  ]

-- The count of the secret rules, and of those whose hash a secret fits.
module _ {Nets : Type 0} (verify : Bytes → Bytes → Bool) where
  unfoldable pub needed : List (CompiledRule Nets) → ℕ
  needed [] = 0
  needed (c ∷ cs) = let rest = needed cs in if is_secret c.rule.type then suc rest else rest

  unfoldable pub matched : Bytes → List (CompiledRule Nets) → ℕ
  matched secret [] = 0
  matched secret (c ∷ cs) =
      let rest = matched secret cs in
      if is_secret c.rule.type
        && not (str_eq c.rule.secret_hash [])
        && verify c.rule.secret_hash secret
      then suc rest
      else rest

  abbrev verify_policy : Bytes → Option (CompiledPolicy Nets) → Bool
  verify_policy secret none = false
  verify_policy secret (some cp) =
      if str_eq secret [] || (needed cp.rules == 0)
      then false
      else if cp.any_mode
      then ltb 0 (matched secret cp.rules)
      else matched secret cp.rules == needed cp.rules

  -- VerifyForm
  unfoldable pub verify_form : Dict (CompiledPolicy Nets) → Bytes → Bytes → Bool
  unfolding needed matched
  verify_form policies policy_id secret = verify_policy secret (Dict.get policy_id policies)

abbrev pub bar : ℕ
bar = b'|'

abbrev barred : Bytes → Bytes → Bytes
barred a rest = a ++ bar ∷ rest

module _ (hmac : Bytes → Bytes → Bytes) where
  -- mac
  unfoldable pub mac : Bytes → Bytes → Bytes
  mac secret payload = hex (hmac secret payload)

  -- The value that IssueCookie sets, for its expiry.
  unfoldable pub cookie_value : Bytes → Bytes → Bytes → Int64 → Bytes
  cookie_value secret policy_id bind_id exp = barred policy_id (
      barred (format_int exp) (
        barred (mac secret bind_id)
          (mac secret (barred policy_id (barred (format_int exp) (mac secret bind_id))))))

  abbrev in_time : Int64 → Option Int64 → Bool
  in_time now none = false
  in_time now (some exp) = not (ltb_int exp now)

  unfoldable pub validate_parts : Bytes → Bytes → Bytes → Int64 → List Bytes → Bool
  validate_parts secret policy_id bind_id now [] = false
  validate_parts secret policy_id bind_id now (a ∷ []) = false
  validate_parts secret policy_id bind_id now (a ∷ b ∷ []) = false
  validate_parts secret policy_id bind_id now (a ∷ b ∷ c ∷ []) = false
  validate_parts secret policy_id bind_id now (a ∷ b ∷ c ∷ d ∷ []) =
      str_eq a policy_id
      && in_time now (parse_int b)
      && str_eq (mac secret bind_id) c
      && str_eq (mac secret (barred a (barred b c))) d
  validate_parts secret policy_id bind_id now (a ∷ b ∷ c ∷ d ∷ e ∷ more) = false

  -- validateCookie
  unfoldable pub validate_cookie : Bytes → Bytes → Bytes → Int64 → Bytes → Bool
  validate_cookie secret policy_id bind_id now val =
      validate_parts secret policy_id bind_id now (split bar val)

  abbrev pub verify_value : Bytes → Bytes → Bytes → Int64 → Option Bytes → Bool
  verify_value secret policy_id bind_id now none = false
  verify_value secret policy_id bind_id now (some val) =
      not (str_eq val []) && validate_cookie secret policy_id bind_id now val

  -- The end of Check, by the mode of the policy.
  abbrev check_rules :
      {Nets Ip : Type 0}
      → (Nets → Ip → Bool)
      → AccessRequest Ip
      → Bool
      → List (CompiledRule Nets)
      → AccessResult
  check_rules contains_ip r any_mode [] = allow
  check_rules contains_ip r any_mode (c ∷ cs) =
      if any_mode
      then check_any contains_ip r (c ∷ cs) false
      else check_all contains_ip r (c ∷ cs) false

  abbrev check_policy :
      {Nets Ip : Type 0}
      → (Nets → Ip → Bool)
      → AccessRequest Ip
      → Bool
      → Option (CompiledPolicy Nets)
      → AccessResult
  check_policy contains_ip r cleared none = deny (bytes "unknown access policy")
  check_policy contains_ip r cleared (some cp) =
      if cleared then allow else check_rules contains_ip r cp.any_mode cp.rules

  -- Check
  unfoldable pub check :
      {Nets Ip : Type 0}
      → (Nets → Ip → Bool)
      → Bytes
      → Dict (CompiledPolicy Nets)
      → Bytes
      → Bytes
      → Int64
      → AccessRequest Ip
      → AccessResult
  unfolding check_all check_any
  check contains_ip secret policies policy_id bind_id now r =
      if str_eq policy_id []
      then allow
      else check_policy contains_ip r (verify_value secret policy_id bind_id now r.cookie)
          (Dict.get policy_id policies)
