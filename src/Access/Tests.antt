-- ===== src/Access/Tests.antt =====
-- The gates at concrete inputs.
use ravenguard.Common.{
  ℕ, ◌≡◌, refl, Bool, true, false, Option, none, some, List, [], ◌∷◌, Bytes, bytes, str_eq, arith,
  if◌then◌else◌, length, ltb,
}
use ravenguard.Common.Ascii.{contains, has_prefix}
use ravenguard.Common.Dict
use ravenguard.Common.Dict.{Dict}
use ravenguard.Common.Int64.{ltb_int}
use ravenguard.Common.Strings.{format_digits, format_int, parse_int, split, hex}
use ravenguard.Access.Compile.{compile_rule, compile_rules, compile_policy, replace_from, replace}
use ravenguard.Access.{
  password, ip_allowlist, Rule, Policy, CompiledPolicy, AccessRequest, any_inside, check_all,
  check_any, needed, matched, verify_form, mac, cookie_value, validate_parts, validate_cookie,
  check,
}
use ravenguard.Access.Rules.{is_allow, is_form, check-verdict}
use ravenguard.Access.Cookie.{validate_cookie-cookie_value}

runs : Unit {0}
unfolding any_inside check_all check_any needed matched verify_form compile_rule compile_rules
    compile_policy replace_from replace mac cookie_value validate_parts validate_cookie check
    Dict.get Dict.put Dict.delete str_eq contains has_prefix format_digits format_int parse_int
    split hex ltb_int
runs = tt

abbrev inside : ℕ → ℕ → Bool
inside nets ip = ltb ip nets

abbrev nets_of : List Bytes → Option ℕ
nets_of cidrs = some (length cidrs)

abbrev hash_of : Bytes → ℕ → Option Bytes
hash_of secret least = if ltb (length secret) least then none else some (b'#' ∷ secret)

abbrev hash_fits : Bytes → Bytes → Bool
hash_fits hash secret = str_eq hash (b'#' ∷ secret)

abbrev keyed : Bytes → Bytes → Bytes
keyed key message = length message ∷ key

abbrev blank : Rule
blank = record {
  type = password;
  secret = [];
  secret_hash = [];
  header_name = [];
  header_value = [];
  cidrs = [];
  user_agents = [];
}

abbrev staff : Policy
staff = record {
  id = bytes "staff";
  mode = bytes "all";
  rules =
      record blank { secret = bytes "correct horse" }
      ∷ record blank { type = ip_allowlist; cidrs = bytes "10.0.0.0/8" ∷ [] }
      ∷ [];
  cookie_ttl = 0;
}

abbrev policies : Dict (CompiledPolicy ℕ)
policies = replace nets_of hash_of (staff ∷ [])

abbrev staff_entry : CompiledPolicy ℕ
staff_entry = record {
  id = bytes "staff";
  any_mode = false;
  cookie_ttl = 86400000000000;
  rules =
      record { rule = record blank { secret_hash = bytes "#correct horse" }; nets = none }
      ∷ record {
        rule = record blank { type = ip_allowlist; cidrs = bytes "10.0.0.0/8" ∷ [] };
        nets = some 1;
      }
      ∷ [];
}

staff_known : Dict.get (bytes "staff") policies ≡ some staff_entry
unfolding runs
staff_known = refl

abbrev visit : AccessRequest ℕ
visit = record { header = λ name. []; cookie = none; client_ip = some 0 }

check-verdict_example :
    (is_allow (check keyed inside [] policies (bytes "staff") [] 100 visit) ≡ false)
    × (is_form (check keyed inside [] policies (bytes "staff") [] 100 visit) ≡ true)
unfolding runs
check-verdict_example =
    check-verdict inside keyed [] (bytes "staff") [] 100 policies staff_entry visit
      (unfold runs in refl) staff_known

validate_cookie-cookie_value_example :
    validate_cookie keyed
      (bytes "k")
      (bytes "p")
      (bytes "1.2.3.4")
      100
      (cookie_value keyed (bytes "k") (bytes "p") (bytes "1.2.3.4") 200)
    ≡ true
unfolding runs
validate_cookie-cookie_value_example =
    validate_cookie-cookie_value keyed (bytes "k") (bytes "p") (bytes "p") (bytes "1.2.3.4")
      (bytes "1.2.3.4") 200 100 (ground arith) (refl, tt)
