-- ===== src/Access/Compile.antt =====
-- internal/access/policy.go: the policies as Replace compiles them, with the secrets hashed and the
-- networks parsed.
use ravenguard.Common.{ℕ, Option, none, some, List, [], ◌∷◌, if◌then◌else◌, Bytes, bytes, str_eq}
use ravenguard.Common.Dict
use ravenguard.Common.Dict.{Dict}
use ravenguard.Common.Int64.{ltb_int}
use ravenguard.Access.{
  Rule, Policy, CompiledRule, CompiledPolicy, password, pin, ip_allowlist, header_rule, user_agent,
  other,
}

module _ {Nets : Type 0} (parse_cidrs : List Bytes → Option Nets)
    (hash_secret : Bytes → ℕ → Option Bytes) where
  abbrev hashed : Rule → Option Bytes → Rule
  hashed r none = record r { secret = [] }
  hashed r (some hash) = record r { secret_hash = hash; secret = [] }

  abbrev with_secret : Rule → ℕ → CompiledRule Nets
  with_secret r min_len = record {
    rule = if str_eq r.secret [] then r else hashed r (hash_secret r.secret min_len);
    nets = none;
  }

  unfoldable pub compile_rule : Rule → CompiledRule Nets
  compile_rule r = elim r.type [
    | password ↦ with_secret r 8
    | pin ↦ with_secret r 4
    | ip_allowlist ↦ record { rule = r; nets = parse_cidrs r.cidrs }
    | header_rule ↦ record { rule = r; nets = none }
    | user_agent ↦ record { rule = r; nets = none }
    | other ↦ record { rule = r; nets = none }
  ]

  unfoldable pub compile_rules : List Rule → List (CompiledRule Nets)
  unfolding compile_rule
  compile_rules [] = []
  compile_rules (r ∷ rs) = compile_rule r ∷ compile_rules rs

  -- compilePolicy; 24 hours in nanoseconds is the default time to live.
  unfoldable pub compile_policy : Policy → CompiledPolicy Nets
  unfolding compile_rules
  compile_policy p = record {
    id = p.id;
    any_mode = str_eq p.mode (bytes "any");
    cookie_ttl = if ltb_int 0 p.cookie_ttl then p.cookie_ttl else 86400000000000;
    rules = compile_rules p.rules;
  }

  unfoldable pub replace_from :
      List Policy → Dict (CompiledPolicy Nets) → Dict (CompiledPolicy Nets)
  replace_from [] m = m
  replace_from (p ∷ ps) m =
      replace_from ps (if str_eq p.id [] then m else Dict.put p.id (compile_policy p) m)

  -- Replace
  unfoldable pub replace : List Policy → Dict (CompiledPolicy Nets)
  unfolding replace_from
  replace policies = replace_from policies []
