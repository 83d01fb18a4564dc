-- ===== src/Pipeline/Traps.antt =====
-- internal/pipeline/pipeline.go: the honeypot paths (buildTraps, trapPath, Match). A map with empty
-- values is the list of its keys. Text is ASCII.
use ravenguard.Common.{
  ℕ, Bool, true, false, ◌&&◌, ◌||◌, not, Option, none, some, List, [], ◌∷◌, ◌==◌, if◌then◌else◌,
  Bytes, bytes, str_eq,
}
use ravenguard.Common.Ascii.{trim_space, to_lower, has_prefix}
use ravenguard.Pipeline.{TrapAction, trap_ban, trap_tarpit, trap_challenge, trap_block}

-- config.HoneypotConfig
pub record HoneypotConfig : Type 0 where
  pub enabled : Bool
  pub paths : List Bytes
  pub prefixes : List Bytes
  pub action : Bytes
  pub ban_ttl : ℕ

pub record TrapSet : Type 0 where
  pub action : TrapAction
  pub ban_ttl : ℕ
  pub exact : List Bytes
  pub prefixes : List Bytes

abbrev rooted : Bytes → Bytes
rooted [] = []
rooted (c ∷ s) = to_lower (if c == b'/' then c ∷ s else b'/' ∷ c ∷ s)

unfoldable pub trap_path : Bytes → Bytes
trap_path p = rooted (trim_space p)

-- The two loops of buildTraps.
unfoldable pub trap_paths : List Bytes → List Bytes
unfolding trap_path
trap_paths [] = []
trap_paths (p ∷ ps) =
    let rest = trap_paths ps in if str_eq (trap_path p) [] then rest else trap_path p ∷ rest

unfoldable pub trap_action_of : Bytes → TrapAction
trap_action_of s =
    let s = to_lower (trim_space s) in
    if str_eq s (bytes "deny") || str_eq s (bytes "block")
    then trap_block
    else if str_eq s (bytes "challenge")
    then trap_challenge
    else if str_eq s (bytes "tarpit")
    then trap_tarpit
    else trap_ban

abbrev pub is_empty : List Bytes → Bool
is_empty [] = true
is_empty (x ∷ xs) = false

-- buildTraps; nil is none.
unfoldable pub build_traps : HoneypotConfig → Option TrapSet
unfolding trap_paths trap_action_of
build_traps hc =
    if not hc.enabled
    then none
    else if is_empty (trap_paths hc.paths) && is_empty (trap_paths hc.prefixes)
    then none
    else some (record {
      action = trap_action_of hc.action;
      ban_ttl = hc.ban_ttl;
      exact = trap_paths hc.paths;
      prefixes = trap_paths hc.prefixes;
    })

unfoldable pub any_equal : Bytes → List Bytes → Bool
any_equal low [] = false
any_equal low (p ∷ ps) = str_eq low p || any_equal low ps

unfoldable pub any_prefix : Bytes → List Bytes → Bool
any_prefix low [] = false
any_prefix low (p ∷ ps) = has_prefix low p || any_prefix low ps

-- Match
unfoldable pub matches : TrapSet → Bytes → Bool
unfolding any_equal any_prefix
matches t path =
    if any_equal (to_lower path) t.exact then true else any_prefix (to_lower path) t.prefixes
