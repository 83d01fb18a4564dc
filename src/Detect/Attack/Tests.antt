-- ===== src/Detect/Attack/Tests.antt =====
-- Runs of internal/detect/attack.go, and its theorem at a concrete request.
use ravenguard.Common.{◌≡◌, refl, true, none, some, [], bytes, str_eq}
use ravenguard.Common.Ascii.{contains, has_prefix}
use ravenguard.Faststr.{contains_fold}
use ravenguard.Semantic.Decoders.{query_unescape}
use ravenguard.Detect.Attack.{
  path_traversal, injection_probe, Target, attack_match, scan_attack_string, scan_decoded,
  contains_byte, index_byte, may_have_injection, any_fold, any_bytes,
}
use ravenguard.Detect.Attack.Probes.{Shown, in_query, same, decode}
use ravenguard.Detect.Attack.Listed.{has_probe}

abbrev twice_encoded : Target
twice_encoded = record {
  path = bytes "/get";
  raw_path = [];
  raw_query = bytes "f=%252E%252e%252fkey";
}

once : query_unescape (bytes "f=%252E%252e%252fkey") ≡ some (bytes "f=%2E%2e%2fkey")
unfolding query_unescape
once = refl

twice : query_unescape (bytes "f=%2E%2e%2fkey") ≡ some (bytes "f=../key")
unfolding query_unescape
twice = refl

way_to_key : Shown query_unescape query_unescape twice_encoded (bytes "f=../key")
unfolding contains_byte str_eq
way_to_key = in_query (decode refl once refl (decode refl twice refl same))

holds_key : has_probe (bytes "f=../key") ≡ true
unfolding contains_byte any_bytes contains has_prefix
holds_key = refl

-- The traversal shows after the first decoding already.
twice_found : attack_match query_unescape query_unescape twice_encoded ≡ some path_traversal
unfolding attack_match scan_attack_string scan_decoded contains_byte index_byte contains_fold
    any_fold any_bytes may_have_injection query_unescape str_eq contains
twice_found = refl

-- Three of the probes of attackSubs have no character that mayHaveInjection knows.
unmarked_missed :
    (scan_attack_string (bytes "q=onerror=alert") ≡ none)
    × (scan_attack_string (bytes "onload=x") ≡ none)
    × (scan_attack_string (bytes "/dev/tcp/10.0.0.1/80") ≡ none)
    × (scan_attack_string (bytes "/dev/tcp/10.0.0.1:80") ≡ some injection_probe)
unfolding scan_attack_string contains_byte contains_fold any_fold any_bytes may_have_injection
    contains has_prefix
unmarked_missed = (refl, refl, refl, refl)
