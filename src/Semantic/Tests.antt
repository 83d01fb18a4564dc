-- ===== src/Semantic/Tests.antt =====
-- Runs of the semantic engine on small inputs, and instances of the theorems about it.
use ravenguard.Common.{ℕ, ◌≡◌, refl, Bool, true, false, some, [], ◌∷◌, ◌++◌, Bytes, bytes, Instant}
use ravenguard.Common.Ascii.{contains, trim_space}
use ravenguard.Semantic.Decoders.{try_url_decode, try_base64, try_hex, try_unicode_escape}
use ravenguard.Semantic.Decode.{
  Budget, Walk, expired, look, add, each, enter, enter_new, walk, decode_chain, decodings, member,
  budget_max_depth, trunc_evidence,
}
use ravenguard.Semantic.Analyze.{
  Result, mark, finish, behind, has_sql_union_select, has_stacked_query, has_tautology, score_sqli,
  score_xss, has_shell_verb, score_cmd, score_path,
}
use ravenguard.Semantic.Candidates.{Candidates, decode_chain-Candidates}
use ravenguard.Semantic.Reasons.{IsJustified, evaluate-IsJustified}
use ravenguard.Semantic.Engine.{
  SemanticConfig, apply, Request, evaluate, cheap_prefilter, analyze_all, verdict, inputs, pick,
  inspect,
}

try_url_plus : try_url_decode (bytes "a+%2e%2E/") ≡ some (bytes "a ../")
unfolding try_url_decode
try_url_plus = refl

try_base64_text : try_base64 (bytes "PHNjcmlwdD4=") ≡ some (bytes "<script>")
unfolding try_base64
try_base64_text = refl

try_hex_text : try_hex (bytes "3c2F") ≡ some (bytes "</")
unfolding try_hex
try_hex_text = refl

escapes : try_unicode_escape (92 ∷ bytes "u003cb" ++ 92 ∷ bytes "x3e") ≡ some (bytes "<b>")
unfolding try_unicode_escape
escapes = refl

abbrev settings : SemanticConfig
settings = record {
  enabled = true;
  mode = bytes "block";
  max_body_inspect = 0;
  max_decode_depth = 3;
  max_decode_bytes = 1000;
  max_cpu_nanos = 10;
  strict_budget = true;
  families = [];
  skip_path_prefixes = bytes "/static" ∷ [];
}

abbrev asks : Bytes → Request
asks query = record { path = bytes "/a"; raw_query = query; content_type = []; body = [] }

abbrev still : ℕ → Instant
still n = 5

abbrev shows : Result → Bool × ℕ × Bytes
shows r = (r.should_block, r.score, r.evidence)

run : Request → Result
unfolding apply evaluate inspect cheap_prefilter pick inputs verdict analyze_all trim_space
    decode_chain walk enter enter_new each decodings try_url_decode try_base64 try_hex
    try_unicode_escape expired look add member budget_max_depth score_sqli score_xss score_cmd
    score_path mark finish trunc_evidence has_sql_union_select behind has_stacked_query
    has_tautology has_shell_verb contains
run r = evaluate still (apply settings) r

-- A query without any of the prefilter's bytes is not looked at, whatever it would score.
plus_query : shows (run (asks (bytes "id=1+union+select+name"))) ≡ (false, 0, [])
unfolding run
plus_query = refl

plus_query_scores : (score_sqli (bytes "id=1 union select name")).score ≡ 85
unfolding run
plus_query_scores = refl

run_script : shows (run (asks (bytes "q=%3Cscript%3E"))) ≡ (true, 80, bytes "q=<script>:script_tag")
unfolding run
run_script = refl

abbrev plain : Budget
plain = record { deadline = 9; max_bytes = 30; max_depth = 1 }

abbrev early : Walk
early = record { used = 2; reads = 0; seen = []; out = [] }

decode_chain_example : Candidates still plain (bytes "a+b") early (bytes "a+b" ∷ bytes "a b" ∷ [])
unfolding run
decode_chain_example =
    decode_chain-Candidates still plain (bytes "a+b") early (bytes "a+b" ∷ bytes "a b" ∷ [])
      (λ e. cc) refl

evaluate-IsJustified_example :
    IsJustified (bytes "block") true (evaluate still (apply settings) (asks (bytes "q=1")))
unfolding run
evaluate-IsJustified_example = evaluate-IsJustified still (apply settings) (asks (bytes "q=1"))
