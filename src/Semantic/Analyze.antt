-- ===== src/Semantic/Analyze.antt =====
-- internal/semantic/analyze.go: the scores of the four attack families. A confidence is kept in
-- hundredths, since all of them are constants with two decimals.
use ravenguard.Common.{
  ℕ, zero, suc, ◌+◌, Bool, false, ◌&&◌, ◌||◌, Option, none, some, List, [], ◌∷◌, ◌++◌, ◌==◌,
  if◌then◌else◌, Bytes, str_eq, length, bytes, min, max, drop,
}
use ravenguard.Common.Ascii.{contains, has_prefix, to_lower}
use ravenguard.Semantic.Decode.{trunc_evidence}

-- Result of engine.go.
pub record Result : Type 0 where
  pub matched : Bool
  pub should_block : Bool
  pub need_chal : Bool
  pub family : Bytes
  pub score : ℕ
  pub confidence : ℕ
  pub evidence : Bytes
  pub aborted : Bool
  pub error : Bytes

abbrev pub no_result : Result
no_result = record {
  matched = false;
  should_block = false;
  need_chal = false;
  family = [];
  score = 0;
  confidence = 0;
  evidence = [];
  aborted = false;
  error = [];
}

-- The local variables score, conf and hit.
pub record Tally : Type 0 where
  pub score : ℕ
  pub conf : ℕ
  pub hit : Bytes

abbrev start : Tally
start = record { score = 0; conf = 0; hit = [] }

-- One of the tests: what it adds to the score, and its confidence and name.
unfoldable pub mark : Bool → ℕ → ℕ → Bytes → Tally → Tally
mark test points conf name t =
    if test then record { score = t.score + points; conf = max t.conf conf; hit = name } else t

unfoldable pub finish : Bytes → Bytes → Tally → Result
finish family b t =
    let score = min 100 t.score in
    if score == 0 then no_result else record no_result {
      family = family;
      score = score;
      confidence = t.conf;
      evidence = trunc_evidence b 128 ++ b':' ∷ t.hit;
    }

abbrev pub contains_any : Bytes → List Bytes → Bool
contains_any s [] = false
contains_any s (t ∷ ts) = contains s t || contains_any s ts

abbrev starts_any : Bytes → List Bytes → Bool
starts_any s [] = false
starts_any s (t ∷ ts) = has_prefix s t || starts_any s ts

-- The text behind the first place where another stands.
unfoldable pub behind : Bytes → Bytes → Option Bytes
unfolding has_prefix
behind t [] = if has_prefix [] t then some [] else none
behind t (c ∷ s) =
    let rest = behind t s in if has_prefix (c ∷ s) t then some (drop (length t) (c ∷ s)) else rest

abbrev is_gap : ℕ → Bool
is_gap c = c == 32 || c == 9 || c == 10 || c == 13

-- The inner loop of hasSQLUnionSelect: white space and closed comments are skipped. Every round uses
-- a byte, so the length of the text is enough fuel.
skip_gap : ℕ → Bytes → Bytes
unfolding behind has_prefix
skip_gap zero s = s
skip_gap (suc fuel) [] = []
skip_gap (suc fuel) (c ∷ s) =
    let blank = skip_gap fuel s in
    let comment : Bytes = elim (behind (bytes "*/") (drop 1 s)) [
      | none ↦ c ∷ s
      | some rest ↦ skip_gap fuel rest
    ] in
    if is_gap c then blank else if c == b'/' && has_prefix s (b'*' ∷ []) then comment else c ∷ s

-- The outer loop. Every round uses the five bytes of a word, so the length is enough fuel.
union_from : ℕ → Bytes → Bool
unfolding skip_gap behind
union_from zero s = false
union_from (suc fuel) s = elim (behind (bytes "union") s) [
  | none ↦ false
  | some rest ↦ has_prefix (skip_gap (length rest) rest) (bytes "select") || union_from fuel rest
]

unfoldable pub has_sql_union_select : Bytes → Bool
unfolding union_from
has_sql_union_select low = union_from (length low) low

abbrev trim_blank : Bytes → Bytes
trim_blank [] = []
trim_blank (c ∷ s) = let rest = trim_blank s in if c == 32 || c == 9 then rest else c ∷ s

abbrev sql_verbs : List Bytes
sql_verbs =
    bytes "select"
    ∷ bytes "insert"
    ∷ bytes "update"
    ∷ bytes "delete"
    ∷ bytes "drop"
    ∷ bytes "alter"
    ∷ bytes "create"
    ∷ bytes "exec"
    ∷ bytes "declare"
    ∷ []

unfoldable pub has_stacked_query : Bytes → Bool
has_stacked_query [] = false
has_stacked_query (c ∷ s) =
    (c == b';' && starts_any (trim_blank s) sql_verbs) || has_stacked_query s

unfoldable pub has_tautology : Bytes → Bool
has_tautology low =
    contains_any low (
      bytes "' or '1'='1"
      ∷ bytes "' or 1=1"
      ∷ (34 ∷ bytes " or " ++ 34 ∷ bytes "1" ++ 34 ∷ bytes "=" ++ 34 ∷ bytes "1")
      ∷ bytes " or 1=1--"
      ∷ bytes "' or ''='"
      ∷ bytes "1' or '1'='1"
      ∷ [])
    || (contains low (bytes "' or ") || contains low (bytes "'||")) && contains low (bytes "=")

unfoldable pub score_sqli : Bytes → Result
score_sqli b =
    let low = to_lower b in
    let t = mark (has_sql_union_select low) 85 92 (bytes "union_select") start in
    let t =
      mark (contains_any low (bytes "information_schema" ∷ bytes "load_file(" ∷ [])) 40 90
        (bytes "schema_probe") t in
    let t = mark (has_stacked_query low) 35 85 (bytes "stacked") t in
    let t = mark (has_tautology low) 45 88 (bytes "tautology") t in
    let t =
      mark (contains_any low (bytes "sleep(" ∷ bytes "benchmark(" ∷ bytes "waitfor delay" ∷ [])) 50
        90 (bytes "time_based") t in
    let t =
      mark (contains_any low (bytes "drop table" ∷ bytes "drop database" ∷ [])) 60 90 (bytes "drop")
        t in
    finish (bytes "sqli") b t

-- The last test of scoreXSS names its hit only where no other has.
abbrev sink_name : Bytes → Bytes
sink_name hit = if str_eq hit [] then bytes "dom_sink" else hit

unfoldable pub score_xss : Bytes → Result
unfolding str_eq
score_xss b =
    let low = to_lower b in
    let t =
      mark (contains_any low (bytes "<script" ∷ bytes "</script" ∷ [])) 80 95 (bytes "script_tag")
        start in
    let t = mark (contains low (bytes "javascript:")) 70 90 (bytes "js_uri") t in
    let t =
      mark (contains_any low (bytes "onerror=" ∷ bytes "onload=" ∷ bytes "onclick=" ∷ [])) 65 88
        (bytes "event_handler") t in
    let t =
      mark (contains low (bytes "<svg") && contains low (bytes "onload")) 70 90 (bytes "svg_onload")
        t in
    let t =
      mark (contains_any low (bytes "document.cookie" ∷ bytes "document.write" ∷ [])) 40 80
        (sink_name t.hit) t in
    finish (bytes "xss") b t

unfoldable pub has_shell_verb : Bytes → Bool
has_shell_verb low = contains_any low (
    bytes "cat "
    ∷ bytes "cat/"
    ∷ bytes "cat+"
    ∷ bytes "wget "
    ∷ bytes "curl "
    ∷ bytes "nc "
    ∷ bytes "bash "
    ∷ bytes "sh "
    ∷ bytes "powershell"
    ∷ bytes "python "
    ∷ bytes "perl "
    ∷ bytes "chmod "
    ∷ bytes "chown "
    ∷ bytes "/etc/passwd"
    ∷ bytes "cmd.exe"
    ∷ [])

abbrev back_quote : ℕ
back_quote = 96

-- bytes.ContainsAny with the marks | & ; and the back quote.
abbrev is_shell_mark : ℕ → Bool
is_shell_mark c = c == b'|' || c == b'&' || c == b';' || c == back_quote

abbrev pub any_byte : (ℕ → Bool) → Bytes → Bool
any_byte p [] = false
any_byte p (c ∷ s) = p c || any_byte p s

unfoldable pub score_cmd : Bytes → Result
score_cmd b =
    let low = to_lower b in
    let t =
      mark (any_byte is_shell_mark b && has_shell_verb low) 75 90 (bytes "shell_meta") start in
    let t =
      mark ((contains low (bytes "$(") || contains low (back_quote ∷ [])) && has_shell_verb low) 70
        88 (bytes "subst") t in
    let t =
      mark (contains_any low (bytes "/bin/sh" ∷ bytes "/bin/bash" ∷ bytes "cmd.exe" ∷ [])) 80 92
        (bytes "shell_path") t in
    finish (bytes "cmd") b t

unfoldable pub score_path : Bytes → Result
score_path b =
    let low = to_lower b in
    let t =
      mark (contains b (bytes "../") || contains b (b'.' ∷ b'.' ∷ 92 ∷ [])) 55 85 (bytes "dotdot")
        start in
    let t =
      mark (contains b (bytes "%2e%2e") || contains low (bytes "%2e%2e%2f")) 70 90
        (bytes "encoded_dotdot") t in
    let t =
      mark
        (contains low (bytes "/etc/passwd")
          || contains low (bytes "windows" ++ 92 ∷ bytes "system32")
          || contains low (bytes "boot.ini"))
        80 93 (bytes "sensitive_file") t in
    let t = mark (contains b (0 ∷ [])) 60 90 (bytes "null_byte") t in finish (bytes "path") b t
