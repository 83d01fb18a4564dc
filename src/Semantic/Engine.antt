-- ===== src/Semantic/Engine.antt =====
-- internal/semantic/engine.go: the engine's settings and Evaluate.
use ravenguard.Common.{
  ℕ, ◌+◌, Bool, true, false, ◌&&◌, ◌||◌, not, Option, none, some, List, [], ◌∷◌, ◌++◌, ltb, leb,
  ◌==◌, if◌then◌else◌, Bytes, Instant, str_eq, bytes, take, max,
}
use ravenguard.Common.Ascii.{contains, has_prefix, to_lower, trim_space, has_suffix}
use ravenguard.Semantic.Decode.{Budget, Walk, expired, look, decode_chain, member}
use ravenguard.Semantic.Analyze.{
  Result, no_result, score_sqli, score_xss, score_cmd, score_path, any_byte,
}

-- config.SemanticConfig
pub record SemanticConfig : Type 0 where
  pub enabled : Bool
  pub mode : Bytes
  pub max_body_inspect : ℕ
  pub max_decode_depth : ℕ
  pub max_decode_bytes : ℕ
  pub max_cpu_nanos : ℕ
  pub strict_budget : Bool
  pub families : List Bytes
  pub skip_path_prefixes : List Bytes

pub record Engine : Type 0 where
  pub enabled : Bool
  pub mode : Bytes
  pub cfg : SemanticConfig
  pub families : List Bytes

abbrev clean : Bytes → Bytes
clean s = to_lower (trim_space s)

abbrev clean_all : List Bytes → List Bytes
clean_all [] = []
clean_all (f ∷ fs) = clean f ∷ clean_all fs

abbrev all_families : List Bytes
all_families = bytes "sqli" ∷ bytes "xss" ∷ bytes "cmd" ∷ bytes "path" ∷ []

-- New, by way of apply.
unfoldable pub apply : SemanticConfig → Engine
unfolding str_eq
apply cfg = record {
  enabled = cfg.enabled;
  mode = if str_eq (clean cfg.mode) [] then bytes "shadow" else clean cfg.mode;
  cfg = cfg;
  families = elim cfg.families [ [] ↦ all_families | f ∷ fs ↦ clean_all (f ∷ fs) ];
}

unfoldable pub update_live : Bool → Bytes → Engine → Engine
unfolding str_eq
update_live enabled mode e = record e {
  enabled = enabled;
  mode = if str_eq mode [] then e.mode else clean mode;
}

-- What Evaluate reads of a request.
pub record Request : Type 0 where
  pub path : Bytes
  pub raw_query : Bytes
  pub content_type : Bytes
  pub body : Bytes

unfoldable pub path_skipped : Bytes → Bytes → Bool
unfolding str_eq has_prefix has_suffix
path_skipped path prefix =
    let prefix = trim_space prefix in
    if str_eq prefix []
    then false
    else if str_eq path prefix
    then true
    else if has_suffix prefix (b'/' ∷ [])
    then has_prefix path prefix
    else has_prefix path (prefix ++ b'/' ∷ [])

abbrev pub any_skipped : Bytes → List Bytes → Bool
any_skipped path [] = false
any_skipped path (p ∷ ps) = path_skipped path p || any_skipped path ps

unfoldable pub skip_body_ct : Bytes → Bool
unfolding str_eq has_prefix contains
skip_body_ct ct =
    let ct = clean ct in
    if str_eq ct []
    then false
    else if has_prefix ct (bytes "image/")
        || has_prefix ct (bytes "video/")
        || has_prefix ct (bytes "audio/")
    then true
    else contains ct (bytes "octet-stream")

abbrev is_trigger : ℕ → Bool
is_trigger c =
    c == 0
    || c == b'%'
    || c == 39
    || c == 34
    || c == b'<'
    || c == b'>'
    || c == b';'
    || c == b'|'
    || c == 96
    || c == b'$'
    || c == b'('
    || c == b')'
    || c == b'{'
    || c == b'}'
    || c == 92
    || c == b'/'

unfoldable pub cheap_prefilter : Bytes → Bool
unfolding contains
cheap_prefilter b =
    any_byte is_trigger b || contains b (bytes "../") || contains b (b'.' ∷ b'.' ∷ 92 ∷ [])

abbrev pub better : Result → Result → Result
better best r = if ltb best.score r.score then r else best

abbrev pub if_family : Bytes → List Bytes → Result → Result → Result
if_family name fams r best = if member name fams then better best r else best

unfoldable pub analyze_all : Bytes → List Bytes → Result
unfolding member
analyze_all b fams =
    let best = if_family (bytes "sqli") fams (score_sqli b) no_result in
    let best = if_family (bytes "xss") fams (score_xss b) best in
    let best = if_family (bytes "cmd") fams (score_cmd b) best in
    if_family (bytes "path") fams (score_path b) best

unfoldable pub abort_result : Bytes → Bool → Bytes → Result
unfolding str_eq
abort_result mode strict msg = record no_result {
  matched = strict;
  should_block = strict && str_eq mode (bytes "block");
  aborted = true;
  error = msg;
}

-- What Evaluate makes of the best result.
unfoldable pub verdict : Bytes → Result → Result
unfolding str_eq
verdict mode best =
    if best.score == 0
    then no_result
    else let need_chal = leb 50 best.score in
      let block = leb 80 best.score && str_eq mode (bytes "block") in
      let block = if str_eq mode (bytes "challenge") && need_chal then false else block in
      let block = if str_eq mode (bytes "shadow") then false else block in
      record best { matched = true; need_chal = need_chal; should_block = block }

abbrev if_any : Bytes → List Bytes
if_any [] = []
if_any (c ∷ s) = (c ∷ s) ∷ []

abbrev inspected_body : SemanticConfig → Bytes → Bytes
inspected_body cfg body =
    take (if cfg.max_body_inspect == 0 then 65536 else cfg.max_body_inspect) body

unfoldable pub inputs : SemanticConfig → Request → List Bytes
unfolding skip_body_ct
inputs cfg r =
    if_any r.path
    ++ (if_any r.raw_query
        ++ (if skip_body_ct r.content_type then [] else if_any (inspected_body cfg r.body)))

module _ (clock : ℕ → Instant) (budget : Budget) (fams : List Bytes) where
  -- The loop over the decoded texts; none where the time has run out.
  unfoldable pub pick : List Bytes → Walk → Result → Option (Walk × Result)
  unfolding expired look
  pick [] w best = some (w, best)
  pick (b ∷ bs) w best =
      let rest = pick bs (look clock budget w) (better best (analyze_all b fams)) in
      if expired clock budget w then none else rest

  module _ (mode : Bytes) (strict : Bool) where
    -- Behind the loop over the decoded texts: the next input, unless the time has run out.
    abbrev pub settle : (Walk → Result → Result) → Option (Walk × Result) → Result
    settle next none = abort_result mode strict (bytes "cpu budget exceeded")
    settle next (some (w, best)) = next w best

    -- Behind DecodeChain, whose only error is that of the budget.
    abbrev pub weigh : (Walk → Result → Result) → Walk → Result → Option (List Bytes) → Result
    weigh next w best none = abort_result mode strict (bytes "decode budget exceeded")
    weigh next w best (some texts) = settle next (pick texts w best)

    -- The loop over the inputs, and the lines behind it.
    unfoldable pub inspect : List Bytes → Walk → Result → Result
    unfolding expired look pick abort_result verdict
    inspect [] w best = verdict mode best
    inspect (b ∷ bs) w best =
        let w' = look clock budget w in
        let skipped = inspect bs w' best in
        let (after, texts) = decode_chain clock budget b w' in
        if expired clock budget w
        then abort_result mode strict (bytes "cpu budget exceeded")
        else if not (cheap_prefilter b)
        then skipped
        else weigh (inspect bs) after best texts

abbrev pub budget_of : SemanticConfig → Instant → Budget
budget_of cfg now = record {
  deadline = now + cfg.max_cpu_nanos;
  max_bytes = cfg.max_decode_bytes;
  max_depth = cfg.max_decode_depth;
}

-- The first reading of the clock is that of the deadline.
abbrev pub fresh_walk : Walk
fresh_walk = record { used = 0; reads = 1; seen = []; out = [] }

unfoldable pub evaluate : (ℕ → Instant) → Engine → Request → Result
unfolding inspect inputs path_skipped
evaluate clock e r =
    if not e.enabled
    then no_result
    else if any_skipped r.path e.cfg.skip_path_prefixes
    then no_result
    else inspect clock (budget_of e.cfg (clock 0)) e.families e.mode e.cfg.strict_budget
        (inputs e.cfg r) fresh_walk no_result

pub record Scores : Type 0 where
  pub sqli : ℕ
  pub xss : ℕ
  pub cmdi : ℕ
  pub path_score : ℕ

abbrev raised : Bool → ℕ → Result → ℕ
raised on best r = if on then max best r.score else best

-- The body of the inner loop of FamilyScores.
unfoldable pub raise : List Bytes → Bytes → Scores → Scores
unfolding member
raise fams b best = record {
  sqli = raised (member (bytes "sqli") fams) best.sqli (score_sqli b);
  xss = raised (member (bytes "xss") fams) best.xss (score_xss b);
  cmdi = raised (member (bytes "cmd") fams) best.cmdi (score_cmd b);
  path_score = raised (member (bytes "path") fams) best.path_score (score_path b);
}

abbrev raise_all : List Bytes → List Bytes → Scores → Scores
raise_all fams [] best = best
raise_all fams (b ∷ bs) best = raise_all fams bs (raise fams b best)

abbrev raise_some : List Bytes → Option (List Bytes) → Scores → Scores
raise_some fams none best = best
raise_some fams (some texts) best = raise_all fams texts best

-- The loop of FamilyScores over the inputs. A budget that has run out only skips inputs.
unfoldable pub family_loop :
    (ℕ → Instant) → Budget → List Bytes → List Bytes → Walk → Scores → Scores
unfolding expired look cheap_prefilter decode_chain raise
family_loop clock budget fams [] w best = best
family_loop clock budget fams (b ∷ bs) w best =
    let w' = look clock budget w in
    let (after, texts) = decode_chain clock budget b w' in
    let skip = expired clock budget w || not (cheap_prefilter b) in
    family_loop clock budget fams bs (if skip then w' else after)
      (if skip then best else raise_some fams texts best)

abbrev pub no_scores : Scores
no_scores = record { sqli = 0; xss = 0; cmdi = 0; path_score = 0 }

unfoldable pub family_scores : (ℕ → Instant) → Engine → Request → Scores
unfolding family_loop inputs path_skipped
family_scores clock e r =
    if any_skipped r.path e.cfg.skip_path_prefixes
    then no_scores
    else family_loop clock (budget_of e.cfg (clock 0)) e.families (inputs e.cfg r) fresh_walk
        no_scores
