-- ===== src/Pipeline/Payloads.antt =====
-- internal/pipeline/pipeline.go: runSemanticML, which asks the semantic engine and the scorer of
-- package ml about a request. The scorer is a parameter.
use ravenguard.Common.{
  ℕ, ◌+◌, ◌/◌, Bool, false, ◌&&◌, ◌||◌, not, Option, none, some, [], ltb, leb, ◌==◌, if◌then◌else◌,
  Bytes, bytes, str_eq, Instant,
}
use ravenguard.BodyBuf.{Body, capture}
use ravenguard.BodyBuf
use ravenguard.Detect.Requests.{Request}
use ravenguard.Semantic.Analyze.{Result, no_result}
use ravenguard.Semantic.Engine.{Engine, evaluate}
use ravenguard.Semantic.Engine

-- The fields of ml.Result that the pipeline reads.
pub record MlResult : Type 0 where
  pub should_block : Bool
  pub need_chal : Bool
  pub points : ℕ
  pub shadow_only : Bool

-- What the pipeline uses of ml.Scorer. Its input is made of the request, the captured body, the engine
-- and its result.
pub record Scorer : Type 0 where
  pub enabled : Bool
  pub shadow : Bool
  pub evaluate : Request → Bytes → Option Engine → Result → MlResult

-- extra, needChal, and the reason of the page if the request is handled.
pub record Payload : Type 0 where
  pub extra : ℕ
  pub need_chal : Bool
  pub stop : Option Bytes

abbrev pub no_payload : Payload
no_payload = record { extra = 0; need_chal = false; stop = none }

abbrev pub handled : Bytes → Payload
handled reason = record { extra = 0; need_chal = false; stop = some reason }

abbrev pub on_engine : Option Engine → Bool
on_engine none = false
on_engine (some e) = e.enabled

abbrev pub on_scorer : Option Scorer → Bool
on_scorer none = false
on_scorer (some m) = m.enabled

-- The body that is inspected; after an error there is none.
abbrev or_empty : Option Bytes → Bytes
or_empty none = []
or_empty (some b) = b

unfoldable pub inspected_body : ℕ → Bytes → BodyBuf.Request → Bytes
unfolding capture str_eq
inspected_body max method r =
    if str_eq method (bytes "GET") || str_eq method (bytes "HEAD")
    then []
    else or_empty (capture (if max == 0 then 65536 else max) r).1

abbrev capped : ℕ → ℕ
capped n = if ltb 40 n then 40 else n

abbrev is_mode : Engine → Bytes → Bool
is_mode e mode = str_eq e.mode mode

-- What a result of the engine adds.
unfoldable pub after_engine : Engine → Result → Payload
unfolding str_eq
after_engine e res =
    let asked = is_mode e (bytes "challenge") && res.need_chal in
    if (res.matched || res.aborted) && res.should_block
    then handled (bytes "Request blocked by semantic analysis")
    else if not res.matched
    then no_payload
    else if leb 50 res.score
    then record {
      extra = capped (res.score / 2);
      need_chal = asked || is_mode e (bytes "challenge") || is_mode e (bytes "block");
      stop = none;
    }
    else record { extra = 0; need_chal = asked; stop = none }

-- What a result of the scorer adds to that.
unfoldable pub after_scorer : Scorer → MlResult → Payload → Payload
after_scorer m res p =
    if res.should_block
    then handled (bytes "Request blocked by ML score")
    else if ltb 0 res.points || res.need_chal
    then record {
      extra = p.extra + res.points;
      need_chal = p.need_chal || (not (res.shadow_only || m.shadow) && res.need_chal);
      stop = none;
    }
    else p

module _ (clock : ℕ → Instant) (r : Request) (body : Bytes) where
  abbrev pub payload_request : Engine.Request
  payload_request = record {
    path = r.path;
    raw_query = r.raw_query;
    content_type = r.header (bytes "Content-Type");
    body = body;
  }

  -- The result of the engine, if it is on.
  unfoldable pub engine_result : Option Engine → Result
  unfolding evaluate
  engine_result none = no_result
  engine_result (some e) = if e.enabled then evaluate clock e payload_request else no_result

  abbrev pub by_engine : Option Engine → Payload
  by_engine none = no_payload
  by_engine (some e) =
      if e.enabled then after_engine e (evaluate clock e payload_request) else no_payload

  abbrev scored : Scorer → Option Engine → Payload → Payload
  scored m sem p =
      if m.enabled then after_scorer m (m.evaluate r body sem (engine_result sem)) p else p

  abbrev by_scorer : Option Scorer → Option Engine → Payload → Payload
  by_scorer none sem p = p
  by_scorer (some m) sem p = scored m sem p

  -- The request is handled, or the scorer is asked.
  abbrev pub unless_handled : Option Scorer → Option Engine → Payload → Payload
  unless_handled ml sem p = elim p.stop [ none ↦ by_scorer ml sem p | some reason ↦ p ]

  -- runSemanticML behind the capture of the body
  unfoldable pub run_semantic_ml : Option Engine → Option Scorer → Payload
  unfolding after_engine after_scorer engine_result
  run_semantic_ml sem ml =
      if not (on_engine sem) && not (on_scorer ml)
      then no_payload
      else unless_handled ml sem (by_engine sem)
