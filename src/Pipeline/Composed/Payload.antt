-- ===== src/Pipeline/Composed/Payload.antt =====
-- guard on the payload of a request: the attack signatures and the semantic engine of its handler.
use ravenguard.Common.{
  ℕ, ◌≡◌, ◌≤◌, refl, ap, ◌∙◌, ◌⊎◌, true, false, ◌&&◌, ◌||◌, not, Option, some, Bytes, bytes,
  Instant, arith, if_then, if◌then◌else◌,
}
use ravenguard.Common.Int64.{Int64}
use ravenguard.Common.Net.{Net}
use ravenguard.Detect.Requests.{Request}
use ravenguard.Pipeline.{Settings, Facts, Edge}
use ravenguard.Pipeline.Barred.{refused_early, refused_late, guard-barred}
use ravenguard.Pipeline.Gates.{is_proxied}
use ravenguard.Pipeline.Handler.{HttpRequest, Packages, Handler, asked}
use ravenguard.Pipeline.Order.{stops}
use ravenguard.Pipeline.Payloads.{
  Scorer, run_semantic_ml, inspected_body, payload_request, after_engine, handled, by_engine,
  unless_handled, no_payload, on_scorer,
}
use ravenguard.Pipeline.Serve.{guard}
use ravenguard.RateLimit.Floats.{Arithmetic}
use ravenguard.Semantic.Analyze.{Result}
use ravenguard.Semantic.Decode.{member, decodings}
use ravenguard.Semantic.Engine.{Engine, evaluate, inputs, any_skipped, cheap_prefilter, analyze_all}
use ravenguard.Semantic.Reasons.{evaluate-IsJustified}
use ravenguard.Semantic.Verdict.{evaluate-blocks}

refused_payload :
    (f : Facts)
    → f.allowed ≡ false
    → f.git_smart_http ≡ false
    → stops f.semantic_stop ≡ true
    → (refused_early f || refused_late f) ≡ true
refused_payload f a g h = ground (arith, a, g, h)

-- A result that blocks ends the request.
blocked_payload :
    (e : Engine) (res : Result)
    → res.should_block ≡ true
    → (res.matched || res.aborted) ≡ true
    → after_engine e res ≡ handled (bytes "Request blocked by semantic analysis")
unfolding after_engine
blocked_payload e res b m = rw (b, m) refl

run_semantic_ml-blocked :
    (clock : ℕ → Instant) (r : Request) (body : Bytes) (e : Engine) (ml : Option Scorer)
    → e.enabled ≡ true
    → (evaluate clock e (payload_request clock r body)).should_block ≡ true
    → stops (run_semantic_ml clock r body (some e) ml).stop ≡ true
unfolding run_semantic_ml
run_semantic_ml-blocked clock r body e ml on b =
    let request = payload_request clock r body in
    let ends =
      blocked_payload e (evaluate clock e request) b
        ((evaluate-IsJustified clock e request).reported b) in
    let result : by_engine clock r body (some e)
        ≡ handled (bytes "Request blocked by semantic analysis") =
      if_then e.enabled _ _ on ∙ ends in
    ap
      (λ b.
        stops
          (if not b && not (on_scorer ml)
            then no_payload
            else unless_handled clock r body ml (some e) (by_engine clock r body (some e))).stop)
      on
    ∙ ap (λ p. stops (unless_handled clock r body ml (some e) p).stop) result

module _ {net : Net} (P : Packages net) (h : Handler net) (r : HttpRequest) (clock : ℕ → Instant)
    (now : Instant) (unix : Int64) (f : Facts) (s : Settings) (A : Arithmetic)
    (e : Edge A.Num) where
  -- A request that the semantic engine, in mode block and with a strict budget, is to block for one of
  -- the texts that it inspects, is not proxied, for a client that is not on the allow list and does not
  -- speak Git, whatever the scorer says.
  pub guard-payload :
      (engine : Engine) (b c : Bytes)
      → (asked P h r clock now unix f).allowed ≡ false
      → (asked P h r clock now unix f).git_smart_http ≡ false
      → h.semantic ≡ some engine
      → engine.enabled ≡ true
      → engine.mode ≡ bytes "block"
      → engine.cfg.strict_budget ≡ true
      → any_skipped r.base.path engine.cfg.skip_path_prefixes ≡ false
      → member b (
          inputs engine.cfg
            (payload_request clock r.base (inspected_body h.max_body_inspect r.base.method r.body)))
        ≡ true
      → cheap_prefilter b ≡ true
      → (c ≡ b) ⊎ (member c (decodings b) ≡ true)
      → 80 ≤ (analyze_all c engine.families).score
      → is_proxied (guard s (asked P h r clock now unix f) now A e).1 ≡ false
  unfolding asked
  guard-payload engine b c screened git installed on mode strict inside inspected pass hides high =
      let body = inspected_body h.max_body_inspect r.base.method r.body in
      let verdict =
        evaluate-blocks clock engine (payload_request clock r.base body) b c on mode strict inside
          inspected pass hides high in
      guard-barred s (asked P h r clock now unix f) now A e (
        refused_payload (asked P h r clock now unix f) screened git
          (rw installed (run_semantic_ml-blocked clock r.base body engine h.ml on verdict)))
