-- ===== src/Pipeline.antt =====
-- internal/pipeline/pipeline.go: the order of the guards of a request. What other packages say of a
-- request stands in `Facts`, under the names of the calls of guard; the state that guard changes
-- itself, the protect guard, the limiters and the trackers, is `Edge`. Headers, pages, the request
-- log and the gates kept for challenges are outside the model, and a request reads one clock.
pub mod Steps
pub mod Detection
pub mod Serve
pub mod Gates
pub mod Order
pub mod Quiet
pub mod Barred
pub mod Neutral
pub mod Kept
pub mod Slots
pub mod Banned
pub mod Attack
pub mod Requests
pub mod Traps
pub mod Payloads
pub mod Handler
pub mod Composed
pub mod Redirect
pub mod Tests
use ravenguard.Common.{
  ℕ, Bool, true, false, ◌&&◌, ◌||◌, not, Option, none, some, List, [], ◌∷◌, if◌then◌else◌, Bytes,
  Instant,
}
use ravenguard.Common.Int.{ℤ}
use ravenguard.Detect.Forge.{ForgeFlavor}
use ravenguard.Detect.Behavior.{BehaviorTracker}
use ravenguard.Detect.Counter.{Tracker}
use ravenguard.Protect.Guard
use ravenguard.Protect.Guard.{Guard}
use ravenguard.RateLimit.{Limiter}

-- aiPolicy, and the actions of traps and of the counters of missing and expensive responses.
pub data AiPolicy : Type 0 where
  ai_allow ai_block ai_pay : AiPolicy

pub data TrapAction : Type 0 where
  trap_ban trap_tarpit trap_challenge trap_block : TrapAction

pub data CountAction : Type 0 where
  count_block count_tarpit count_off count_challenge : CountAction

pub record Settings : Type 0 where
  pub rate_limit : Bool
  pub challenge_over : Bool
  pub detect : Bool
  pub challenge : Bool
  pub challenge_always : Bool
  pub block_score : ℕ
  pub challenge_score : ℕ
  pub write_cost : ℕ
  pub forge_rate_cost : ℕ
  pub forge_flavor : ForgeFlavor
  pub ai_policy : AiPolicy
  pub wba_spoof : ℕ
  pub crawler_spoof : ℕ
  pub high404_action : CountAction
  pub pen_action : CountAction
  pub trap_action : TrapAction
  pub trap_ban_ttl : ℕ
  pub caches_misses : Bool

pub data WebBot : Type 0 where
  wba_none wba_verified wba_invalid : WebBot

-- A request, with the answers of the packages that guard asks; a package that is not configured
-- answers false, and upstream_healthy, access_ok and schema_ok true. A field of a response is read
-- when the request is proxied.
pub record Facts : Type 0 where
  pub key : Bytes
  pub path : Bytes
  pub raw_query : Bytes
  pub method : Bytes
  pub user_agent : Bytes
  pub content_length : ℤ
  pub has_client_ip : Bool
  pub subnet_key : Bytes
  pub allowed : Bool
  pub git_smart_http : Bool
  pub stream : Bool
  pub websocket : Bool
  pub sse_subresource : Bool
  pub wants_html : Bool
  pub subrequest : Bool
  pub ip_blocked : Bool
  pub host_blocked : Bool
  pub ua_blocked : Bool
  pub shared_ip : Bool
  pub shared_host : Bool
  pub shared_ua : Bool
  pub shared_ja4 : Bool
  pub feed_ip : Bool
  pub feed_domain : Bool
  pub trap : Bool
  pub upstream_healthy : Bool
  pub coraza_block : Bool
  pub coraza_mode_block : Bool
  pub attack : Bool
  pub semantic_stop : Option Bytes
  pub ml_extra : ℕ
  pub semantic_challenge : Bool
  pub web_bot : WebBot
  pub score : Bool → ℕ
  pub crawler_spoofed : Bool
  pub ai_ua : Bool
  pub ai_paid : Bool
  pub has_challenge : Bool
  pub skip_challenge : Bool
  pub has_clearance : Bool
  pub access_ok : Bool
  pub schema_ok : Bool
  pub status : ℕ

pub data Outcome : Type 0 where
  proxied : Outcome
  blocked : Bytes → Outcome
  rate_limited : Outcome
  tarpit : Outcome
  upstream_down : Outcome
  challenged : Outcome
  challenge_unavailable : Outcome
  clearance_required : Outcome
  payment_required : Outcome
  access_refused : Outcome
  schema_refused : Outcome

pub record Edge (Num : Type 0) : Type 0 where
  pub prot : Option Guard
  pub global_limit : Option (Limiter Num)
  pub subnet_limit : Option (Limiter Num)
  pub limiter : Option (Limiter Num)
  pub beh : Option BehaviorTracker
  pub nf : Option Tracker
  pub pen : Option Tracker

-- The variables of guard beside the edge: needChallenge and the score of detection.
pub record Pass (Num : Type 0) : Type 0 where
  pub edge : Edge Num
  pub need_challenge : Bool
  pub detect_score : ℕ

-- A part of guard: the state after it, and the outcome when it answers the request.
abbrev pub Step : Type 0 → Type 0
Step Num = Pass Num → Pass Num × Option Outcome

abbrev pub resume :
    {Num : Type 0} → Step Num → Pass Num × Option Outcome → Pass Num × Option Outcome
resume next (p, none) = next p
resume next (p, some o) = (p, some o)

-- The parts one after the other, up to the first that answers.
unfoldable pub in_order : {Num : Type 0} → List (Step Num) → Step Num
in_order [] p = (p, none)
in_order (s ∷ steps) p = resume (in_order steps) (s p)

-- h.prot != nil && h.prot.Enabled()
abbrev pub guarded : Option Guard → Bool
guarded none = false
guarded (some g) = g.cfg.enabled
