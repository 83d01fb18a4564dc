-- ===== src/Pipeline/Barred.antt =====
-- A request that a list, a trap, a WAF rule, the semantic analysis, the access policy or the schema
-- refuses is not proxied.
use ravenguard.Common.{
  ◌≡◌, refl, Bool, true, false, ◌&&◌, ◌||◌, not, Option, none, some, [], ◌∷◌, Instant, arith,
  Bool-cases, inl, inr, if_both,
}
use ravenguard.Protect.Config.{
  SizeVerdict, size_ok, url_too_large, body_too_large, check_request_size,
}
use ravenguard.Protect.Guard.{Guard}
use ravenguard.Protect.Bans.{banned}
use ravenguard.Protect.Slots.{acquire}
use ravenguard.RateLimit.Floats.{Arithmetic}
use ravenguard.Pipeline.{Settings, Facts, Outcome, Edge, Pass, in_order}
use ravenguard.Pipeline.Gates.{
  is_proxied, any_true, is_quiet, is_bar, in_order-quiet, in_order-bar, Gated-append,
}
use ravenguard.Pipeline.Order.{stops, front-Gated}
use ravenguard.Pipeline.Quiet.{admit-refused, back-Gated}
use ravenguard.Pipeline.Serve.{
  steps, back_steps, answered, inner, set_prot, after_release, with_slot, unless_banned, by_size,
  by_prot, guard,
}

-- What refuses a request before it is proxied.
abbrev pub refused_early : Facts → Bool
refused_early f = any_true (
    f.ip_blocked
    ∷ f.host_blocked
    ∷ f.ua_blocked
    ∷ f.shared_ip
    ∷ f.shared_host
    ∷ f.shared_ua
    ∷ f.shared_ja4
    ∷ f.feed_ip
    ∷ f.feed_domain
    ∷ f.trap
    ∷ not f.upstream_healthy
    ∷ f.coraza_block
    ∷ false
    ∷ (not f.allowed && not f.git_smart_http && stops f.semantic_stop)
    ∷ [])

abbrev pub refused_late : Facts → Bool
refused_late f = not f.access_ok || not f.schema_ok

module _ (s : Settings) (f : Facts) (now : Instant) (A : Arithmetic) where
  open A use {Num}

  pub answered-bar :
      (r : Pass Num × Option Outcome)
      → is_bar r ≡ true
      → is_proxied (answered s f now A r).1 ≡ false
  answered-bar (p, none) h = ground (arith, h)
  answered-bar (p, some o) h = ground (arith, h)

  answered-quiet :
      (r : Pass Num × Option Outcome)
      → refused_late f ≡ true
      → is_quiet r ≡ true
      → is_proxied (answered s f now A r).1 ≡ false
  answered-quiet (p, none) late h = admit-refused s f now p late
  answered-quiet (p, some o) late h = ground (arith, h)

  inner-barred :
      (e : Edge Num)
      → (refused_early f || refused_late f) ≡ true
      → is_proxied (inner s f now A e).1 ≡ false
  unfolding inner
  inner-barred e h =
      let start : Pass Num = record { edge = e; need_challenge = false; detect_score = 0 } in
      elim (Bool-cases (refused_early f)) [
        | inl early ↦
            answered-bar (in_order (steps s f now A) start)
              (in_order-bar (back_steps s f now A) (front-Gated s f now) early start)
        | inr fine ↦
            let late : refused_late f ≡ true = rw fine at h in
            let (ts, gates) = back-Gated s f now A late in
            answered-quiet (in_order (steps s f now A) start) late
              (in_order-quiet (Gated-append (front-Gated s f now) gates) start)
      ]

  released : (r : Edge Num × Outcome) → is_proxied (after_release s f now A r).1 ≡ is_proxied r.1
  released (e, o) = refl

  with_slot-barred :
      (e : Edge Num) (r : Guard × Bool)
      → (refused_early f || refused_late f) ≡ true
      → is_proxied (with_slot s f now A e r).1 ≡ false
  with_slot-barred e (g, true) h = inner-barred (set_prot s f now A e g) h
  with_slot-barred e (g, false) h = refl

  unless_banned-barred :
      (e : Edge Num) (r : Guard × Bool)
      → (refused_early f || refused_late f) ≡ true
      → is_proxied (unless_banned s f now A e r).1 ≡ false
  unless_banned-barred e (g, true) h = refl
  unless_banned-barred e (g, false) h = with_slot-barred e (acquire f.key g) h

  by_size-barred :
      (e : Edge Num) (g : Guard) (v : SizeVerdict)
      → (refused_early f || refused_late f) ≡ true
      → is_proxied (by_size s f now A e g v).1 ≡ false
  by_size-barred e g size_ok h = unless_banned-barred e (banned f.key now g) h
  by_size-barred e g url_too_large h = refl
  by_size-barred e g body_too_large h = refl

  by_prot-barred :
      (e : Edge Num) (prot : Option Guard)
      → (refused_early f || refused_late f) ≡ true
      → is_proxied (by_prot s f now A e prot).1 ≡ false
  unfolding by_prot
  by_prot-barred e none h = inner-barred e h
  by_prot-barred e (some g) h =
      if_both (λ r. is_proxied r.1 ≡ false) g.cfg.enabled
        (by_size s f now A e g (check_request_size g.cfg f.path f.raw_query f.content_length))
        (inner s f now A e)
        (by_size-barred e g (check_request_size g.cfg f.path f.raw_query f.content_length) h)
        (inner-barred e h)

  -- A request whose address, host or client is on a list, a shared block or a feed, that asks for
  -- a trap, whose upstream is down, that a WAF rule blocks, or that the access policy or the
  -- schema refuses, is not proxied, whatever the state of the limiters and trackers, and whether
  -- or not the client is on the allow list; neither is one that the semantic analysis stops, for a
  -- client that is not on the allow list and does not speak Git.
  pub guard-barred :
      (e : Edge Num)
      → (refused_early f || refused_late f) ≡ true
      → is_proxied (guard s f now A e).1 ≡ false
  unfolding guard
  guard-barred e h = by_prot-barred e e.prot h
