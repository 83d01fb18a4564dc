-- ===== src/Pipeline/Banned.antt =====
-- What guard does with a banned client.
use ravenguard.Common.{◌≡◌, refl, Bool, true, false, some, bytes, Instant, if_then, arith, ap, ◌∙◌}
use ravenguard.Protect.Config.{size_ok, check_request_size}
use ravenguard.Protect.Guard.{Guard}
use ravenguard.Protect.Bans.{banned}
use ravenguard.RateLimit.Floats.{Arithmetic}
use ravenguard.Pipeline.{Settings, Facts, blocked, Edge}
use ravenguard.Pipeline.Serve.{set_prot, unless_banned, by_size, by_prot, guard}

module _ (s : Settings) (f : Facts) (now : Instant) (A : Arithmetic) where
  open A use {Num}

  unless_banned-banned :
      (e : Edge Num) (r : Guard × Bool)
      → r.1 ≡ true
      → unless_banned s f now A e r
        ≡ (set_prot s f now A e r.0, blocked (bytes "Temporarily banned"))
  unless_banned-banned e (g, true) h = refl
  unless_banned-banned e (g, false) h = ground (arith, h)

  by_prot-some :
      (e : Edge Num) (g : Guard)
      → g.cfg.enabled ≡ true
      → by_prot s f now A e (some g)
        ≡ by_size s f now A e g (check_request_size g.cfg f.path f.raw_query f.content_length)
  unfolding by_prot
  by_prot-some e g on = if_then g.cfg.enabled _ _ on

  -- A client that an enabled guard has banned, and whose request is within the size limits, is
  -- told so at once: no list, limiter or tracker is asked, and nothing but the guard's own record
  -- of its bans is changed, whatever else the request shows, the allow list included.
  pub guard-banned :
      (e : Edge Num) (g : Guard)
      → e.prot ≡ some g
      → g.cfg.enabled ≡ true
      → check_request_size g.cfg f.path f.raw_query f.content_length ≡ size_ok
      → (banned f.key now g).1 ≡ true
      → guard s f now A e
        ≡ (set_prot s f now A e (banned f.key now g).0, blocked (bytes "Temporarily banned"))
  unfolding guard
  guard-banned e g m on size ban =
      ap (by_prot s f now A e) m
      ∙ by_prot-some e g on
      ∙ ap (by_size s f now A e g) size
      ∙ unless_banned-banned e (banned f.key now g) ban
