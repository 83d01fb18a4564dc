-- ===== src/Detect/Score/Reasons.antt =====
-- internal/detect/detect.go: the score against the reasons that ScoreDebug gives.
use ravenguard.Common.{
  ℕ, suc, ◌+◌, ◌≤◌, ◌≡◌, refl, ap, Bool, true, false, not, List, [], ◌∷◌, ◌++◌, ◌==◌, if◌then◌else◌,
  Bytes, arith,
}
use ravenguard.Detect.Paths.{is_write_method}
use ravenguard.Detect.Requests.{Request, looks_browser_bytes, is_git_smart_http}
use ravenguard.Detect.Score.{
  Config, Reason, Result, signal, score, score_agent, score_form_spam, score_browser, score_target,
  score_proxy_signals, ai_points, git_ua_on_non_smart_path, missing_ua, scanner, ai, ua_anomaly,
  missing_accept, missing_accept_lang, missing_accept_encoding, missing_fetch, sec_ch_ua_mismatch,
  sec_ch_ua_non_chromium, http10_browser, missing_upgrade_insecure, missing_content_type,
  star_accept_browser, empty_form_context, forum_write_page, sni_mismatch, odd_method, probe_path,
  forge_expensive, proxy_bot_score,
}

-- What a reason is worth in the configuration.
abbrev pub worth : Config → Reason → ℕ
worth cfg git_ua_on_non_smart_path = cfg.scanner_ua_score
worth cfg missing_ua = cfg.missing_ua_score
worth cfg scanner = cfg.scanner_ua_score
worth cfg ai = ai_points cfg
worth cfg ua_anomaly = cfg.long_ua_score
worth cfg missing_accept = cfg.missing_accept_score
worth cfg missing_accept_lang = cfg.missing_accept_lang_score
worth cfg missing_accept_encoding = cfg.missing_accept_enc_score
worth cfg missing_fetch = cfg.missing_sec_fetch_score
worth cfg sec_ch_ua_mismatch = cfg.sec_ch_ua_mismatch_score
worth cfg sec_ch_ua_non_chromium = cfg.sec_ch_ua_non_chromium_score
worth cfg http10_browser = cfg.http10_browser_score
worth cfg missing_upgrade_insecure = cfg.missing_uir_score
worth cfg missing_content_type = cfg.missing_content_type_score
worth cfg star_accept_browser = cfg.star_accept_browser_score
worth cfg empty_form_context = cfg.empty_form_context_score
worth cfg forum_write_page = cfg.forum_write_path_score
worth cfg sni_mismatch = cfg.sni_host_mismatch_score
worth cfg odd_method = cfg.odd_method_score
worth cfg probe_path = cfg.probe_path_score
worth cfg forge_expensive = cfg.forge_expensive_score
worth cfg proxy_bot_score = cfg.proxy_bot_low_score

abbrev pub sum_worth : Config → List Reason → ℕ
sum_worth cfg [] = 0
sum_worth cfg (x ∷ xs) = worth cfg x + sum_worth cfg xs

-- The places of the reasons in the order of the code.
abbrev place : Reason → ℕ
place git_ua_on_non_smart_path = 0
place missing_ua = 1
place scanner = 2
place ai = 3
place ua_anomaly = 4
place missing_accept = 5
place missing_accept_lang = 6
place missing_accept_encoding = 7
place missing_fetch = 8
place sec_ch_ua_mismatch = 9
place sec_ch_ua_non_chromium = 10
place http10_browser = 11
place missing_upgrade_insecure = 12
place missing_content_type = 13
place star_accept_browser = 14
place empty_form_context = 15
place forum_write_page = 16
place sni_mismatch = 17
place odd_method = 18
place probe_path = 19
place forge_expensive = 20
place proxy_bot_score = 21

-- In the order of the code, each at most once, from one place up to another.
abbrev pub Rising : ℕ → ℕ → List Reason → Type 0
Rising lo hi [] = lo ≤ hi
Rising lo hi (x ∷ xs) = (lo ≤ place x) × Rising (suc (place x)) hi xs

Rising-wider : (lo hi hi' : ℕ) (xs : List Reason) → hi ≤ hi' → Rising lo hi xs → Rising lo hi' xs
Rising-wider lo hi hi' [] le h = omega (arith, le, h)
Rising-wider lo hi hi' (x ∷ xs) le (here, h) = (here, Rising-wider (suc (place x)) hi hi' xs le h)

Rising-append :
    (lo hi : ℕ) (xs : List Reason) (x : Reason)
    → hi ≤ place x
    → Rising lo hi xs
    → Rising lo (suc (place x)) (xs ++ x ∷ [])
Rising-append lo hi [] x le h = (omega (arith, le, h), omega arith)
Rising-append lo hi (y ∷ xs) x le (here, h) = (here, Rising-append (suc (place y)) hi xs x le h)

module _ (cfg : Config) where
  sum_worth-append :
      (xs : List Reason) (x : Reason)
      → sum_worth cfg (xs ++ x ∷ []) ≡ sum_worth cfg xs + worth cfg x
  sum_worth-append [] x = omega arith
  sum_worth-append (y ∷ xs) x = omega (arith, sum_worth-append xs x)

  -- A run without reasons beside one with them.
  record Agrees (k : ℕ) (quiet loud : Result) : Type 0 where
    same : quiet.score ≡ loud.score
    silent : quiet.reasons ≡ []
    summed : loud.score ≡ sum_worth cfg loud.reasons
    rising : Rising 0 k loud.reasons

  signal-Agrees :
      (test : Bool) (x : Reason) (k : ℕ) (quiet loud : Result)
      → k ≤ place x
      → Agrees k quiet loud
      → Agrees
          (suc (place x))
          (signal false test x (worth cfg x) quiet)
          (signal true test x (worth cfg x) loud)
  unfolding signal
  signal-Agrees true x k quiet loud le h = record {
    same = ap (λ (n : ℕ). n + worth cfg x) h.same;
    silent = h.silent;
    summed = omega (arith, h.summed, sum_worth-append loud.reasons x);
    rising = Rising-append 0 k loud.reasons x le h.rising;
  }
  signal-Agrees false x k quiet loud le h = record {
    same = h.same;
    silent = h.silent;
    summed = h.summed;
    rising = Rising-wider 0 k (suc (place x)) loud.reasons (omega (arith, le)) h.rising;
  }

  module _ (found : List Bytes → Bytes → Bool) (r : Request) where
    agent-Agrees :
        (quiet loud : Result)
        → Agrees 0 quiet loud
        → Agrees 6 (score_agent found r cfg false quiet) (score_agent found r cfg true loud)
    unfolding score_agent
    agent-Agrees quiet loud h = signal-Agrees _ missing_accept 5 _ _ (omega arith) (
        signal-Agrees _ ua_anomaly 4 _ _ (omega arith) (
          signal-Agrees _ ai 3 _ _ (omega arith) (
            signal-Agrees _ scanner 2 _ _ (omega arith) (
              signal-Agrees _ missing_ua 1 _ _ (omega arith)
                (signal-Agrees _ git_ua_on_non_smart_path 0 _ _ (omega arith) h)))))

    Agrees-wider :
        (k k' : ℕ) (quiet loud : Result) → k ≤ k' → Agrees k quiet loud → Agrees k' quiet loud
    Agrees-wider k k' quiet loud le h = record {
      same = h.same;
      silent = h.silent;
      summed = h.summed;
      rising = Rising-wider 0 k k' loud.reasons le h.rising;
    }

    -- Both runs take the same branch.
    branch-Agrees :
        (k : ℕ) (test : Bool) (q q' l l' : Result)
        → Agrees k q l
        → Agrees k q' l'
        → Agrees k (if test then q else q') (if test then l else l')
    branch-Agrees k true q q' l l' h h' = h
    branch-Agrees k false q q' l l' h h' = h'

    form_spam-Agrees :
        (quiet loud : Result)
        → Agrees 15 quiet loud
        → Agrees 17
            (score_form_spam found r cfg false quiet)
            (score_form_spam found r cfg true loud)
    unfolding score_form_spam
    form_spam-Agrees quiet loud h =
        branch-Agrees 17 (not (is_write_method r.method)) _ _ _ _
          (Agrees-wider 15 17 quiet loud (omega arith) h)
          (signal-Agrees _ forum_write_page 16 _ _ (omega arith)
            (signal-Agrees _ empty_form_context 15 _ _ (omega arith) h))

    browser-Agrees :
        (quiet loud : Result)
        → Agrees 6 quiet loud
        → Agrees 17 (score_browser found r cfg false quiet) (score_browser found r cfg true loud)
    unfolding score_browser
    browser-Agrees quiet loud h = form_spam-Agrees _ _ (
        signal-Agrees _ star_accept_browser 14 _ _ (omega arith) (
          signal-Agrees _ missing_content_type 13 _ _ (omega arith) (
            signal-Agrees _ missing_upgrade_insecure 12 _ _ (omega arith) (
              signal-Agrees _ http10_browser 11 _ _ (omega arith) (
                signal-Agrees _ sec_ch_ua_non_chromium 10 _ _ (omega arith) (
                  signal-Agrees _ sec_ch_ua_mismatch 9 _ _ (omega arith) (
                    signal-Agrees _ missing_fetch 8 _ _ (omega arith) (
                      signal-Agrees _ missing_accept_encoding 7 _ _ (omega arith)
                        (signal-Agrees _ missing_accept_lang 6 _ _ (omega arith) h)))))))))

    target-Agrees :
        (quiet loud : Result)
        → Agrees 17 quiet loud
        → Agrees 21 (score_target found r cfg false quiet) (score_target found r cfg true loud)
    unfolding score_target
    target-Agrees quiet loud h = signal-Agrees _ forge_expensive 20 _ _ (omega arith) (
        signal-Agrees _ probe_path 19 _ _ (omega arith) (
          signal-Agrees _ odd_method 18 _ _ (omega arith)
            (signal-Agrees _ sni_mismatch 17 _ _ (omega arith) h)))

    proxy-Agrees :
        (quiet loud : Result)
        → Agrees 21 quiet loud
        → Agrees 22
            (score_proxy_signals found r cfg false quiet)
            (score_proxy_signals found r cfg true loud)
    unfolding score_proxy_signals
    proxy-Agrees quiet loud h =
        branch-Agrees 22 (cfg.proxy_bot_low_score == 0) _ _ _ _
          (Agrees-wider 21 22 quiet loud (omega arith) h)
          (branch-Agrees 22 _ _ _ _ _ (signal-Agrees true proxy_bot_score 21 _ _ (omega arith) h)
            (signal-Agrees _ proxy_bot_score 21 _ _ (omega arith) h))

    score-Agrees : Agrees 22 (score found r cfg false) (score found r cfg true)
    unfolding score
    score-Agrees =
        let nothing : Result = record { score = 0; reasons = [] } in
        let begin : Agrees 0 nothing nothing = record {
          same = refl;
          silent = refl;
          summed = omega arith;
          rising = omega arith;
        } in
        let agent = agent-Agrees nothing nothing begin in
        let browser =
          branch-Agrees 17 (looks_browser_bytes _) _ _ _ _ (browser-Agrees _ _ agent)
            (Agrees-wider 6 17 _ _ (omega arith) agent) in
        branch-Agrees 22 (is_git_smart_http r) _ _ _ _
          (Agrees-wider 0 22 nothing nothing (omega arith) begin)
          (proxy-Agrees _ _ (target-Agrees _ _ browser))

-- Score and ScoreDebug give the same score, Score without reasons; the score is the sum of what the
-- reasons of ScoreDebug are worth in the configuration, and these stand in the order of the code,
-- each at most once. That is so for every request and configuration.
pub score_reasons :
    (found : List Bytes → Bytes → Bool) (r : Request) (cfg : Config)
    → ((score found r cfg false).score ≡ (score found r cfg true).score)
      × ((score found r cfg false).reasons ≡ [])
      × ((score found r cfg true).score ≡ sum_worth cfg (score found r cfg true).reasons)
      × Rising 0 22 (score found r cfg true).reasons
score_reasons found r cfg =
    let h = score-Agrees cfg found r in (h.same, h.silent, h.summed, h.rising)
