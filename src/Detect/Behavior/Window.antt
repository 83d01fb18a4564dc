-- ===== src/Detect/Behavior/Window.antt =====
-- What a tracker answers about a client after a run of requests and strikes within one window.
use ravenguard.Common.{
  ℕ, suc, ◌+◌, ◌≤◌, ◌≡◌, refl, Bool, true, false, ◌&&◌, not, none, some, List, [], ◌∷◌, ◌++◌, arith,
  ltb, leb, Instant, since, Bytes, str_eq, str_eq_refl, Bool-cases, inl, inr, All, ◌∙◌,
}
use ravenguard.Common.Sharded
use ravenguard.Common.Sharded.{get-put}
use ravenguard.Detect.Behavior.{
  BehaviorConfig, BehEntry, BehaviorTracker, note_request, fresh_entry, entry_locked, entry_of,
  strike, strikes_exceeded, score, signals, signal, total, record_request, Reason,
}

-- What happens to one client.
pub data Event : Type 0 where
  request : (path raw_query method ua : Bytes) → Instant → Event
  struck : Instant → Event

abbrev pub time_of : Event → Instant
time_of (request path raw_query method ua now) = now
time_of (struck now) = now

unfoldable pub request_count : List Event → ℕ
request_count [] = 0
request_count (request path raw_query method ua now ∷ es) = suc (request_count es)
request_count (struck now ∷ es) = request_count es

unfoldable pub strike_count : List Event → ℕ
strike_count [] = 0
strike_count (request path raw_query method ua now ∷ es) = strike_count es
strike_count (struck now ∷ es) = suc (strike_count es)

abbrev EventsInWindow : ℕ → Instant → List Event → Type 0
EventsInWindow window first es = All (λ e. since (time_of e) first ≤ window) es

module _ (hot : Bytes → Bytes → Bool) where
  unfoldable pub happen : Bytes → Event → BehaviorTracker → BehaviorTracker
  happen key (request path raw_query method ua now) t =
      record_request hot key path raw_query method ua now t
  happen key (struck now) t = strike key now t

  unfoldable pub happen_all : Bytes → List Event → BehaviorTracker → BehaviorTracker
  happen_all key [] t = t
  happen_all key (e ∷ es) t = happen_all key es (happen key e t)

-- The counts of an entry, in a tracker with a given configuration.
record Counted (cfg : BehaviorConfig) (key : Bytes) (first : Instant) (reqs strikes : ℕ)
    (t : BehaviorTracker) : Type 0 where
  entry : BehEntry
  found : Sharded.get key t.ents ≡ some entry
  same_cfg : t.cfg ≡ cfg
  start : entry.start ≡ first
  reqs_are : entry.reqs ≡ reqs
  strikes_are : entry.strikes ≡ strikes

note_request-counts :
    (hot : Bool) (path method ua : Bytes) (e : BehEntry)
    → ((note_request hot path method ua e).start ≡ e.start)
      × ((note_request hot path method ua e).reqs ≡ e.reqs + 1)
      × ((note_request hot path method ua e).strikes ≡ e.strikes)
unfolding note_request
note_request-counts hot path method ua e = ground arith

entry-near :
    (cfg : BehaviorConfig) (now : Instant) (e : BehEntry)
    → since now e.start ≤ cfg.window
    → entry_locked cfg now (some e) ≡ e
unfolding entry_locked
entry-near cfg now e near = ground arith

module _ (hot : Bytes → Bytes → Bool) where
  request-Counted :
      (cfg : BehaviorConfig) (key : Bytes) (first : Instant) (path raw_query method ua : Bytes)
      (now : Instant) (t : BehaviorTracker) (e : BehEntry) (same : t.cfg ≡ cfg)
      → str_eq key [] ≡ false
      → entry_of key now t ≡ e
      → e.start ≡ first
      → Counted cfg key first
          (e.reqs + 1)
          e.strikes
          (record_request hot key path raw_query method ua now t)
  unfolding record_request
  request-Counted cfg key first path raw_query method ua now t e same ne is_e begins =
      let new = note_request (hot path raw_query) path method ua e in
      let counts = note_request-counts (hot path raw_query) path method ua e in
      rw (ne, is_e)
        (record {
          entry = new;
          found = rw (get-put key key new t.ents, str_eq_refl key);
          same_cfg = same;
          start = counts.0 ∙ begins;
          reqs_are = counts.1;
          strikes_are = counts.2;
        })

strike-Counted :
    (cfg : BehaviorConfig) (key : Bytes) (first now : Instant) (t : BehaviorTracker) (e : BehEntry)
    → t.cfg ≡ cfg
    → str_eq key [] ≡ false
    → entry_of key now t ≡ e
    → e.start ≡ first
    → Counted cfg key first e.reqs (e.strikes + 1) (strike key now t)
unfolding strike
strike-Counted cfg key first now t e same ne is_e begins =
    let new : BehEntry = record e { strikes = e.strikes + 1 } in
    rw (ne, is_e)
      (record {
        entry = new;
        found = rw (get-put key key new t.ents, str_eq_refl key);
        same_cfg = same;
        start = begins;
        reqs_are = refl;
        strikes_are = refl;
      })

retarget :
    (cfg : BehaviorConfig) (key : Bytes) (first : Instant) (m n m' n' : ℕ) (t : BehaviorTracker)
    → m ≡ m'
    → n ≡ n'
    → Counted cfg key first m n t
    → Counted cfg key first m' n' t
retarget cfg key first m n m' n' t p q c = record {
  entry = c.entry;
  found = c.found;
  same_cfg = c.same_cfg;
  start = c.start;
  reqs_are = c.reqs_are ∙ p;
  strikes_are = c.strikes_are ∙ q;
}

entry_of-Counted :
    (cfg : BehaviorConfig) (key : Bytes) (first now : Instant) (m n : ℕ) (t : BehaviorTracker)
    → since now first ≤ cfg.window
    → (c : Counted cfg key first m n t) → entry_of key now t ≡ c.entry
entry_of-Counted cfg key first now m n t near c =
    rw (c.found, c.same_cfg) (entry-near cfg now c.entry (rw c.start near))

total_first :
    (weight : ℕ) (reached : Bool) (reason : Reason) (rest : List (Reason × ℕ))
    → reached ≡ true
    → weight ≤ total (signal reached weight weight reason ++ rest)
unfolding total
total_first weight reached reason rest yes_reached = elim (Bool-cases (ltb 0 weight)) [
  | inl p ↦ rw (yes_reached, p) (omega arith)
  | inr p ↦ rw (yes_reached, p) (ground (arith, p))
]

burst-le-total :
    (cfg : BehaviorConfig) (e : BehEntry)
    → cfg.burst_limit ≤ e.reqs
    → cfg.burst_score ≤ total (signals cfg e)
unfolding signals
burst-le-total cfg e many =
    total_first cfg.burst_score (leb cfg.burst_limit e.reqs) Reason.burst _ (ground arith)

requests_add :
    (m : ℕ) (e : Event) (es : List Event)
    → m + request_count (e ∷ []) + request_count es ≡ m + request_count (e ∷ es)
unfolding request_count
requests_add m (request path raw_query method ua now) es = omega arith
requests_add m (struck now) es = omega arith

strikes_add :
    (m : ℕ) (e : Event) (es : List Event)
    → m + strike_count (e ∷ []) + strike_count es ≡ m + strike_count (e ∷ es)
unfolding strike_count
strikes_add m (request path raw_query method ua now) es = omega arith
strikes_add m (struck now) es = omega arith

zero_more : (n : ℕ) → 0 + n ≡ n
zero_more n = omega arith

module _ (hot : Bytes → Bytes → Bool) where
  -- One more event of a client whose entry is in its window.
  event-Counted :
      (cfg : BehaviorConfig) (key : Bytes) (first : Instant) (m n : ℕ) (ev : Event)
      (t : BehaviorTracker)
      → str_eq key [] ≡ false
      → since (time_of ev) first ≤ cfg.window
      → Counted cfg key first m n t
      → Counted cfg key first
          (m + request_count (ev ∷ []))
          (n + strike_count (ev ∷ []))
          (happen hot key ev t)
  unfolding happen request_count strike_count
  event-Counted cfg key first m n (request path raw_query method ua now) t ne near c =
      let is_e = entry_of-Counted cfg key first now m n t near c in
      retarget cfg key first _ _ _ _ _ (omega (arith, c.reqs_are)) (omega (arith, c.strikes_are)) (
        request-Counted hot cfg key first path raw_query method ua now t c.entry c.same_cfg ne is_e
          c.start)
  event-Counted cfg key first m n (struck now) t ne near c =
      let is_e = entry_of-Counted cfg key first now m n t near c in
      retarget cfg key first _ _ _ _ _ (omega (arith, c.reqs_are)) (omega (arith, c.strikes_are))
        (strike-Counted cfg key first now t c.entry c.same_cfg ne is_e c.start)

  -- The first event of a client with no entry.
  first-Counted :
      (key : Bytes) (ev : Event) (t : BehaviorTracker)
      → str_eq key [] ≡ false
      → Sharded.get key t.ents ≡ none
      → Counted t.cfg key
          (time_of ev)
          (request_count (ev ∷ []))
          (strike_count (ev ∷ []))
          (happen hot key ev t)
  unfolding happen request_count strike_count
  first-Counted key (request path raw_query method ua now) t ne new =
      request-Counted hot t.cfg key now path raw_query method ua now t (fresh_entry now) refl ne
        (rw new (unfold entry_locked in refl)) refl
  first-Counted key (struck now) t ne new =
      strike-Counted t.cfg key now now t (fresh_entry now) refl ne
        (rw new (unfold entry_locked in refl)) refl

  all-Counted :
      (cfg : BehaviorConfig) (key : Bytes) (first : Instant) (m n : ℕ) (es : List Event)
      (t : BehaviorTracker)
      → str_eq key [] ≡ false
      → EventsInWindow cfg.window first es
      → Counted cfg key first m n t
      → Counted cfg key first (m + request_count es) (n + strike_count es) (happen_all hot key es t)
  unfolding happen_all request_count strike_count
  all-Counted cfg key first m n [] t ne near c =
      retarget cfg key first m n _ _ t (omega arith) (omega arith) c
  all-Counted cfg key first m n (e ∷ es) t ne (here, near) c =
      retarget cfg key first _ _ _ _ _ (requests_add m e es) (strikes_add n e es) (
        all-Counted cfg key first (m + request_count (e ∷ [])) (n + strike_count (e ∷ [])) es
          (happen hot key e t) ne near (event-Counted cfg key first m n e t ne here c))

  -- A client with no entry, after its first event and others within the window that it opens.
  run-Counted :
      (key : Bytes) (e : Event) (es : List Event) (t : BehaviorTracker)
      → str_eq key [] ≡ false
      → Sharded.get key t.ents ≡ none
      → EventsInWindow t.cfg.window (time_of e) es
      → Counted t.cfg key
          (time_of e)
          (request_count (e ∷ es))
          (strike_count (e ∷ es))
          (happen_all hot key (e ∷ es) t)
  unfolding happen_all
  run-Counted key e es t ne new near =
      retarget t.cfg key (time_of e) _ _ _ _ _ (requests_add 0 e es ∙ zero_more _)
        (strikes_add 0 e es ∙ zero_more _)
        (all-Counted t.cfg key (time_of e) _ _ es (happen hot key e t) ne near (
          retarget t.cfg key (time_of e) _ _ _ _ _ (omega arith) (omega arith)
            (first-Counted key e t ne new)))

  -- A client with no entry that has some events within one window, the first of which opens it:
  -- StrikesExceeded answers yes exactly while the window lasts and if its strikes have reached
  -- the limit, whatever its requests.
  pub strikes_exceeded_after :
      (key : Bytes) (e : Event) (es : List Event) (now : Instant) (t : BehaviorTracker)
      → str_eq key [] ≡ false
      → Sharded.get key t.ents ≡ none
      → EventsInWindow t.cfg.window (time_of e) es
      → (strikes_exceeded key now (happen_all hot key (e ∷ es) t)).1
        ≡ not (ltb t.cfg.window (since now (time_of e)))
          && leb t.cfg.strike_limit (strike_count (e ∷ es))
  unfolding strikes_exceeded
  strikes_exceeded_after key e es now t ne new near =
      let c = run-Counted key e es t ne new near in
      rw (ne, c.found) (ground (arith, c.same_cfg, c.start, c.strikes_are))

  -- Such a client scores at least BurstScore while the window lasts, if its requests have reached
  -- the burst limit.
  pub score_burst :
      (key : Bytes) (e : Event) (es : List Event) (now : Instant) (t : BehaviorTracker)
      → str_eq key [] ≡ false
      → Sharded.get key t.ents ≡ none
      → EventsInWindow t.cfg.window (time_of e) es
      → since now (time_of e) ≤ t.cfg.window
      → t.cfg.burst_limit ≤ request_count (e ∷ es)
      → t.cfg.burst_score ≤ total (score key now (happen_all hot key (e ∷ es) t)).1
  unfolding score
  score_burst key e es now t ne new near here many =
      let c = run-Counted key e es t ne new near in
      let fires = burst-le-total t.cfg c.entry (rw c.reqs_are many) in
      rw (ne, c.found) (ground (arith, c.same_cfg, c.start, fires))
