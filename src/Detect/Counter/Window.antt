-- ===== src/Detect/Counter/Window.antt =====
-- When a client exceeds its limit.
use ravenguard.Common.{
  ℕ, ◌<◌, max_duration, ◌+◌, ◌-◌, ◌≤◌, ◌≡◌, ◌⊎◌, refl, Bool, false, ◌&&◌, not, Option, none, some,
  List, [], ◌∷◌, arith, ltb, leb, ◌==◌, if◌then◌else◌, Instant, since, Bytes, str_eq, str_eq_refl,
  All, ◌∙◌, inl, inr,
}
use ravenguard.Common.Sharded
use ravenguard.Common.Sharded.{get-put, get-keep, get-delete}
use ravenguard.Detect.Counter.{
  CountEntry, Tracker, exceeded, add_hit, expensive_status, record_penalty, record_not_found, sweep,
}

-- The answer of Exceeded.
abbrev pub is_exceeded : Bytes → Instant → Tracker → Bool
is_exceeded key now t = (exceeded key now t).1

abbrev pub over : Instant → Tracker → Option CountEntry → Bool
over now t none = false
over now t (some e) = not (ltb t.window (since now e.start)) && leb t.threshold e.count

pub is_exceeded-over :
    (key : Bytes) (now : Instant) (t : Tracker)
    → is_exceeded key now t ≡ (if str_eq key [] then false else over now t (Sharded.get key t.ents))
unfolding exceeded
is_exceeded-over key now t = ground arith

-- A response: its status and its time.
pub record Response : Type 0 where
  pub status : ℕ
  pub at : Instant

-- How a tracker takes a response of a client: PenaltyTracker.Record or NotFoundTracker.Record.
abbrev pub Recorder : Type 0
Recorder = Bytes → ℕ → Instant → Tracker → Tracker

unfoldable pub record_all : Recorder → Bytes → List Response → Tracker → Tracker
record_all rec key [] t = t
record_all rec key (r ∷ rs) t = record_all rec key rs (rec key r.status r.at t)

-- How many of the responses count, by the weight 0 or 1 of a status.
unfoldable pub count_of : (ℕ → ℕ) → List Response → ℕ
count_of weight [] = 0
count_of weight (r ∷ rs) = weight r.status + count_of weight rs

abbrev pub missing : ℕ → ℕ
missing status = if status == 404 then 1 else 0

abbrev InWindow : ℕ → Instant → List Response → Type 0
InWindow window first rs = All (λ r. since r.at first ≤ window) rs

abbrev Counts : Bytes → Tracker → Instant → ℕ → Type 0
Counts key t first n = Sharded.get key t.ents ≡ some (record { count = n; start = first })

add_hit-new :
    (key : Bytes) (now : Instant) (t : Tracker)
    → Sharded.get key t.ents ≡ none
    → Counts key (add_hit key now t) now 1
unfolding add_hit
add_hit-new key now t new = rw (get-put, str_eq_refl, new)

add_hit-next :
    (key : Bytes) (first now : Instant) (n : ℕ) (t : Tracker)
    → since now first ≤ t.window
    → Counts key t first n
    → Counts key (add_hit key now t) first (n + 1)
unfolding add_hit
add_hit-next key first now n t near e = rw (get-put, str_eq_refl, e) (ground arith)

-- A recorder takes the responses of a weight of 1 as hits, and no others.
record IsRecorder (rec : Recorder) (weight : ℕ → ℕ) : Type 0 where
  hit :
      (key : Bytes) (status : ℕ) (now : Instant) (t : Tracker)
      → str_eq key [] ≡ false
      → weight status ≡ 1
      → rec key status now t ≡ add_hit key now t
  pass :
      (key : Bytes) (status : ℕ) (now : Instant) (t : Tracker)
      → weight status ≡ 0
      → rec key status now t ≡ t
  binary : (status : ℕ) → (weight status ≡ 0) ⊎ (weight status ≡ 1)

penalty-IsRecorder : IsRecorder record_penalty expensive_status
unfolding record_penalty
penalty-IsRecorder = record {
  hit = λ key status now t ne one. rw (one, ne);
  pass = λ key status now t none_counts. rw none_counts;
  binary = λ status. unfold expensive_status in ground arith;
}

not_found-IsRecorder : IsRecorder record_not_found missing
unfolding record_not_found
not_found-IsRecorder = record {
  hit = λ key status now t ne one. ground arith;
  pass = λ key status now t none_counts. ground arith;
  binary = λ status. ground arith;
}

add_hit-window : (key : Bytes) (now : Instant) (t : Tracker) → (add_hit key now t).window ≡ t.window
unfolding add_hit
add_hit-window key now t = refl

add_hit-threshold :
    (key : Bytes) (now : Instant) (t : Tracker) → (add_hit key now t).threshold ≡ t.threshold
unfolding add_hit
add_hit-threshold key now t = refl

-- A tracker with the limits of another, that has counted n hits of the key since `first`.
record After (t : Tracker) (key : Bytes) (first : Instant) (n : ℕ) (t' : Tracker) : Type 0 where
  window : t'.window ≡ t.window
  threshold : t'.threshold ≡ t.threshold
  entry : Counts key t' first n

module _ (rec : Recorder) (weight : ℕ → ℕ) (is : IsRecorder rec weight) where
  After-all :
      (key : Bytes) (first : Instant) (n : ℕ) (rs : List Response) (t t' : Tracker)
      → str_eq key [] ≡ false
      → InWindow t.window first rs
      → After t key first n t'
      → After t key first (n + count_of weight rs) (record_all rec key rs t')
  unfolding record_all count_of
  After-all key first n [] t t' ne near a = let z : n + 0 ≡ n = omega arith in rw z a
  After-all key first n (r ∷ rs) t t' ne (here, near) a = elim (is.binary r.status) [
    | inl zero_weight ↦
        let z : n + (0 + count_of weight rs) ≡ n + count_of weight rs = omega arith in
        rw (zero_weight, is.pass key r.status r.at t' zero_weight, z)
          (After-all key first n rs t t' ne near a)
    | inr one_weight ↦
        let z : n + (1 + count_of weight rs) ≡ n + 1 + count_of weight rs = omega arith in
        rw (one_weight, is.hit key r.status r.at t' ne one_weight, z)
          (After-all key first (n + 1) rs t (add_hit key r.at t') ne near (record {
            window = add_hit-window key r.at t' ∙ a.window;
            threshold = add_hit-threshold key r.at t' ∙ a.threshold;
            entry = add_hit-next key first r.at n t' (rw a.window here) a.entry;
          }))
  ]

  exceeded_after :
      (key : Bytes) (first : Response) (rs : List Response) (now : Instant) (t : Tracker)
      → str_eq key [] ≡ false
      → Sharded.get key t.ents ≡ none
      → weight first.status ≡ 1
      → InWindow t.window first.at rs
      → is_exceeded key now (record_all rec key (first ∷ rs) t)
        ≡ not (ltb t.window (since now first.at)) && leb t.threshold (1 + count_of weight rs)
  unfolding record_all
  exceeded_after key first rs now t ne new one near =
      let a : After t key first.at (1 + count_of weight rs)
          (record_all rec key rs (rec key first.status first.at t)) =
        rw (is.hit key first.status first.at t ne one) (
          After-all key first.at 1 rs t (add_hit key first.at t) ne near (record {
            window = add_hit-window key first.at t;
            threshold = add_hit-threshold key first.at t;
            entry = add_hit-new key first.at t new;
          })) in
      rw (
        is_exceeded-over key now (record_all rec key rs (rec key first.status first.at t)),
        ne,
        a.entry,
        a.window,
        a.threshold,
      )

-- A client without an entry whose first response is expensive, and whose later responses come
-- within the window that it opens, exceeds the limit exactly while that window lasts, and from the
-- threshold of expensive responses on; the other responses do not count.
pub penalty_exceeded :
    (key : Bytes) (first : Response) (rs : List Response) (now : Instant) (t : Tracker)
    → str_eq key [] ≡ false
    → Sharded.get key t.ents ≡ none
    → expensive_status first.status ≡ 1
    → InWindow t.window first.at rs
    → is_exceeded key now (record_all record_penalty key (first ∷ rs) t)
      ≡ not (ltb t.window (since now first.at))
        && leb t.threshold (1 + count_of expensive_status rs)
penalty_exceeded = exceeded_after record_penalty expensive_status penalty-IsRecorder

-- The same of the tracker of missing pages, which counts the responses 404 only.
pub missing_exceeded :
    (key : Bytes) (first : Response) (rs : List Response) (now : Instant) (t : Tracker)
    → str_eq key [] ≡ false
    → Sharded.get key t.ents ≡ none
    → missing first.status ≡ 1
    → InWindow t.window first.at rs
    → is_exceeded key now (record_all record_not_found key (first ∷ rs) t)
      ≡ not (ltb t.window (since now first.at)) && leb t.threshold (1 + count_of missing rs)
missing_exceeded = exceeded_after record_not_found missing not_found-IsRecorder

-- A sweep by an age of at least the window changes no answer of Exceeded at the time of the sweep
-- or later.
pub sweep-exceeded :
    (key : Bytes) (now later : Instant) (age : ℕ) (t : Tracker)
    → t.window ≤ age
    → age < max_duration
    → now ≤ later
    → is_exceeded key later (sweep now age t) ≡ is_exceeded key later t
unfolding sweep
sweep-exceeded key now later age t enough fits le = ground (
  arith,
  is_exceeded-over key later t,
  is_exceeded-over key later (sweep now age t),
  get-keep (λ _ e. not (ltb e.start (now - age))) key t.ents,
)
