-- ===== src/Protect/Interleaved/Kept.antt =====
-- What a step of a request keeps of the client counters, as long as the sweep does not run.
use ravenguard.Common.{
  ℕ, ◌+◌, ◌≤◌, ◌≡◌, false, none, some, List, [], ◌∷◌, arith, if◌then◌else◌, Bytes, str_eq,
  str_eq_iff, ap, sym, ◌∙◌, Bool-cases, inl, inr,
}
use ravenguard.Common.Int.{ℤ, pos}
use ravenguard.Common.Dict
use ravenguard.Protect.Config.{Config}
use ravenguard.Protect.Interleaved.{
  Shared, Stage, Request, load_or_store, set_counter, arriving, read, counted, located, over,
  undone, taken, vanished, passed, refused, leaving, found, gone,
}
use ravenguard.Protect.Interleaved.Counters.{
  counter_of, Apart, counter_of-at, counter_of-set, set-Apart, counter_of-new, new-Apart, new-found,
  new-grows,
}

-- Whether a request counts at the counter of its client.
unfoldable pub counts : Stage → ℕ
counts (over c) = 1
counts (taken c) = 1
counts (vanished c) = 1
counts passed = 1
counts leaving = 1
counts (found c) = 1
counts arriving = 0
counts (read cur) = 0
counts counted = 0
counts (located c) = 0
counts undone = 0
counts refused = 0
counts gone = 0

-- Whether it has been let in by the counter, and not begun with Release.
unfoldable pub admitted : Stage → ℕ
admitted (taken c) = 1
admitted (vanished c) = 1
admitted passed = 1
admitted (over c) = 0
admitted leaving = 0
admitted (found c) = 0
admitted arriving = 0
admitted (read cur) = 0
admitted counted = 0
admitted (located c) = 0
admitted undone = 0
admitted refused = 0
admitted gone = 0

unfoldable pub sum_of : (Stage → ℕ) → Bytes → List Request → ℕ
sum_of f k [] = 0
sum_of f k (r ∷ rs) = (if str_eq r.key k then f r.stage else 0) + sum_of f k rs

-- A request works on the counter that the map holds for its client.
abbrev pub Points : Shared → Bytes → Stage → Type 0
Points s key stage = elim stage [
  | located c ↦ Dict.get key s.clients ≡ some c
  | over c ↦ Dict.get key s.clients ≡ some c
  | taken c ↦ Dict.get key s.clients ≡ some c
  | found c ↦ Dict.get key s.clients ≡ some c
  | vanished c ↦ ⊥
  | arriving ↦ Unit
  | read cur ↦ Unit
  | counted ↦ Unit
  | undone ↦ Unit
  | passed ↦ Unit
  | refused ↦ Unit
  | leaving ↦ Unit
  | gone ↦ Unit
]

-- The counter of a client is what is counted there, and no more is let in than the limit says.
pub record Tally (cfg : Config) (k : Bytes) (s : Shared) (n m : ℕ) : Type 0 where
  pub exact : counter_of k s ≡ pos n
  pub bounded : m ≤ cfg.max_concurrent_client

abbrev pub share : (Stage → ℕ) → Bytes → Bytes → Stage → ℕ
share f key k stage = if str_eq key k then f stage else 0

-- What a step of a request keeps, beside other requests.
pub record Kept (cfg : Config) (key : Bytes) (stage : Stage) (s : Shared) (r : Shared × Stage)
    : Type 0 where
  pub apart : Apart r.0
  pub grows : (k : Bytes) (c : ℕ) → Dict.get k s.clients ≡ some c → Dict.get k r.0.clients ≡ some c
  pub points : Points r.0 key r.1
  pub tally :
      (k : Bytes) (n m : ℕ)
      → str_eq k [] ≡ false
      → m ≤ n
      → Tally cfg k s (share counts key k stage + n) (share admitted key k stage + m)
      → Tally cfg k r.0 (share counts key k r.1 + n) (share admitted key k r.1 + m)

-- A step that leaves the client counters alone.
pub stays-Kept :
    (cfg : Config) (key : Bytes) (stage next : Stage) (s : Shared) (g : ℤ)
    → Apart s
    → Points s key next
    → ((k : Bytes) → str_eq k [] ≡ false → share counts key k next ≡ share counts key k stage)
    → ((k : Bytes) → str_eq k [] ≡ false → share admitted key k next ≤ share admitted key k stage)
    → Kept cfg key stage s (record s { global = g }, next)
stays-Kept cfg key stage next s g a p same less = record {
  apart = record { made = a.made; apart = a.apart };
  grows = λ k c e. e;
  points = p;
  tally = λ k n m full le t. record {
    exact = t.exact ∙ ap (λ (x : ℕ). pos (x + n)) (sym (same k full));
    bounded = omega (arith, less k full, t.bounded);
  };
}

-- A step that changes the counter of its client.
pub set-Kept :
    (cfg : Config) (key : Bytes) (stage next : Stage) (c : ℕ) (v : ℤ) (s : Shared)
    → Apart s
    → Dict.get key s.clients ≡ some c
    → Points s key next
    → ((n m : ℕ)
        → m ≤ n
        → s.counters c ≡ pos (counts stage + n)
        → admitted stage + m ≤ cfg.max_concurrent_client
        → (v ≡ pos (counts next + n)) × (admitted next + m ≤ cfg.max_concurrent_client))
    → Kept cfg key stage s (set_counter c v s, next)
set-Kept cfg key stage next c v s a h p own = record {
  apart = set-Apart c v s a;
  grows = λ k d e. e;
  points = p;
  tally = λ k n m full le t. elim (Bool-cases (str_eq key k)) [
    | inl q ↦
        let same = (str_eq_iff key k).0 q in
        let here : Dict.get k s.clients ≡ some c = rw same at h in
        let known : s.counters c ≡ pos (counts stage + n) =
          sym (counter_of-at k c s here) ∙ (rw q at t.exact) in
        let (value, limit) = own n m le known (rw q at t.bounded) in
        record { exact = rw (counter_of-set key k c v s a h, q) value; bounded = rw q limit }
    | inr q ↦ record {
      exact = rw (counter_of-set key k c v s a h, q) (rw q at t.exact);
      bounded = rw q (rw q at t.bounded);
    }
  ];
}

pub new-Kept :
    (cfg : Config) (key : Bytes) (s : Shared)
    → Apart s
    → Dict.get key s.clients ≡ none
    → Kept cfg key counted s (load_or_store key none s)
unfolding load_or_store counts admitted
new-Kept cfg key s a h = record {
  apart = new-Apart key s a;
  grows = λ k c e. new-grows key k c s h e;
  points = new-found key s;
  tally = λ k n m full le t. record {
    exact = counter_of-new key k s a h ∙ t.exact;
    bounded = t.bounded;
  };
}
