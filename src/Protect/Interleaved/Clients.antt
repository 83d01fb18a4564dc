-- ===== src/Protect/Interleaved/Clients.antt =====
-- The limit of a client as long as the sweep does not run, whatever the order of the steps.
use ravenguard.Common.{
  ℕ, zero, suc, ◌+◌, ◌≤◌, ◌≡◌, refl, false, none, some, List, [], ◌∷◌, ◌++◌, arith, if◌then◌else◌,
  Bytes, str_eq, ap, ◌∙◌,
}
use ravenguard.Common.Int.{pos}
use ravenguard.Common.Dict
use ravenguard.Common.Dict.{get-nil}
use ravenguard.Protect.Config.{Config}
use ravenguard.Protect.Interleaved.{
  Shared, Stage, Request, World, Event, advance, step_at, happen, run, start, arriving, read,
  counted, located, over, undone, taken, vanished, passed, refused, leaving, found, gone, come, go,
  look, sweep_on,
}
use ravenguard.Protect.Interleaved.Counters.{counter_of-none, Apart}
use ravenguard.Protect.Interleaved.Kept.{counts, admitted, sum_of, share, Points, Tally}
use ravenguard.Protect.Interleaved.Advance.{advance-Kept}

-- Events without the sweep.
abbrev pub Unswept : List Event → Type 0
Unswept [] = Unit
Unswept (come key ∷ es) = Unswept es
Unswept (go i ∷ es) = Unswept es
Unswept (look key ∷ es) = ⊥
Unswept (sweep_on ∷ es) = ⊥

abbrev Pointing : Shared → List Request → Type 0
Pointing s [] = Unit
Pointing s (r ∷ rs) = Points s r.key r.stage × Pointing s rs

abbrev Grows : Shared → Shared → Type 0
Grows s s' = (k : Bytes) (c : ℕ) → Dict.get k s.clients ≡ some c → Dict.get k s'.clients ≡ some c

Points-grows :
    (s s' : Shared) (key : Bytes) (stage : Stage)
    → Grows s s'
    → Points s key stage
    → Points s' key stage
Points-grows s s' key (located c) g p = g key c p
Points-grows s s' key (over c) g p = g key c p
Points-grows s s' key (taken c) g p = g key c p
Points-grows s s' key (found c) g p = g key c p
Points-grows s s' key (vanished c) g p = p
Points-grows s s' key arriving g p = p
Points-grows s s' key (read cur) g p = p
Points-grows s s' key counted g p = p
Points-grows s s' key undone g p = p
Points-grows s s' key passed g p = p
Points-grows s s' key refused g p = p
Points-grows s s' key leaving g p = p
Points-grows s s' key gone g p = p

Pointing-grows : (s s' : Shared) (rs : List Request) → Grows s s' → Pointing s rs → Pointing s' rs
Pointing-grows s s' [] g p = p
Pointing-grows s s' (r ∷ rs) g (p, ps) =
    (Points-grows s s' r.key r.stage g p, Pointing-grows s s' rs g ps)

Tally-as :
    (cfg : Config) (k : Bytes) (s : Shared) (n n' m m' : ℕ)
    → n ≡ n'
    → m ≡ m'
    → Tally cfg k s n m
    → Tally cfg k s n' m'
Tally-as cfg k s n n' m m' e f t = record {
  exact = t.exact ∙ ap pos e;
  bounded = omega (arith, f, t.bounded);
}

admitted-le : (stage : Stage) → admitted stage ≤ counts stage
unfolding admitted counts
admitted-le (located c) = omega arith
admitted-le (over c) = omega arith
admitted-le (taken c) = omega arith
admitted-le (found c) = omega arith
admitted-le (vanished c) = omega arith
admitted-le arriving = omega arith
admitted-le (read cur) = omega arith
admitted-le counted = omega arith
admitted-le undone = omega arith
admitted-le passed = omega arith
admitted-le refused = omega arith
admitted-le leaving = omega arith
admitted-le gone = omega arith

share-le : (key k : Bytes) (stage : Stage) → share admitted key k stage ≤ share counts key k stage
share-le key k stage = ground (arith, admitted-le stage)

sum-le : (k : Bytes) (rs : List Request) → sum_of admitted k rs ≤ sum_of counts k rs
unfolding sum_of
sum-le k [] = omega arith
sum-le k (r ∷ rs) = omega (arith, share-le r.key k r.stage, sum-le k rs)

-- What the step of one of the requests keeps, beside others.
record Stepped (cfg : Config) (s : Shared) (rs : List Request) (t : Shared × List Request)
    : Type 0 where
  apart : Apart t.0
  grows : Grows s t.0
  points : Pointing t.0 t.1
  tally :
      (k : Bytes) (n m : ℕ)
      → str_eq k [] ≡ false
      → m ≤ n
      → Tally cfg k s (sum_of counts k rs + n) (sum_of admitted k rs + m)
      → Tally cfg k t.0 (sum_of counts k t.1 + n) (sum_of admitted k t.1 + m)

step_at-Stepped :
    (cfg : Config) (i : ℕ) (rs : List Request) (s : Shared)
    → Apart s
    → Pointing s rs
    → Stepped cfg s rs (step_at cfg i rs s)
unfolding step_at sum_of
step_at-Stepped cfg i [] s a p = record {
  apart = a;
  grows = λ k c e. e;
  points = p;
  tally = λ k n m full le t. t;
}
step_at-Stepped cfg zero (r ∷ rs) s a (p, ps) =
    let step = advance-Kept cfg r.key r.stage s a p in
    record {
      apart = step.apart;
      grows = step.grows;
      points = (step.points, Pointing-grows s (advance cfg r.key r.stage s).0 rs step.grows ps);
      tally = λ k n m full le t. Tally-as cfg k _ _ _ _ _ (omega arith) (omega arith) (
          step.tally k (sum_of counts k rs + n) (sum_of admitted k rs + m) full
            (omega (arith, sum-le k rs)) (Tally-as cfg k s _ _ _ _ (omega arith) (omega arith) t));
    }
step_at-Stepped cfg (suc i) (r ∷ rs) s a (p, ps) =
    let step = step_at-Stepped cfg i rs s a ps in
    record {
      apart = step.apart;
      grows = step.grows;
      points = (Points-grows s (step_at cfg i rs s).0 r.key r.stage step.grows p, step.points);
      tally = λ k n m full le t. Tally-as cfg k _ _ _ _ _ (omega arith) (omega arith) (
          step.tally k (share counts r.key k r.stage + n) (share admitted r.key k r.stage + m) full
            (omega (arith, share-le r.key k r.stage))
            (Tally-as cfg k s _ _ _ _ (omega arith) (omega arith) t));
    }

-- What holds between two events.
record Sound (cfg : Config) (w : World) : Type 0 where
  apart : Apart w.shared
  points : Pointing w.shared w.requests
  tally :
      (k : Bytes)
      → str_eq k [] ≡ false
      → Tally cfg k w.shared (sum_of counts k w.requests) (sum_of admitted k w.requests)

Pointing-come :
    (s : Shared) (rs : List Request) (key : Bytes)
    → Pointing s rs
    → Pointing s (rs ++ record { key = key; stage = arriving } ∷ [])
Pointing-come s [] key p = (tt, tt)
Pointing-come s (r ∷ rs) key (p, ps) = (p, Pointing-come s rs key ps)

sum-come :
    (f : Stage → ℕ) (k : Bytes) (rs : List Request) (key : Bytes)
    → f arriving ≡ 0
    → sum_of f k rs ≡ sum_of f k (rs ++ record { key = key; stage = arriving } ∷ [])
unfolding sum_of
sum-come f k [] key e = ground (arith, e)
sum-come f k (r ∷ rs) key e =
    ap (λ (n : ℕ). (if str_eq r.key k then f r.stage else 0) + n) (sum-come f k rs key e)

come-Sound :
    (cfg : Config) (key : Bytes) (w : World) → Sound cfg w → Sound cfg (happen cfg (come key) w)
unfolding happen counts admitted
come-Sound cfg key w h = record {
  apart = h.apart;
  points = Pointing-come w.shared w.requests key h.points;
  tally = λ k full.
      Tally-as cfg k w.shared _ _ _ _ (sum-come counts k w.requests key refl)
        (sum-come admitted k w.requests key refl) (h.tally k full);
}

go-Sound : (cfg : Config) (i : ℕ) (w : World) → Sound cfg w → Sound cfg (happen cfg (go i) w)
unfolding happen
go-Sound cfg i w h =
    let step = step_at-Stepped cfg i w.requests w.shared h.apart h.points in
    record {
      apart = step.apart;
      points = step.points;
      tally = λ k full. Tally-as cfg k _ _ _ _ _ (omega arith) (omega arith) (
          step.tally k 0 0 full (omega arith)
            (Tally-as cfg k w.shared _ _ _ _ (omega arith) (omega arith) (h.tally k full)));
    }

run-Sound :
    (cfg : Config) (es : List Event) (w : World)
    → Unswept es
    → Sound cfg w
    → Sound cfg (run cfg es w)
unfolding run
run-Sound cfg [] w u h = h
run-Sound cfg (come key ∷ es) w u h =
    run-Sound cfg es (happen cfg (come key) w) u (come-Sound cfg key w h)
run-Sound cfg (go i ∷ es) w u h = run-Sound cfg es (happen cfg (go i) w) u (go-Sound cfg i w h)
run-Sound cfg (look key ∷ es) w u h = elim u [ ]
run-Sound cfg (sweep_on ∷ es) w u h = elim u [ ]

nothing_there : {B : Type 0} (k : Bytes) (c : ℕ) → Dict.get k start.shared.clients ≡ some c → B
nothing_there k c e =
    let nothing : Dict.get k start.shared.clients ≡ none = get-nil k in cc (nothing, e)

start-Sound : (cfg : Config) → Sound cfg start
unfolding sum_of
start-Sound cfg = record {
  apart = record { made = λ k c e. nothing_there k c e; apart = λ j k c e f. nothing_there j c e };
  points = tt;
  tally = λ k full. record {
    exact = counter_of-none k start.shared (get-nil k);
    bounded = omega arith;
  };
}

-- As long as the sweep does not run, and whatever the order of the atomic operations of the
-- requests of an enabled guard: the counter of a client with a key is the number of its requests
-- that have added to it and not taken back, and no more of them are let in at once than the limit
-- of a client says.
pub run-Tally :
    (cfg : Config) (es : List Event)
    → Unswept es
    → (k : Bytes) → str_eq k [] ≡ false
    → Tally cfg k
        (run cfg es start).shared
        (sum_of counts k (run cfg es start).requests)
        (sum_of admitted k (run cfg es start).requests)
run-Tally cfg es u k full = (run-Sound cfg es start u (start-Sound cfg)).tally k full
