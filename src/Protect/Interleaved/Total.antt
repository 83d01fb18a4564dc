-- ===== src/Protect/Interleaved/Total.antt =====
-- The global limit, whatever the order of the steps.
use ravenguard.Common.{
  ℕ, zero, suc, ◌+◌, ◌≤◌, ◌≡◌, refl, Bool, true, false, List, [], ◌∷◌, ◌++◌, arith, if◌then◌else◌,
  Bytes, ap,
}
use ravenguard.Protect.Config.{Config}
use ravenguard.Protect.Interleaved.{
  Shared, Stage, Request, World, Event, advance, step_at, happen, run, start, sweep_step, Sweeper,
  resting, seen, idle, compare_and_delete, arriving, read, counted, located, over, undone, taken,
  vanished, passed, refused, leaving, found, gone, come, go, look, sweep_on,
}
use ravenguard.Protect.Interleaved.Owned.{owns, slots, Total, Total-as, advance-Total}

abbrev is_passed : Stage → Bool
is_passed stage = elim stage [
  | passed ↦ true
  | arriving ↦ false
  | read cur ↦ false
  | counted ↦ false
  | located c ↦ false
  | over c ↦ false
  | undone ↦ false
  | taken c ↦ false
  | vanished c ↦ false
  | refused ↦ false
  | leaving ↦ false
  | found c ↦ false
  | gone ↦ false
]

passed-owns : (stage : Stage) → (if is_passed stage then 1 else 0) ≤ owns stage
unfolding owns
passed-owns passed = omega arith
passed-owns arriving = omega arith
passed-owns (read cur) = omega arith
passed-owns counted = omega arith
passed-owns (located c) = omega arith
passed-owns (over c) = omega arith
passed-owns undone = omega arith
passed-owns (taken c) = omega arith
passed-owns (vanished c) = omega arith
passed-owns refused = omega arith
passed-owns leaving = omega arith
passed-owns (found c) = omega arith
passed-owns gone = omega arith

step_at-Total :
    (cfg : Config) (i : ℕ) (rs : List Request) (rest : ℕ) (s : Shared)
    → Total cfg (rest + slots rs) s
    → Total cfg (rest + slots (step_at cfg i rs s).1) (step_at cfg i rs s).0
unfolding step_at slots
step_at-Total cfg i [] rest s t = t
step_at-Total cfg zero (r ∷ rs) rest s t =
    let step =
      advance-Total cfg r.key r.stage (rest + slots rs) s
        (Total-as cfg _ _ s s (omega arith) refl t) in
    Total-as cfg _ _ (advance cfg r.key r.stage s).0 _ (omega arith) refl step
step_at-Total cfg (suc i) (r ∷ rs) rest s t =
    let step =
      step_at-Total cfg i rs (rest + owns r.stage) s (Total-as cfg _ _ s s (omega arith) refl t) in
    Total-as cfg _ _ (step_at cfg i rs s).0 _ (omega arith) refl step

slots-come :
    (rs : List Request) (key : Bytes)
    → slots rs ≡ slots (rs ++ record { key = key; stage = arriving } ∷ [])
unfolding slots owns
slots-come [] key = refl
slots-come (r ∷ rs) key = ap (λ n. owns r.stage + n) (slots-come rs key)

sweep-global : (w : Sweeper) (s : Shared) → (sweep_step w s).0.global ≡ s.global
unfolding sweep_step compare_and_delete
sweep-global resting s = refl
sweep-global (seen key c) s = refl
sweep-global (idle key c) s = ground arith

happen-Total :
    (cfg : Config) (e : Event) (w : World)
    → Total cfg (slots w.requests) w.shared
    → Total cfg (slots (happen cfg e w).requests) (happen cfg e w).shared
unfolding happen
happen-Total cfg (come key) w t =
    Total-as cfg _ _ w.shared w.shared (slots-come w.requests key) refl t
happen-Total cfg (go i) w t =
    let step =
      step_at-Total cfg i w.requests 0 w.shared
        (Total-as cfg _ _ w.shared w.shared (omega arith) refl t) in
    Total-as cfg _ _ (step_at cfg i w.requests w.shared).0 _ (omega arith) refl step
happen-Total cfg (look key) w t = t
happen-Total cfg sweep_on w t = Total-as cfg _ _ w.shared _ refl (sweep-global w.sweeper w.shared) t

run-Total_from :
    (cfg : Config) (es : List Event) (w : World)
    → Total cfg (slots w.requests) w.shared
    → Total cfg (slots (run cfg es w).requests) (run cfg es w).shared
unfolding run
run-Total_from cfg [] w t = t
run-Total_from cfg (e ∷ es) w t = run-Total_from cfg es (happen cfg e w) (happen-Total cfg e w t)

-- The requests that Acquire has let in and that have not begun with Release.
unfoldable pub served : List Request → ℕ
served [] = 0
served (r ∷ rs) = (if is_passed r.stage then 1 else 0) + served rs

served-le : (rs : List Request) → served rs ≤ slots rs
unfolding served slots
served-le [] = omega arith
served-le (r ∷ rs) = omega (arith, passed-owns r.stage, served-le rs)

-- Whatever the requests of an enabled guard do at the same time, and in whatever order their atomic
-- operations and those of the sweep come: the global counter is the number of the requests that
-- have a slot, no more have one than the global limit says, and so no more are served.
pub run-Total :
    (cfg : Config) (es : List Event)
    → Total cfg (slots (run cfg es start).requests) (run cfg es start).shared
      × (served (run cfg es start).requests ≤ cfg.max_concurrent_global)
unfolding slots
run-Total cfg es =
    let t = run-Total_from cfg es start (record { counts = refl; bounded = omega arith }) in
    (t, omega (arith, t.bounded, served-le (run cfg es start).requests))
