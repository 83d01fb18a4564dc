-- ===== src/RequestLog/Counts.antt =====
-- The counters of outcomes: what TakeInterval hands out adds up to the totals.
use ravenguard.Common.{
  ℕ, ◌+◌, ◌≡◌, refl, Option, none, some, List, [], ◌∷◌, Bytes, str_eq, Instant, arith, if_both, ap,
  ◌∙◌, leb,
}
use ravenguard.Common.Dict
use ravenguard.RequestLog.{
  Event, Counters, no_counts, Logger, new, tallied, bump, claim, store, conflicts, record_known,
  record_event, take_interval,
}
use ravenguard.RequestLog.Newest.{stamped}

abbrev pub plus : Counters → Counters → Counters
plus a b = record {
  challenges = a.challenges + b.challenges;
  blocks = a.blocks + b.blocks;
  rate_limits = a.rate_limits + b.rate_limits;
  coraza = a.coraza + b.coraza;
  access = a.access + b.access;
  open_api = a.open_api + b.open_api;
  semantic = a.semantic + b.semantic;
  ml = a.ml + b.ml;
}

pub data LogOp : Type 0 where
  do_record : Instant → Event → LogOp
  do_take : LogOp

-- The logger after some operations, and the sum of the intervals handed out.
unfoldable pub run_all : List LogOp → Logger × Counters → Logger × Counters
run_all [] (l, taken) = (l, taken)
run_all (do_record now e ∷ ops) (l, taken) = run_all ops (record_event now e l, taken)
run_all (do_take ∷ ops) (l, taken) = let (l', c) = take_interval l in run_all ops (l', plus taken c)

abbrev IsBalanced : Logger × Counters → Type 0
IsBalanced (l, taken) = plus taken l.interval ≡ l.totals

plus_zero : (a : Counters) → plus a no_counts ≡ a
plus_zero a = ground arith

tallied-plus :
    (action : Bytes) (a b : Counters) → plus a (tallied action b) ≡ tallied action (plus a b)
unfolding tallied
tallied-plus action a b = ground arith

bump-IsBalanced :
    (action : Bytes) (l : Logger) (taken : Counters)
    → IsBalanced (l, taken)
    → IsBalanced (bump action l, taken)
unfolding bump
bump-IsBalanced action l taken h = tallied-plus action taken l.interval ∙ ap (tallied action) h

claim-IsBalanced :
    (id : Bytes) (l : Logger) (taken : Counters)
    → IsBalanced (l, taken)
    → IsBalanced (claim id l, taken)
unfolding claim
claim-IsBalanced id l taken h =
    if_both (λ (m : Logger). IsBalanced (m, taken)) (leb l.max_hot l.len) _ _ h h

record_known-IsBalanced :
    (e : Event) (l : Logger) (taken : Counters) (o : Option Event)
    → IsBalanced (l, taken)
    → IsBalanced (record_known e l o, taken)
unfolding record_known
record_known-IsBalanced e l taken none h =
    bump-IsBalanced e.action (store e (claim e.request_id l)) taken
      (claim-IsBalanced e.request_id l taken h)
record_known-IsBalanced e l taken (some prev) h =
    if_both (λ (m : Logger). IsBalanced (m, taken)) (conflicts prev e) _ _ h
      (bump-IsBalanced e.action (store e l) taken h)

record_event-IsBalanced :
    (now : Instant) (e : Event) (l : Logger) (taken : Counters)
    → IsBalanced (l, taken)
    → IsBalanced (record_event now e l, taken)
unfolding record_event
record_event-IsBalanced now e l taken h =
    if_both (λ (m : Logger). IsBalanced (m, taken)) (str_eq e.request_id []) _ _ h
      (record_known-IsBalanced (stamped now e) l taken (Dict.get e.request_id l.by_id) h)

take-IsBalanced :
    (l : Logger) (taken : Counters)
    → IsBalanced (l, taken)
    → IsBalanced ((take_interval l).0, plus taken (take_interval l).1)
unfolding take_interval
take-IsBalanced l taken h = plus_zero (plus taken l.interval) ∙ h

run_all-from :
    (ops : List LogOp) (l : Logger) (taken : Counters)
    → IsBalanced (l, taken)
    → IsBalanced (run_all ops (l, taken))
unfolding run_all
run_all-from [] l taken h = h
run_all-from (do_record now e ∷ ops) l taken h =
    run_all-from ops (record_event now e l) taken (record_event-IsBalanced now e l taken h)
run_all-from (do_take ∷ ops) l taken h =
    run_all-from ops (take_interval l).0 (plus taken (take_interval l).1)
      (take-IsBalanced l taken h)

-- Whatever is recorded on a new logger and whenever the interval is taken, for each outcome the
-- counts of all intervals taken and of the running one add up to the total.
pub run_all-balanced :
    (capacity : ℕ) (ops : List LogOp)
    → plus
        (run_all ops (new capacity, no_counts)).1
        (run_all ops (new capacity, no_counts)).0.interval
      ≡ (run_all ops (new capacity, no_counts)).0.totals
run_all-balanced capacity ops = run_all-from ops (new capacity) no_counts (unfold new in refl)
