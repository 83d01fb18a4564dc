-- ===== src/RateLimit/Tests.antt =====
-- The limiter at concrete inputs, in billionths of a token.
use ravenguard.Common.{ℕ, ◌*◌, ◌≡◌, refl, true, false, List, [], ◌∷◌, arith, Bytes, bytes, Instant}
use ravenguard.Common.Sharded
use ravenguard.Common.Dict
use ravenguard.RateLimit.Floats.{nano, nano-IsExact}
use ravenguard.RateLimit.{
  Limiter, new, allow_n, bucket_allow, refill_allow, refilled, sweep, update, active_buckets,
}
use ravenguard.RateLimit.Refill.{AtMost, earned}
use ravenguard.RateLimit.Bound.{Call, granted, granted_bound}
use ravenguard.RateLimit.Restored.{after, last_call, waited_call}

runs : Unit {0}
unfolding new allow_n bucket_allow refill_allow refilled granted sweep Sharded.get Sharded.put
    Sharded.keep Dict.keep Dict.get Dict.put update active_buckets
runs = tt

-- Two requests a second, with a burst of three and a bucket for each path.
abbrev limiter : Limiter ℕ
limiter = new nano 2 3 1000000000 true

abbrev a : Bytes
a = bytes "a"

abbrev ask : Instant → Call
ask t = record { ip = a; path = bytes "/x"; cost = 2; at = t }

abbrev calls : List Call
calls = ask 5000000000 ∷ ask 5000000000 ∷ ask 5500000000 ∷ ask 5500000000 ∷ []

four_granted : granted nano a calls limiter ≡ 4
unfolding runs
four_granted = refl

-- An idle client is swept, a recent one stays.
swept : active_buckets (sweep 9000000000 1000000000 (allow_n nano a [] 1 5000000000 limiter).0) ≡ 0
unfolding runs
swept = refl

granted_bound_example :
    AtMost nano nano-IsExact
      (granted nano a calls limiter * 1000000000)
      (earned nano nano-IsExact 2 3000000000 5000000000 5500000000)
unfolding runs
granted_bound_example =
    granted_bound nano nano-IsExact a calls limiter 5000000000 (omega arith) refl

-- The client has spent its burst, and waits for a second and a half.
abbrev other : Call
other = record { ip = bytes "b"; path = bytes "/x"; cost = 1; at = 6000000000 }

waited_call_example :
    (allow_n nano a
      (bytes "/x")
      3
      7000000000
      (after nano (ask 5000000000 ∷ ask 5000000000 ∷ ask 5500000000 ∷ other ∷ []) limiter)).1
    ≡ true
unfolding runs last_call
waited_call_example =
    waited_call nano nano-IsExact a (bytes "/x") 3
      (ask 5000000000 ∷ ask 5000000000 ∷ ask 5500000000 ∷ other ∷ []) limiter 5000000000 7000000000
      (omega arith) refl refl refl

-- Half a second earlier the call is refused.
not_waited :
    (allow_n nano a
      (bytes "/x")
      3
      6000000000
      (after nano (ask 5000000000 ∷ ask 5000000000 ∷ ask 5500000000 ∷ []) limiter)).1
    ≡ false
unfolding runs after
not_waited = refl
