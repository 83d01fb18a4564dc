-- ===== src/Protect/Interleaved/Tests.antt =====
-- Interleavings of the slots at concrete inputs.
use ravenguard.Common.{◌≡◌, refl, List, [], ◌∷◌, ◌++◌, ◌≤◌, str_eq, bytes, Bytes}
use ravenguard.Common.Int.{negsuc}
use ravenguard.Common.Dict
use ravenguard.Protect.Tests.{cfg}
use ravenguard.Protect.Interleaved.{World, Event, run, start, come, go, look, sweep_on}
use ravenguard.Protect.Interleaved.Kept.{Tally, counts, admitted, sum_of}
use ravenguard.Protect.Interleaved.Clients.{run-Tally}
use ravenguard.Protect.Interleaved.Total.{served, run-Total}
use ravenguard.Protect.Interleaved.Owned.{Total, slots}

runs : Unit {0}
unfolding run slots served counts admitted sum_of Dict.get Dict.put Dict.delete str_eq
runs = tt

abbrev a : Bytes
a = bytes "a"

-- The first request has found its counter when the sweep deletes it as idle. The second request
-- starts another counter, and the first one puts its own back.
abbrev race : List Event
race =
    come a
    ∷ go 0
    ∷ go 0
    ∷ go 0
    ∷ look a
    ∷ sweep_on
    ∷ sweep_on
    ∷ come a
    ∷ go 1
    ∷ go 1
    ∷ go 1
    ∷ go 1
    ∷ go 1
    ∷ go 0
    ∷ go 0
    ∷ go 0
    ∷ []

-- Both are served, with a limit of one for a client.
two_served : served (run cfg race start).requests ≡ 2
unfolding runs
two_served = refl

-- Both leave, and take two from the counter that the map holds.
abbrev left : World
left = run cfg (race ++ go 1 ∷ go 1 ∷ go 1 ∷ go 0 ∷ go 0 ∷ go 0 ∷ []) start

counter_below_zero : left.shared.counters 0 ≡ negsuc 0
unfolding runs
counter_below_zero = refl

-- The sweep leaves that counter, and from then on two requests are served, one after the other.
two_again :
    served
      (run cfg
        (look a
          ∷ sweep_on
          ∷ sweep_on
          ∷ come a
          ∷ go 2
          ∷ go 2
          ∷ go 2
          ∷ go 2
          ∷ go 2
          ∷ come a
          ∷ go 3
          ∷ go 3
          ∷ go 3
          ∷ go 3
          ∷ go 3
          ∷ [])
        left).requests
    ≡ 2
unfolding runs
two_again = refl

run-Total_example :
    Total cfg (slots (run cfg race start).requests) (run cfg race start).shared
    × (served (run cfg race start).requests ≤ 2)
run-Total_example = run-Total cfg race

-- Two requests of a client come at the same time; the second one is refused.
abbrev both : List Event
both =
    come a
    ∷ come a
    ∷ go 0
    ∷ go 1
    ∷ go 0
    ∷ go 1
    ∷ go 1
    ∷ go 1
    ∷ go 0
    ∷ go 1
    ∷ go 0
    ∷ go 1
    ∷ go 1
    ∷ go 0
    ∷ []

run-Tally_example : Tally cfg a (run cfg both start).shared 1 1
unfolding runs
run-Tally_example = run-Tally cfg both tt a refl
