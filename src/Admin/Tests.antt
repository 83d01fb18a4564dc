-- ===== src/Admin/Tests.antt =====
-- The lockout and the roles at concrete inputs.
use ravenguard.Common.{◌≡◌, refl, true, [], ◌∷◌, List, arith, Bytes, bytes, str_eq, Instant}
use ravenguard.Common.Dict
use ravenguard.Admin.Lockout.{Lockout, LockEntry, new_lockout, locked, fail, clear}
use ravenguard.Admin.Lockout.Window.{is_locked, fail_all, fail_all-locked}
use ravenguard.Admin.Rbac.{normalize, rank}

runs : Unit {0}
unfolding locked fail clear fail_all Dict.get Dict.put Dict.delete str_eq rank
runs = tt

abbrev alice : Bytes
alice = bytes "alice"

-- Seven more failures, a minute apart.
abbrev seven_more : List Instant
seven_more =
    61000000000 ∷ 121000000000 ∷ 181000000000 ∷ 241000000000 ∷ 301000000000 ∷ 361000000000
    ∷ 421000000000 ∷ []

abbrev full : Lockout
full = fail_all alice (1000000000 ∷ seven_more) new_lockout

fail_all-locked_example : is_locked alice 500000000000 full ≡ true
unfolding runs
fail_all-locked_example =
    fail_all-locked alice 1000000000 seven_more 500000000000 new_lockout refl refl (
      omega arith,
      (omega arith, (omega arith, (omega arith, (omega arith, (omega arith, (omega arith, tt)))))),
    )

abbrev old_entry : LockEntry
old_entry = record { failures = 9; until = 5 }

abbrev old : Lockout
old = record { ents = (alice, old_entry) ∷ [] }

admin_rank : rank (bytes " Admin ") ≡ 2
unfolding rank normalize str_eq
admin_rank = refl
