-- ===== src/Common/Int64.antt =====
-- A Go int or int64 as its pattern of 64 bits, a number below 2 ^ 64.
use Prim.Native.Nat.{◌^◌}
use ravenguard.Common.{ℕ, ◌+◌, ◌-◌, ◌%◌, ◌<◌, ◌≤◌, ◌≡◌, Bool, true, arith, ltb}

abbrev pub Int64 : Type 0
Int64 = ℕ

abbrev pub add_int : Int64 → Int64 → Int64
add_int a b = (a + b) % 2 ^ 64

abbrev pub sub_int : Int64 → Int64 → Int64
sub_int a b = (a + 2 ^ 64 - b) % 2 ^ 64

-- The signed comparison a < b.
unfoldable pub ltb_int : Int64 → Int64 → Bool
ltb_int a b = ltb ((a + 2 ^ 63) % 2 ^ 64) ((b + 2 ^ 63) % 2 ^ 64)

-- A later time in seconds is past what an earlier one is past.
pub past_later :
    (exp now later : Int64)
    → now ≤ later
    → later < 2 ^ 63
    → ltb_int exp now ≡ true
    → ltb_int exp later ≡ true
unfolding ltb_int
past_later exp now later le fits over = ground (arith, over)
