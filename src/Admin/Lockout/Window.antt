-- ===== src/Admin/Lockout/Window.antt =====
-- How many failed logins lock a key, and until when.
use ravenguard.Common.{
  ℕ, suc, ◌+◌, ◌≤◌, ◌≡◌, refl, Bool, true, false, ◌&&◌, Option, none, some, List, [], ◌∷◌, arith,
  ltb, leb, if◌then◌else◌, Instant, Bytes, str_eq, str_eq_refl, length, ap,
}
use ravenguard.Common.Dict
use ravenguard.Common.Dict.{get-put, get-delete}
use ravenguard.Admin.Lockout.{
  LockEntry, Lockout, lock_ttl, max_failures, locked, failed, fail, clear,
}

-- The answer of Locked.
abbrev pub is_locked : Bytes → Instant → Lockout → Bool
is_locked key now l = (locked key now l).1

abbrev holds : Instant → Option LockEntry → Bool
holds now none = false
holds now (some e) = leb now e.until && leb max_failures e.failures

pub is_locked-holds :
    (key : Bytes) (now : Instant) (l : Lockout)
    → is_locked key now l ≡ (if str_eq key [] then false else holds now (Dict.get key l.ents))
unfolding locked
is_locked-holds key now l = ground arith

-- Failures of one key, one after the other.
unfoldable pub fail_all : Bytes → List Instant → Lockout → Lockout
fail_all key [] l = l
fail_all key (now ∷ later) l = fail_all key later (fail key now l)

-- Each failure comes at most 15 minutes after the one before it.
abbrev pub Chained : Instant → List Instant → Type 0
Chained before [] = Unit
Chained before (now ∷ later) = (now ≤ before + 900000000000) × Chained now later

abbrev pub last_of : Instant → List Instant → Instant
last_of now [] = now
last_of now (next ∷ later) = last_of next later

abbrev entry_after : Instant → ℕ → LockEntry
entry_after last n = record { failures = n; until = last + lock_ttl }

fail-get :
    (key : Bytes) (now : Instant) (l : Lockout)
    → str_eq key [] ≡ false
    → Dict.get key (fail key now l).ents ≡ some (failed now (Dict.get key l.ents))
unfolding fail
fail-get key now l ne = rw (ne, get-put key key _ l.ents, str_eq_refl key)

failed_next :
    (before now : Instant) (n : ℕ)
    → now ≤ before + lock_ttl
    → failed now (some (entry_after before n)) ≡ entry_after now (n + 1)
unfolding failed
failed_next before now n near = ground arith

fail_more :
    (key : Bytes) (before : Instant) (later : List Instant) (n : ℕ) (l : Lockout)
    → str_eq key [] ≡ false
    → Chained before later
    → Dict.get key l.ents ≡ some (entry_after before n)
    → Dict.get key (fail_all key later l).ents
      ≡ some (entry_after (last_of before later) (n + length later))
unfolding fail_all
fail_more key before [] n l ne chained e = let z : n + 0 ≡ n = omega arith in rw z e
fail_more key before (now ∷ later) n l ne (near, chained) e =
    let z : n + suc (length later) ≡ n + 1 + length later = omega arith in
    let next : Dict.get key (fail key now l).ents ≡ some (entry_after now (n + 1)) =
      rw (fail-get key now l ne, e) (ap some (failed_next before now n near)) in
    rw z (fail_more key now later (n + 1) (fail key now l) ne chained next)

-- A key without an entry that fails to log in, each time at most 15 minutes after the failure before,
-- is locked exactly from the eighth failure on, until 15 minutes after the last one.
pub fail_all-locked :
    (key : Bytes) (first : Instant) (later : List Instant) (now : Instant) (l : Lockout)
    → str_eq key [] ≡ false
    → Dict.get key l.ents ≡ none
    → Chained first later
    → is_locked key now (fail_all key (first ∷ later) l)
      ≡ leb now (last_of first later + 900000000000) && leb 8 (1 + length later)
unfolding fail_all
fail_all-locked key first later now l ne new chained =
    let start : Dict.get key (fail key first l).ents ≡ some (entry_after first 1) =
      rw (fail-get key first l ne, new) (unfold failed in refl) in
    rw (
      is_locked-holds key now (fail_all key later (fail key first l)),
      ne,
      fail_more key first later 1 (fail key first l) ne chained start,
    )

-- A key whose last failure has run out starts again: the next failure is its first one.
pub fail_restarts :
    (key : Bytes) (now : Instant) (e : LockEntry) (l : Lockout)
    → str_eq key [] ≡ false
    → Dict.get key l.ents ≡ some e
    → ltb e.until now ≡ true
    → Dict.get key (fail key now l).ents ≡ some (record { failures = 1; until = now + lock_ttl })
fail_restarts key now e l ne known over =
    rw (fail-get key now l ne, known) (unfold failed in rw over)

-- A login clears the failures of its key and of no other key.
pub clear-locked :
    (key j : Bytes) (now : Instant) (l : Lockout)
    → str_eq key [] ≡ false
    → is_locked j now (clear key l) ≡ (if str_eq key j then false else is_locked j now l)
unfolding clear
clear-locked key j now l ne = ground (
  arith,
  ne,
  is_locked-holds j now l,
  is_locked-holds j now (clear key l),
  get-delete key j l.ents,
)
