-- ===== src/Admin/Lockout.antt =====
-- internal/admin/auth/lockout.go: failed logins by user name or address. `Locked` deletes an entry
-- that has run out.
pub mod Window
use ravenguard.Common.{
  ℕ, ◌+◌, Bool, true, false, Option, none, some, [], ltb, leb, if◌then◌else◌, Instant, Bytes,
  str_eq,
}
use ravenguard.Common.Dict
use ravenguard.Common.Dict.{Dict}

abbrev pub max_failures : ℕ
max_failures = 8

-- 15 minutes
abbrev pub lock_ttl : ℕ
lock_ttl = 900000000000

pub record LockEntry : Type 0 where
  pub failures : ℕ
  pub until : Instant

pub record Lockout : Type 0 where
  pub ents : Dict LockEntry

-- NewLockout
abbrev pub new_lockout : Lockout
new_lockout = record { ents = [] }

unfoldable pub locked_entry : Bytes → Instant → Lockout → Option LockEntry → Lockout × Bool
locked_entry key now l none = (l, false)
locked_entry key now l (some e) =
    if ltb e.until now
    then (record { ents = Dict.delete key l.ents }, false)
    else (l, leb max_failures e.failures)

-- Locked
unfoldable pub locked : Bytes → Instant → Lockout → Lockout × Bool
unfolding locked_entry
locked key now l =
    if str_eq key [] then (l, false) else locked_entry key now l (Dict.get key l.ents)

unfoldable pub failed : Instant → Option LockEntry → LockEntry
failed now none = record { failures = 1; until = now + lock_ttl }
failed now (some e) =
    if ltb e.until now
    then record { failures = 1; until = now + lock_ttl }
    else record { failures = e.failures + 1; until = now + lock_ttl }

-- Fail
unfoldable pub fail : Bytes → Instant → Lockout → Lockout
fail key now l =
    if str_eq key []
    then l
    else record { ents = Dict.put key (failed now (Dict.get key l.ents)) l.ents }

-- Clear
unfoldable pub clear : Bytes → Lockout → Lockout
clear key l = if str_eq key [] then l else record { ents = Dict.delete key l.ents }
