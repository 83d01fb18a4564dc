-- ===== src/Agents/Registry.antt =====
-- internal/agentprotocol/hub.go: the sessions that are online. A session is a pointer in the code, so it
-- has a number here; `closed` holds the numbers of the sessions whose channel is closed.
pub mod Worlds
pub mod Connected
pub mod Online
use ravenguard.Common.{
  ℕ, zero, suc, ◌+◌, Bool, true, false, ◌&&◌, ◌||◌, not, Option, none, some, List, [], ◌∷◌, ◌==◌,
  if◌then◌else◌, Bytes, map,
}
use ravenguard.Common.Dict.{Dict, get, put, delete}

pub record Session : Type 0 where
  pub id : ℕ
  pub proxy_id : Bytes
  pub fingerprint : Bytes
  pub name : Bytes
  pub version : Bytes

pub record Registry : Type 0 where
  pub sessions : Dict Session
  pub closed : List ℕ

abbrev pub new_registry : Registry
new_registry = record { sessions = []; closed = [] }

unfoldable pub any_is : ℕ → List ℕ → Bool
any_is n [] = false
any_is n (m ∷ ms) = m == n || any_is n ms

-- Close, on the channel of a session: closing it again does nothing.
unfoldable pub close : ℕ → Registry → Registry
unfolding any_is
close n r = if any_is n r.closed then r else record r { closed = n ∷ r.closed }

abbrev pub is_session : Session → Option Session → Bool
is_session s none = false
is_session s (some cur) = cur.id == s.id

-- The old session of the same proxy, if it is another one.
abbrev pub close_old : Session → Option Session → Registry → Registry
close_old s none r = r
close_old s (some old) r = if old.id == s.id then r else close old.id r

-- Registry.Put
unfoldable pub put_session : Session → Registry → Registry
unfolding close get put
put_session s r =
    let r' = close_old s (get s.proxy_id r.sessions) r in
    record r' { sessions = put s.proxy_id s r'.sessions }

-- Registry.Remove: only the session itself is removed, not one that has replaced it.
unfoldable pub remove : Bytes → Session → Registry → Registry
unfolding get delete
remove proxy_id s r =
    if is_session s (get proxy_id r.sessions)
    then record r { sessions = delete proxy_id r.sessions }
    else r

-- Registry.Get
abbrev pub get_session : Bytes → Registry → Option Session
get_session proxy_id r = get proxy_id r.sessions

-- Registry.ListOnline
unfoldable pub list_online : Registry → List Bytes
list_online r = map (λ e. e.0) r.sessions

-- What HandleConnect defers to the end of a connection.
unfoldable pub disconnect : Session → Registry → Registry
unfolding remove close
disconnect s r = close s.id (remove s.proxy_id s r)
