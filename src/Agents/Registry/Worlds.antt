-- ===== src/Agents/Registry/Worlds.antt =====
-- internal/agentprotocol/hub.go: connections that come and go.
use ravenguard.Common.{
  ℕ, ◌+◌, ◌<◌, ◌≡◌, refl, ap, inl, inr, Bool, true, ◌||◌, not, Option, none, some, List, [], ◌∷◌,
  ◌==◌, if◌then◌else◌, Bytes, arith, Bool-cases,
}
use ravenguard.Common.Dict.{get}
use ravenguard.Agents.Registry.{
  Session, Registry, new_registry, any_is, close, is_session, close_old, put_session, get_session,
  disconnect,
}

-- A registry with all the sessions that there have been, by their numbers.
pub record World : Type 0 where
  pub registry : Registry
  pub next : ℕ
  pub known : ℕ → Option Session

abbrev pub nobody : World
nobody = record { registry = new_registry; next = 0; known = λ n. none }

-- A new connection gets a new number; the end of one is deferred by its own goroutine.
pub data Event : Type 0 where
  connected : Session → Event
  ended : ℕ → Event

abbrev pub end_of : Option Session → World → World
end_of none w = w
end_of (some s) w = record w { registry = disconnect s w.registry }

unfoldable pub happen : Event → World → World
unfolding put_session disconnect
happen (connected s) w =
    let s = record s { id = w.next } in
    record {
      registry = put_session s w.registry;
      next = w.next + 1;
      known = λ n. if n == w.next then some s else w.known n;
    }
happen (ended n) w = end_of (w.known n) w

unfoldable pub happen_all : List Event → World → World
unfolding happen
happen_all [] w = w
happen_all (e ∷ es) w = happen_all es (happen e w)

-- Whether a session is the one that the registry has for its proxy.
abbrev pub is_online : Session → Registry → Bool
is_online s r = is_session s (get_session s.proxy_id r)

pub record Tidy (w : World) : Type 0 where
  pub numbered : (n : ℕ) (s : Session) → w.known n ≡ some s → (s.id ≡ n) × (n < w.next)
  pub registered :
      (p : Bytes) (s : Session)
      → get p w.registry.sessions ≡ some s
      → (s.proxy_id ≡ p) × (w.known s.id ≡ some s)
  pub open_online :
      (n : ℕ) (s : Session)
      → w.known n ≡ some s
      → any_is n w.registry.closed ≡ not (is_online s w.registry)
  pub closed_known : (n : ℕ) → any_is n w.registry.closed ≡ true → n < w.next

pub close-any_is :
    (n m : ℕ) (r : Registry) → any_is m (close n r).closed ≡ (n == m || any_is m r.closed)
unfolding close any_is
close-any_is n m r = elim (Bool-cases (any_is n r.closed)) [
  | inl old ↦ ground (arith, old, ap (λ k. any_is k r.closed))
  | inr new ↦ rw new refl
]

-- Closing does not touch the map.
pub close_sessions : (n : ℕ) (r : Registry) → (close n r).sessions ≡ r.sessions
unfolding close
close_sessions n r = ground arith

pub close_old_sessions :
    (s : Session) (o : Option Session) (r : Registry) → (close_old s o r).sessions ≡ r.sessions
close_old_sessions s none r = refl
close_old_sessions s (some old) r = ground (arith, close_sessions old.id r)
