-- ===== src/Agents/Registry/Online.antt =====
-- internal/agentprotocol/hub.go: which sessions are online after connections have come and gone.
use ravenguard.Common.{
  ℕ, ◌≡◌, ◌≢◌, refl, ap, ◌∙◌, inl, inr, true, false, ◌&&◌, ◌||◌, not, Option, none, some, List, [],
  ◌∷◌, ◌==◌, if◌then◌else◌, Bytes, str_eq, str_eq_iff, str_eq_refl, arith, Bool-cases, ==_iff,
}
use ravenguard.Common.Dict.{get, get-delete}
use ravenguard.Agents.Registry.{Session, any_is, is_session, remove, disconnect}
use ravenguard.Agents.Registry.Worlds.{
  World, Event, connected, ended, happen, happen_all, nobody, is_online, end_of, Tidy, close-any_is,
  close_sessions,
}
use ravenguard.Agents.Registry.Connected.{connected-Tidy}

module _ (w : World) (h : Tidy w) (n : ℕ) (s : Session) (k : w.known n ≡ some s) where
  left : World
  left = record w { registry = disconnect s w.registry }

  left_closed : (m : ℕ) → any_is m left.registry.closed ≡ (n == m || any_is m w.registry.closed)
  unfolding left disconnect remove
  left_closed m =
      let (own, below) = h.numbered n s k in
      ground (arith, close-any_is s.id m (remove s.proxy_id s w.registry), own)

  left_get :
      (p : Bytes)
      → get p left.registry.sessions ≡ (
          if is_online s w.registry && str_eq s.proxy_id p then none else get p w.registry.sessions)
  unfolding left disconnect remove
  left_get p =
      rw (close_sessions s.id (remove s.proxy_id s w.registry))
        (ground (arith, get-delete s.proxy_id p w.registry.sessions))

  left_registered :
      (p : Bytes) (t : Session)
      → get p left.registry.sessions ≡ some t
      → (t.proxy_id ≡ p) × (w.known t.id ≡ some t)
  left_registered p t e = h.registered p t (ground (arith, e, left_get p))

  gone_self : any_is n left.registry.closed ≡ not (is_online s left.registry)
  gone_self = elim (Bool-cases (is_online s w.registry)) [
    | inl on ↦ rw (left_closed n, left_get s.proxy_id, on, str_eq_refl s.proxy_id) (ground arith)
    | inr off ↦ rw (left_closed n, left_get s.proxy_id, off, off) (ground arith)
  ]

  -- Only one session of a proxy is online.
  one_online :
      (t : Session) (o : Option Session)
      → is_session s o ≡ true
      → s.id ≢ t.id
      → is_session t o ≡ false
  one_online t none on differ = refl
  one_online t (some cur) on differ = ground (arith, on, differ)

  left_open :
      (m : ℕ) (t : Session)
      → w.known m ≡ some t
      → any_is m left.registry.closed ≡ not (is_online t left.registry)
  left_open m t e =
      let (own, below) = h.numbered n s k in
      let (own', below') = h.numbered m t e in
      elim (Bool-cases (n == m)) [
        | inl same ↦
            let at_m : n ≡ m = (==_iff n m).0 same in
            let this : s ≡ t = ground (arith, k, e, ap w.known at_m) in
            rw (← at_m, ← this) gone_self
        | inr other ↦ elim (Bool-cases (is_online s w.registry && str_eq s.proxy_id t.proxy_id)) [
          | inr keeps ↦ rw (left_closed m, other, left_get t.proxy_id, keeps) (h.open_online m t e)
          | inl gone ↦
              let name : s.proxy_id ≡ t.proxy_id =
                (str_eq_iff s.proxy_id t.proxy_id).0 (ground (arith, gone)) in
              let was_off : is_online t w.registry ≡ false = rw (← name) (
                one_online t (get s.proxy_id w.registry.sessions) (ground (arith, gone))
                  (ground (arith, own, own', other))) in
              rw (left_closed m, other, left_get t.proxy_id, gone)
                (h.open_online m t e ∙ ap not was_off)
        ]
      ]

  left-Tidy : Tidy left
  unfolding left
  left-Tidy = record {
    numbered = h.numbered;
    registered = left_registered;
    open_online = left_open;
    closed_known = λ m c. elim (Bool-cases (n == m)) [
      | inl same ↦ let (own, below) = h.numbered n s k in ground (arith, same, below)
      | inr other ↦ h.closed_known m (ground (arith, c, left_closed m, other))
    ];
  }

end_of-Tidy :
    (w : World) (h : Tidy w) (n : ℕ) (o : Option Session) → w.known n ≡ o → Tidy (end_of o w)
unfolding left
end_of-Tidy w h n none k = h
end_of-Tidy w h n (some s) k = left-Tidy w h n s k

happen-Tidy : (e : Event) (w : World) → Tidy w → Tidy (happen e w)
unfolding happen
happen-Tidy (connected s) w h = connected-Tidy w h s
happen-Tidy (ended n) w h = end_of-Tidy w h n (w.known n) refl

happen_all-Tidy : (es : List Event) (w : World) → Tidy w → Tidy (happen_all es w)
unfolding happen_all
happen_all-Tidy [] w h = h
happen_all-Tidy (e ∷ es) w h = happen_all-Tidy es (happen e w) (happen-Tidy e w h)

nobody-Tidy : Tidy nobody
unfolding any_is get
nobody-Tidy = record {
  numbered = λ n s k. cc;
  registered = λ p s k. cc;
  open_online = λ n s k. cc;
  closed_known = λ n c. cc;
}

-- After any connections and ends of connections, a session is online, that is, the one that the registry
-- has for its proxy, exactly if it has not been closed; so a session that another of its proxy has
-- replaced is closed, and its end does not take the new one offline.
pub open-online :
    (es : List Event) (n : ℕ) (s : Session)
    → (happen_all es nobody).known n ≡ some s
    → any_is n (happen_all es nobody).registry.closed
      ≡ not (is_online s (happen_all es nobody).registry)
open-online es = (happen_all-Tidy es nobody nobody-Tidy).open_online
