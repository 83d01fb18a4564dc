-- ===== src/Agents/Registry/Connected.antt =====
-- internal/agentprotocol/hub.go: a new connection keeps the registry tidy.
use ravenguard.Common.{
  ℕ, ◌+◌, ◌<◌, ◌≡◌, refl, sym, ap, ◌∙◌, inl, inr, Bool, true, false, ◌||◌, not, Option, none, some,
  ◌==◌, if◌then◌else◌, Bytes, str_eq, str_eq_iff, str_eq_refl, arith, Bool-cases, ==_iff,
}
use ravenguard.Common.Dict.{get, get-put}
use ravenguard.Agents.Registry.{Session, any_is, is_session, close_old, put_session}
use ravenguard.Agents.Registry.Worlds.{
  World, connected, happen, is_online, Tidy, close-any_is, close_old_sessions,
}

module _ (w : World) (h : Tidy w) (s : Session) where
  -- The session of a new connection.
  abbrev fresh : Session
  fresh = record s { id = w.next }

  after : World
  unfolding happen
  after = happen (connected s) w

  -- The number of the session that the new one replaces, if there is one.
  abbrev replaces : Option Session → ℕ → Bool
  replaces none n = false
  replaces (some old) n = old.id == n

  old_closed :
      (o : Option Session) (n : ℕ)
      → get fresh.proxy_id w.registry.sessions ≡ o
      → any_is n (close_old fresh o w.registry).closed
        ≡ (replaces o n || any_is n w.registry.closed)
  old_closed none n e = refl
  old_closed (some old) n e =
      let (named, kept) = h.registered fresh.proxy_id old e in
      let (own, below) = h.numbered old.id old kept in
      ground (arith, below, close-any_is old.id n w.registry)

  after_closed :
      (n : ℕ)
      → any_is n after.registry.closed
        ≡ (replaces (get fresh.proxy_id w.registry.sessions) n || any_is n w.registry.closed)
  unfolding after happen put_session
  after_closed n = old_closed (get fresh.proxy_id w.registry.sessions) n refl

  after_get :
      (p : Bytes)
      → get p after.registry.sessions
        ≡ (if str_eq s.proxy_id p then some fresh else get p w.registry.sessions)
  unfolding after happen put_session
  after_get p =
      rw (close_old_sessions fresh (get fresh.proxy_id w.registry.sessions) w.registry)
        (get-put s.proxy_id p fresh w.registry.sessions)

  after_known : (n : ℕ) → after.known n ≡ (if n == w.next then some fresh else w.known n)
  unfolding after happen
  after_known n = refl

  after_next : after.next ≡ w.next + 1
  unfolding after happen
  after_next = refl

  after_numbered : (n : ℕ) (t : Session) → after.known n ≡ some t → (t.id ≡ n) × (n < after.next)
  after_numbered n t e = elim (Bool-cases (n == w.next)) [
    | inl new ↦ ground (arith, e, after_known n, new, after_next)
    | inr old ↦
        let (own, below) = h.numbered n t (ground (arith, e, after_known n, old)) in
        (own, omega (arith, below, after_next))
  ]

  after_registered :
      (p : Bytes) (t : Session)
      → get p after.registry.sessions ≡ some t
      → (t.proxy_id ≡ p) × (after.known t.id ≡ some t)
  after_registered p t e = elim (Bool-cases (str_eq s.proxy_id p)) [
    | inl same ↦
        let own : fresh ≡ t = ground (arith, e, after_get p, same) in
        rw (← own) ((str_eq_iff s.proxy_id p).0 same, ground (arith, after_known w.next))
    | inr other ↦
        let (named, kept) = h.registered p t (ground (arith, e, after_get p, other)) in
        let (own, below) = h.numbered t.id t kept in
        (named, ground (arith, after_known t.id, below, kept))
  ]

  -- A session is replaced only by one of the same proxy.
  replaces_other :
      (o : Option Session) (n : ℕ) (t : Session)
      → get s.proxy_id w.registry.sessions ≡ o
      → w.known n ≡ some t
      → str_eq s.proxy_id t.proxy_id ≡ false
      → replaces o n ≡ false
  replaces_other none n t e k other = refl
  replaces_other (some old) n t e k other = elim (Bool-cases (old.id == n)) [
    | inr differ ↦ differ
    | inl same ↦
        let (named, kept) = h.registered s.proxy_id old e in
        let own : old ≡ t = ground (arith, kept, k, ap w.known ((==_iff old.id n).0 same)) in
        ground (
          arith,
          other,
          (str_eq_iff s.proxy_id t.proxy_id).1 (sym named ∙ ap (λ (u : Session). u.proxy_id) own),
        )
  ]

  -- A session of the same proxy is closed, now or before.
  replaces_same :
      (o : Option Session) (n : ℕ) (t : Session)
      → t.id ≡ n
      → (replaces o n || not (is_session t o)) ≡ true
  replaces_same none n t own = refl
  replaces_same (some old) n t own = ground (arith, own)

  replaces_below :
      (o : Option Session) (n : ℕ)
      → get s.proxy_id w.registry.sessions ≡ o
      → replaces o n ≡ true
      → n < w.next
  replaces_below none n e r = cc
  replaces_below (some old) n e r =
      let (named, kept) = h.registered s.proxy_id old e in
      let (own, below) = h.numbered old.id old kept in ground (arith, r, below)

  closed_below : (n : ℕ) → any_is n after.registry.closed ≡ true → n < w.next
  closed_below n c = elim (Bool-cases (any_is n w.registry.closed)) [
    | inl before ↦ h.closed_known n before
    | inr later ↦
        replaces_below (get s.proxy_id w.registry.sessions) n refl
          (ground (arith, c, after_closed n, later))
  ]

  fresh_open : any_is w.next after.registry.closed ≡ not (is_online fresh after.registry)
  fresh_open = elim (Bool-cases (any_is w.next after.registry.closed)) [
    | inl c ↦ absurd (omega (arith, closed_below w.next c))
    | inr c ↦ rw (c, after_get s.proxy_id, str_eq_refl s.proxy_id) (ground arith)
  ]

  same_proxy :
      (n : ℕ) (t : Session)
      → w.known n ≡ some t
      → str_eq s.proxy_id t.proxy_id ≡ true
      → any_is n after.registry.closed ≡ not (is_online t after.registry)
  same_proxy n t k same =
      let (own, below) = h.numbered n t k in
      let name : s.proxy_id ≡ t.proxy_id = (str_eq_iff s.proxy_id t.proxy_id).0 same in
      let gone : (replaces (get s.proxy_id w.registry.sessions) n || any_is n w.registry.closed)
          ≡ true =
        rw (h.open_online n t k, ← name)
          (replaces_same (get s.proxy_id w.registry.sessions) n t own) in
      rw (after_closed n, gone, after_get t.proxy_id, same) (ground (arith, own, below))

  after_open :
      (n : ℕ) (t : Session)
      → after.known n ≡ some t
      → any_is n after.registry.closed ≡ not (is_online t after.registry)
  after_open n t e = elim (Bool-cases (n == w.next)) [
    | inl new ↦
        let at_next : n ≡ w.next = (==_iff n w.next).0 new in
        let own : fresh ≡ t = ground (arith, e, after_known n, new) in
        rw (at_next, ← own) fresh_open
    | inr old ↦
        let k : w.known n ≡ some t = ground (arith, e, after_known n, old) in
        elim (Bool-cases (str_eq s.proxy_id t.proxy_id)) [
          | inl same ↦ same_proxy n t k same
          | inr other ↦
              rw (after_closed n, replaces_other _ n t refl k other, after_get t.proxy_id, other)
                (h.open_online n t k)
        ]
  ]

  pub connected-Tidy : Tidy (happen (connected s) w)
  unfolding after
  connected-Tidy = record {
    numbered = after_numbered;
    registered = after_registered;
    open_online = after_open;
    closed_known = λ n c. omega (arith, closed_below n c, after_next);
  }
