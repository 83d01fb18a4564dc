-- ===== src/Agents/Handshake/Granted.antt =====
-- internal/agentprotocol/hub.go: what a connection that HandleConnect has let in has shown.
use ravenguard.Common.{
  ℕ, ◌≤◌, ◌≡◌, ◌≢◌, refl, ◌⊎◌, inl, inr, true, false, ◌&&◌, ◌||◌, not, Option, none, some, [], ltb,
  Bytes, bytes, str_eq, str_eq_iff, str_eq_refl, length, Instant, arith, Bool-cases, if_cases,
}
use ravenguard.Common.Dict.{get, get-put}
use ravenguard.Agents.Connects.{allow_connect}
use ravenguard.Agents.Registry.{Session, Registry, put_session, get_session, close_old}
use ravenguard.Agents.Handshake.{
  TokenInfo, TokenLookup, FingerprintPayload, Connect, Outcome, method_not_allowed, rate_limited,
  missing_token, invalid_token, not_upgraded, bad_fingerprint, fingerprint_mismatch, bind_failed,
  connected, token_of, Hub, accept, check_reply, check_token, handle_connect,
}

-- A session of the proxy of a token, with a fingerprint that the token admits.
pub record IsOwn (id : ℕ) (info : TokenInfo) (s : Session) : Type 0 where
  pub number : s.id ≡ id
  pub owner : s.proxy_id ≡ info.proxy_id
  pub long : 32 ≤ length s.fingerprint
  pub short : length s.fingerprint ≤ 128
  pub admitted :
      (info.universal ≡ true) ⊎ ((info.fingerprint ≡ []) ⊎ (info.fingerprint ≡ s.fingerprint))

abbrev pub session_of : Outcome → Option Session
session_of method_not_allowed = none
session_of rate_limited = none
session_of missing_token = none
session_of invalid_token = none
session_of not_upgraded = none
session_of bad_fingerprint = none
session_of fingerprint_mismatch = none
session_of bind_failed = none
session_of (connected s) = some s

module _ (lookup : TokenLookup) where
  -- The session is online, or nothing but the limits has changed.
  abbrev pub Ends : (Session → Type 0) → Hub lookup → Hub lookup → Option Session → Type 0
  Ends P h h' none = (h'.registry ≡ h.registry) × (h'.store ≡ h.store)
  Ends P h h' (some s) = P s × (get_session s.proxy_id h'.registry ≡ some s)

  abbrev pub Settles : (Session → Type 0) → Hub lookup → Hub lookup × Outcome → Type 0
  Settles P h r = Ends P h r.0 (session_of r.1)

  put_session-online :
      (s : Session) (r : Registry) → get_session s.proxy_id (put_session s r) ≡ some s
  unfolding put_session
  put_session-online s r = ground (
    arith,
    get-put s.proxy_id s.proxy_id s (close_old s (get s.proxy_id r.sessions) r).sessions,
    str_eq_refl s.proxy_id,
  )

  accept-Settles :
      (id : ℕ) (info : TokenInfo) (c : Connect) (p : FingerprintPayload) (h : Hub lookup)
      (o : Option lookup.Store)
      → 32 ≤ length p.fingerprint
      → length p.fingerprint ≤ 128
      → (info.universal ≡ true) ⊎ ((info.fingerprint ≡ []) ⊎ (info.fingerprint ≡ p.fingerprint))
      → Settles (IsOwn id info) h (accept lookup id info c p h o)
  unfolding accept
  accept-Settles id info c p h none long short admitted = (refl, refl)
  accept-Settles id info c p h (some store) long short admitted = (
    record { number = refl; owner = refl; long = long; short = short; admitted = admitted },
    put_session-online _ h.registry,
  )

  admits :
      (info : TokenInfo) (fp : Bytes)
      → (not info.universal
          && (not (str_eq info.fingerprint []) && not (str_eq info.fingerprint fp)))
        ≡ false
      → (info.universal ≡ true) ⊎ ((info.fingerprint ≡ []) ⊎ (info.fingerprint ≡ fp))
  admits info fp h = elim (Bool-cases info.universal) [
    | inl any ↦ inl any
    | inr bound ↦ elim (Bool-cases (str_eq info.fingerprint [])) [
      | inl free ↦ inr (inl ((str_eq_iff info.fingerprint []).0 free))
      | inr set ↦ inr (inr ((str_eq_iff info.fingerprint fp).0 (ground (arith, h, bound, set))))
    ]
  ]

  check_reply-Settles :
      (id : ℕ) (info : TokenInfo) (c : Connect) (h : Hub lookup) (o : Option FingerprintPayload)
      → Settles (IsOwn id info) h (check_reply lookup id info c h o)
  unfolding check_reply
  check_reply-Settles id info c h none = (refl, refl)
  check_reply-Settles id info c h (some p) =
      let good = Settles (IsOwn id info) h in
      if_cases good (str_eq p.fingerprint []) _ _ (λ e. (refl, refl))
        (λ e.
          if_cases good (ltb (length p.fingerprint) 32 || ltb 128 (length p.fingerprint)) _ _
            (λ e. (refl, refl))
            (λ fits.
              if_cases good _ _ _ (λ e. (refl, refl))
                (λ free.
                  accept-Settles id info c p h _ (ground (arith, fits)) (ground (arith, fits))
                    (admits info p.fingerprint free))))

  -- What lets a connection in.
  pub record IsGranted (id : ℕ) (now : Instant) (c : Connect) (h : Hub lookup) (s : Session)
      : Type 0 where
    pub is_get : c.method ≡ bytes "GET"
    pub in_limit : (allow_connect c.ip now h.limit).1 ≡ true
    pub has_token : token_of c ≢ []
    pub own :
        (info : TokenInfo) × (lookup.lookup_token (lookup.hash_token (token_of c)) h.store
          ≡ some info)
        × IsOwn id info s

  -- A settled outcome, with what else is known of its session.
  Ends-map :
      (P Q : Session → Type 0) (h h' : Hub lookup) (o : Option Session)
      → ((s : Session) → P s → Q s)
      → Ends P h h' o
      → Ends Q h h' o
  Ends-map P Q h h' none f e = e
  Ends-map P Q h h' (some s) f (p, online) = (f s p, online)

  check_token-Settles :
      (id : ℕ) (c : Connect) (h h' : Hub lookup) (o : Option TokenInfo) (Q : Session → Type 0)
      → h'.registry ≡ h.registry
      → h'.store ≡ h.store
      → ((info : TokenInfo) (s : Session) → o ≡ some info → IsOwn id info s → Q s)
      → Settles Q h' (check_token lookup id c h' o)
  unfolding check_token
  check_token-Settles id c h h' none Q r st f = (refl, refl)
  check_token-Settles id c h h' (some info) Q r st f =
      if_cases (Settles Q h') (not c.upgraded) _ _ (λ e. (refl, refl))
        (λ e.
          Ends-map (IsOwn id info) Q h' (check_reply lookup id info c h' c.reply).0
            (session_of (check_reply lookup id info c h' c.reply).1) (λ s own. f info s refl own)
            (check_reply-Settles id info c h' c.reply))

  -- HandleConnect lets a session in, which is then online for its proxy, only for a GET request within
  -- the limit, with a token that the storage knows as that proxy's, and with a fingerprint of 32 to 128
  -- bytes, which is that of the token unless the token is universal or has none. In every other case the
  -- registry and the storage are left alone.
  pub handle_connect-Settles :
      (id : ℕ) (now : Instant) (c : Connect) (h : Hub lookup)
      → Settles (IsGranted id now c h) h (handle_connect lookup id now c h)
  unfolding handle_connect
  handle_connect-Settles id now c h =
      let good = Settles (IsGranted id now c h) h in
      let h' : Hub lookup = record h { limit = (allow_connect c.ip now h.limit).0 } in
      if_cases good (not (str_eq c.method (bytes "GET"))) _ _ (λ e. (refl, refl))
        (λ get.
          if_cases good (not (allow_connect c.ip now h.limit).1) _ _ (λ e. (refl, refl))
            (λ room.
              if_cases good (str_eq (token_of c) []) _ _ (λ e. (refl, refl))
                (λ token.
                  check_token-Settles id c h h' _ (IsGranted id now c h) refl refl
                    (λ info s known own. record {
                      is_get = (str_eq_iff c.method (bytes "GET")).0 (ground (arith, get));
                      in_limit = ground (arith, room);
                      has_token = λ e. ground (arith, token, (str_eq_iff (token_of c) []).1 e);
                      own = (info, known, own);
                    }))))
