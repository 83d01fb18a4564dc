-- ===== src/Agents/Handshake.antt =====
-- internal/agentprotocol/hub.go: HandleConnect, up to the loop that reads the messages of a session.
pub mod Granted
use ravenguard.Common.{
  ℕ, ◌+◌, ◌≤◌, ◌≡◌, ◌≢◌, refl, ◌⊎◌, inl, inr, Bool, true, false, ◌&&◌, ◌||◌, not, Option, none,
  some, List, [], ◌∷◌, ltb, if◌then◌else◌, Bytes, bytes, str_eq, str_eq_iff, length, take, drop,
  Instant, arith, Bool-cases, if_cases,
}
use ravenguard.Common.Ascii.{trim_space, to_lower}
use ravenguard.Agents.Connects.{Limits, allow_connect}
use ravenguard.Agents.Registry.{Session, Registry, put_session}

-- What LookupToken answers.
pub record TokenInfo : Type 0 where
  pub proxy_id : Bytes
  pub fingerprint : Bytes
  pub name : Bytes
  pub universal : Bool

-- TokenLookup, over the state of its storage; an error is none. HashToken is part of it.
pub record TokenLookup : Type 1 where
  pub Store : Type 0
  pub hash_token : Bytes → Bytes
  pub lookup_token : Bytes → Store → Option TokenInfo
  pub bind_fingerprint : Bytes → Bytes → Bytes → Bytes → Store → Option Store
  pub touch_proxy : Bytes → Bytes → Store → Store

-- FingerprintPayload, as far as it is used here.
pub record FingerprintPayload : Type 0 where
  pub fingerprint : Bytes
  pub name : Bytes
  pub hostname : Bytes
  pub version : Bytes

-- A request to connect. `ip` is that of the remote address; `upgraded` says that the connection was
-- upgraded and the challenge written; `reply` is the payload of the answer, if that came in time, was
-- for the fingerprint and could be read.
pub record Connect : Type 0 where
  pub method : Bytes
  pub ip : Bytes
  pub token : Bytes
  pub authorization : Bytes
  pub agent_version : Bytes
  pub upgraded : Bool
  pub reply : Option FingerprintPayload

pub data Outcome : Type 0 where
  method_not_allowed rate_limited missing_token invalid_token not_upgraded : Outcome
  bad_fingerprint fingerprint_mismatch bind_failed : Outcome
  connected : Session → Outcome

abbrev first_non_empty : Bytes → Bytes → Bytes
first_non_empty a b =
    if not (str_eq (trim_space a) []) then a else if not (str_eq (trim_space b) []) then b else []

-- The token of its own header, or of a bearer authorization.
unfoldable pub token_of : Connect → Bytes
unfolding str_eq trim_space
token_of c =
    let own = trim_space c.token in
    if not (str_eq own [])
    then own
    else if ltb 7 (length c.authorization)
        && str_eq (to_lower (take 7 c.authorization)) (bytes "bearer ")
    then trim_space (drop 7 c.authorization)
    else own

module _ (lookup : TokenLookup) where
  open lookup use {Store, hash_token, lookup_token, bind_fingerprint, touch_proxy}

  pub record Hub : Type 0 where
    pub limit : Limits
    pub registry : Registry
    pub store : Store

  -- Behind BindFingerprint: the session `id` goes online.
  unfoldable pub accept :
      ℕ → TokenInfo → Connect → FingerprintPayload → Hub → Option Store → Hub × Outcome
  unfolding put_session
  accept id info c p h none = (h, bind_failed)
  accept id info c p h (some store) =
      let version = first_non_empty c.agent_version p.version in
      let s : Session = record {
        id = id;
        proxy_id = info.proxy_id;
        fingerprint = p.fingerprint;
        name = if str_eq p.name [] then info.name else p.name;
        version = version;
      } in
      (
        record h {
          store = touch_proxy info.proxy_id version store;
          registry = put_session s h.registry;
        },
        connected s,
      )

  -- The tests of the fingerprint.
  unfoldable pub check_reply :
      ℕ → TokenInfo → Connect → Hub → Option FingerprintPayload → Hub × Outcome
  unfolding accept str_eq
  check_reply id info c h none = (h, bad_fingerprint)
  check_reply id info c h (some p) =
      if str_eq p.fingerprint []
      then (h, bad_fingerprint)
      else if ltb (length p.fingerprint) 32 || ltb 128 (length p.fingerprint)
      then (h, bad_fingerprint)
      else if not info.universal
          && (not (str_eq info.fingerprint []) && not (str_eq info.fingerprint p.fingerprint))
      then (h, fingerprint_mismatch)
      else accept id info c p h (
          bind_fingerprint info.proxy_id p.fingerprint
            (if str_eq p.name [] then info.name else p.name) p.hostname h.store)

  unfoldable pub check_token : ℕ → Connect → Hub → Option TokenInfo → Hub × Outcome
  unfolding check_reply
  check_token id c h none = (h, invalid_token)
  check_token id c h (some info) =
      if not c.upgraded then (h, not_upgraded) else check_reply id info c h c.reply

  -- HandleConnect for the session number `id`.
  unfoldable pub handle_connect : ℕ → Instant → Connect → Hub → Hub × Outcome
  unfolding allow_connect token_of check_token str_eq
  handle_connect id now c h =
      let (limit, let_in) = allow_connect c.ip now h.limit in
      let h' : Hub = record h { limit = limit } in
      if not (str_eq c.method (bytes "GET"))
      then (h, method_not_allowed)
      else if not let_in
      then (h', rate_limited)
      else if str_eq (token_of c) []
      then (h', missing_token)
      else check_token id c h' (lookup_token (hash_token (token_of c)) h.store)
