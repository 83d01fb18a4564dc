-- ===== src/Challenge/Token/RoundTrip.antt =====
-- ParseToken reads what Issue writes.
use Prim.Native.Nat.{◌^◌}
use ravenguard.Common.{
  refl, ◌<◌, ◌≡◌, Option, none, some, [], ◌∷◌, arith, if◌then◌else◌, Bytes, str_eq_refl, sym,
}
use ravenguard.Common.Int64.{Int64, sub_int, ltb_int}
use ravenguard.Challenge.Nonces.{Token, token_ttl}
use ravenguard.Common.Strings.{format_int, split}
use ravenguard.Common.Strings.Decimal.{parse_int-format_int}
use ravenguard.Common.Strings.Parts.{
  dot, IsDotFree, split-joined, split-IsFree, format_int-IsFree, hex-IsFree,
}
use ravenguard.Challenge.Token.{
  parsed, err_token_expired, sign, payload, issue, parse_token, new_token,
}

module _ (hmac : Bytes → Bytes → Bytes) where
  pub split-payload :
      (secret client : Bytes) (t : Token)
      → IsDotFree t.nonce
      → split dot (payload hmac secret client t)
        ≡ t.nonce
          ∷ format_int t.issued_at
          ∷ format_int t.difficulty
          ∷ sign hmac secret t.nonce t.issued_at t.difficulty client
          ∷ []
  unfolding payload sign
  split-payload secret client t free = rw (
    split-joined dot t.nonce _ free,
    split-joined dot (format_int t.issued_at) _ (format_int-IsFree dot refl t.issued_at),
    split-joined dot (format_int t.difficulty) _ (format_int-IsFree dot refl t.difficulty),
    split-IsFree dot _ (hex-IsFree dot refl _),
  )

  parse_token-payload :
      (secret client : Bytes) (now : Int64) (t : Token)
      → IsDotFree t.nonce
      → t.issued_at < 2 ^ 64
      → t.difficulty < 2 ^ 64
      → parse_token hmac secret client now (payload hmac secret client t)
        ≡ (if ltb_int token_ttl (sub_int now t.issued_at) then err_token_expired else parsed t)
  unfolding parse_token
  parse_token-payload secret client now t free issued difficulty = rw (
    split-payload secret client t free,
    parse_int-format_int t.issued_at issued,
    parse_int-format_int t.difficulty difficulty,
    str_eq_refl (sign hmac secret t.nonce t.issued_at t.difficulty client),
  )

  -- The text that Issue gives out for a client, parsed for that client with the same secret, gives
  -- the issued token back for 300 seconds, and the error of an expired token after them; so no
  -- token is refused as invalid.
  pub parse_token-issue :
      (secret client raw : Bytes) (difficulty now later : Int64) (random : Option Bytes) (t : Token)
      → difficulty < 2 ^ 64
      → now < 2 ^ 64
      → issue hmac secret difficulty client random now ≡ some (t, raw)
      → parse_token hmac secret client later raw
        ≡ (if ltb_int token_ttl (sub_int later now) then err_token_expired else parsed t)
  unfolding issue
  parse_token-issue secret client raw difficulty now later none t d n e = ground (arith, e)
  parse_token-issue secret client raw difficulty now later (some random) t d n e =
      let token = new_token hmac random now difficulty in
      let result = parse_token-payload secret client later token (hex-IsFree dot refl random) n d in
      let same : token ≡ t = cc in
      let text : payload hmac secret client token ≡ raw = cc in rw (sym text, sym same) result
