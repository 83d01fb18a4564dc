-- ===== src/Challenge/Token.antt =====
-- Manager.Issue and Manager.ParseToken of internal/challenge/challenge.go. `hmac key message` is
-- HMAC-SHA256; times are Unix seconds.
pub mod RoundTrip
pub mod Signed
use ravenguard.Common.{
  ℕ, Bool, true, false, not, Option, none, some, List, [], ◌∷◌, ◌++◌, if◌then◌else◌, Bytes, str_eq,
}
use ravenguard.Common.Int64.{Int64, sub_int, ltb_int}
use ravenguard.Challenge.Nonces.{Token, token_ttl}
use ravenguard.Common.Strings.{format_int, parse_int, split, hex}
use ravenguard.Common.Strings.Parts.{dot, dotted}

pub data ParsedToken : Type 0 where
  parsed : Token → ParsedToken
  err_invalid err_token_expired : ParsedToken

-- What sign writes into the hash.
unfoldable pub message : Bytes → Int64 → Int64 → Bytes → Bytes
message nonce issued difficulty client =
    dotted nonce (dotted (format_int issued) (dotted (format_int difficulty) client))

module _ (hmac : Bytes → Bytes → Bytes) where
  -- sign
  unfoldable pub sign : Bytes → Bytes → Int64 → Int64 → Bytes → Bytes
  sign secret nonce issued difficulty client =
      hex (hmac secret (message nonce issued difficulty client))

  abbrev pub new_token : Bytes → Int64 → Int64 → Token
  new_token random now difficulty = record {
    nonce = hex random;
    issued_at = now;
    difficulty = difficulty;
  }

  -- "%s.%d.%d.%s"
  unfoldable pub payload : Bytes → Bytes → Token → Bytes
  payload secret client t = dotted t.nonce (
      dotted (format_int t.issued_at)
        (dotted (format_int t.difficulty) (sign secret t.nonce t.issued_at t.difficulty client)))

  -- Issue; `random` is what crypto/rand reads, if it does not fail.
  unfoldable pub issue : Bytes → Int64 → Bytes → Option Bytes → Int64 → Option (Token × Bytes)
  issue secret difficulty client none now = none
  issue secret difficulty client (some random) now =
      let t = new_token random now difficulty in some (t, payload secret client t)

  unfoldable pub parse_fields :
      Bytes → Bytes → Int64 → Bytes → Option Int64 → Option Int64 → Bytes → ParsedToken
  parse_fields secret client now nonce none difficulty sig = err_invalid
  parse_fields secret client now nonce (some issued) none sig = err_invalid
  parse_fields secret client now nonce (some issued) (some difficulty) sig =
      if not (str_eq (sign secret nonce issued difficulty client) sig)
      then err_invalid
      else if ltb_int token_ttl (sub_int now issued)
      then err_token_expired
      else parsed (record { nonce = nonce; issued_at = issued; difficulty = difficulty })

  unfoldable pub parse_parts : Bytes → Bytes → Int64 → List Bytes → ParsedToken
  unfolding parse_fields
  parse_parts secret client now [] = err_invalid
  parse_parts secret client now (a ∷ []) = err_invalid
  parse_parts secret client now (a ∷ b ∷ []) = err_invalid
  parse_parts secret client now (a ∷ b ∷ c ∷ []) = err_invalid
  parse_parts secret client now (a ∷ b ∷ c ∷ d ∷ []) =
      parse_fields secret client now a (parse_int b) (parse_int c) d
  parse_parts secret client now (a ∷ b ∷ c ∷ d ∷ e ∷ more) = err_invalid

  -- ParseToken
  unfoldable pub parse_token : Bytes → Bytes → Int64 → Bytes → ParsedToken
  unfolding parse_parts
  parse_token secret client now raw = parse_parts secret client now (split dot raw)
