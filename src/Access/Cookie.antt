-- ===== src/Access/Cookie.antt =====
-- What the clearance cookie of cookie.go vouches for.
use Prim.Native.Nat.{◌^◌}
use ravenguard.Common.{◌<◌, ◌≡◌, refl, ◌&&◌, not, [], ◌∷◌, Bytes, str_eq, str_eq_refl, arith}
use ravenguard.Common.Int64.{Int64, ltb_int}
use ravenguard.Common.Strings.{format_int, split}
use ravenguard.Common.Strings.Decimal.{parse_int-format_int}
use ravenguard.Common.Strings.Parts.{
  IsFree, joined, split-joined, split-IsFree, format_int-IsFree, hex-IsFree,
}
use ravenguard.Access.{mac, cookie_value, validate_parts, validate_cookie}

module _ (hmac : Bytes → Bytes → Bytes) where
  split-cookie_value :
      (secret policy bind : Bytes) (exp : Int64)
      → IsFree b'|' policy
      → split b'|' (cookie_value hmac secret policy bind exp)
        ≡ policy
          ∷ format_int exp
          ∷ mac hmac secret bind
          ∷ mac hmac secret
              (joined b'|' policy (joined b'|' (format_int exp) (mac hmac secret bind)))
          ∷ []
  unfolding cookie_value mac
  split-cookie_value secret policy bind exp free = rw (
    split-joined b'|' policy _ free,
    split-joined b'|' (format_int exp) _ (format_int-IsFree b'|' refl exp),
    split-joined b'|' _ _ (hex-IsFree b'|' refl _),
    split-IsFree b'|' _ (hex-IsFree b'|' refl _),
  )

  -- A cookie that IssueCookie made for a policy whose name has no bar, read later with the same
  -- secret for a policy and a client: it is accepted exactly when the policy is its own, its
  -- expiry is not past, and the client has the code of the client that it was made for.
  pub validate_cookie-cookie_value :
      (secret policy policy' bind bind' : Bytes) (exp now : Int64)
      → exp < 2 ^ 64
      → IsFree b'|' policy
      → validate_cookie hmac secret policy' bind' now (cookie_value hmac secret policy bind exp) ≡ (
          str_eq policy policy'
          && not (ltb_int exp now)
          && str_eq (mac hmac secret bind') (mac hmac secret bind))
  unfolding validate_cookie validate_parts
  validate_cookie-cookie_value secret policy policy' bind bind' exp now range free =
      rw
        (
          split-cookie_value secret policy bind exp free,
          parse_int-format_int exp range,
          str_eq_refl (
              mac hmac secret
                (joined b'|' policy (joined b'|' (format_int exp) (mac hmac secret bind)))),
        )
        (ground arith)
