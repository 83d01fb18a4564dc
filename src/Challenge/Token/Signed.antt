-- ===== src/Challenge/Token/Signed.antt =====
-- What a signature vouches for.
use Prim.Native.Nat.{◌^◌}
use ravenguard.Common.{
  refl, ◌<◌, ◌≡◌, false, Option, none, some, List, [], ◌∷◌, arith, Bytes, str_eq, str_eq_iff, sym,
  ap, ◌∙◌, All, Bool-cases, inl, inr,
}
use ravenguard.Common.Int64.{Int64, sub_int, ltb_int}
use ravenguard.Challenge.Nonces.{Token, token_ttl}
use ravenguard.Common.Strings.{format_int, parse_int, split, hex}
use ravenguard.Common.Strings.Decimal.{parse_int-format_int, parse_int-fits}
use ravenguard.Common.Strings.Parts.{
  dot, IsFree, IsDotFree, joined-injective, format_int-IsFree, hex-IsFree, parts-IsFree,
}
use ravenguard.Challenge.Token.{
  parsed, message, sign, parse_fields, parse_parts, parse_token, payload, issue, new_token,
}
use ravenguard.Challenge.Token.RoundTrip.{split-payload}

format_int-injective : (m n : Int64) → m < 2 ^ 64 → n < 2 ^ 64 → format_int m ≡ format_int n → m ≡ n
format_int-injective m n hm hn e =
    let left = parse_int-format_int m hm in
    let right = parse_int-format_int n hn in
    let same : some m ≡ some n = sym left ∙ ap parse_int e ∙ right in cc

-- The text that is signed tells the nonce, the time, the difficulty and the client apart: two
-- tokens with the same text, whose nonces are free of dots, agree in all of them.
pub message-injective :
    (nonce nonce' : Bytes) (issued issued' difficulty difficulty' : Int64) (client client' : Bytes)
    → IsDotFree nonce
    → IsDotFree nonce'
    → issued < 2 ^ 64
    → issued' < 2 ^ 64
    → difficulty < 2 ^ 64
    → difficulty' < 2 ^ 64
    → message nonce issued difficulty client ≡ message nonce' issued' difficulty' client'
    → (nonce ≡ nonce') × (issued ≡ issued') × (difficulty ≡ difficulty') × (client ≡ client')
unfolding message
message-injective n n' i i' d d' c c' hn hn' hi hi' hd hd' e =
    let (nonces, rest) = joined-injective dot n n' _ _ hn hn' e in
    let (times, rest') =
      joined-injective dot (format_int i) (format_int i') _ _ (format_int-IsFree dot refl i)
        (format_int-IsFree dot refl i') rest in
    let (difficulties, clients) =
      joined-injective dot (format_int d) (format_int d') _ _ (format_int-IsFree dot refl d)
        (format_int-IsFree dot refl d') rest' in
    (
      nonces,
      format_int-injective i i' hi hi' times,
      format_int-injective d d' hd hd' difficulties,
      clients,
    )

abbrev pub last_part : List Bytes → Bytes
last_part [] = []
last_part (p ∷ []) = p
last_part (p ∷ q ∷ ps) = last_part (q ∷ ps)

module _ (hmac : Bytes → Bytes → Bytes) where
  -- What a text that is parsed as a token says of the token.
  record Signed (secret client : Bytes) (now : Int64) (last : Bytes) (t : Token) : Type 0 where
    free : IsDotFree t.nonce
    issued : t.issued_at < 2 ^ 64
    difficulty : t.difficulty < 2 ^ 64
    signature : last ≡ sign hmac secret t.nonce t.issued_at t.difficulty client
    fresh : ltb_int token_ttl (sub_int now t.issued_at) ≡ false

  parsed-injective : (t u : Token) → parsed t ≡ parsed u → t ≡ u
  parsed-injective t u e = cc

  fields-Signed :
      (secret client nonce sig : Bytes) (now : Int64) (issued difficulty : Option Int64) (t : Token)
      → IsDotFree nonce
      → ((n : Int64) → issued ≡ some n → n < 2 ^ 64)
      → ((n : Int64) → difficulty ≡ some n → n < 2 ^ 64)
      → parse_fields hmac secret client now nonce issued difficulty sig ≡ parsed t
      → Signed secret client now sig t
  unfolding parse_fields
  fields-Signed secret client nonce sig now none d t f p q e = ground (arith, e)
  fields-Signed secret client nonce sig now (some i) none t f p q e = ground (arith, e)
  fields-Signed secret client nonce sig now (some i) (some d) t f p q e =
      elim (Bool-cases (str_eq (sign hmac secret nonce i d client) sig)) [
        | inl same ↦ elim (Bool-cases (ltb_int token_ttl (sub_int now i))) [
          | inl late ↦ ground (arith, rw (same, late) at e)
          | inr fresh ↦
              let token : record { nonce = nonce; issued_at = i; difficulty = d } ≡ t =
                parsed-injective _ t (rw (same, fresh) at e) in
              rw (← token) (record {
                free = f;
                issued = p i refl;
                difficulty = q d refl;
                signature = sym ((str_eq_iff (sign hmac secret nonce i d client) sig).0 same);
                fresh = fresh;
              })
        ]
        | inr other ↦ ground (arith, rw other at e)
      ]

  parts-Signed :
      (secret client : Bytes) (now : Int64) (ps : List Bytes) (t : Token)
      → All (IsFree dot) ps
      → parse_parts hmac secret client now ps ≡ parsed t
      → Signed secret client now (last_part ps) t
  unfolding parse_parts
  parts-Signed secret client now [] t f e = ground (arith, e)
  parts-Signed secret client now (a ∷ []) t f e = ground (arith, e)
  parts-Signed secret client now (a ∷ b ∷ []) t f e = ground (arith, e)
  parts-Signed secret client now (a ∷ b ∷ c ∷ []) t f e = ground (arith, e)
  parts-Signed secret client now (a ∷ b ∷ c ∷ d ∷ []) t f e =
      fields-Signed secret client a d now (parse_int b) (parse_int c) t f.0 (parse_int-fits b)
        (parse_int-fits c) e
  parts-Signed secret client now (a ∷ b ∷ c ∷ d ∷ g ∷ more) t f e = ground (arith, e)

  same_token :
      (t u : Token)
      → t.nonce ≡ u.nonce
      → t.issued_at ≡ u.issued_at
      → t.difficulty ≡ u.difficulty
      → t ≡ u
  same_token t u a b c = λ i. record { nonce = a i; issued_at = b i; difficulty = c i }

  -- Another text for the token of a text that was given out.
  parsed-issued :
      (secret client owner raw : Bytes) (now : Int64) (t u : Token)
      → IsDotFree u.nonce
      → u.issued_at < 2 ^ 64
      → u.difficulty < 2 ^ 64
      → ((m : Bytes)
          → hex (hmac secret m) ≡ sign hmac secret u.nonce u.issued_at u.difficulty owner
          → m ≡ message u.nonce u.issued_at u.difficulty owner)
      → last_part (split dot raw) ≡ last_part (split dot (payload hmac secret owner u))
      → parse_token hmac secret client now raw ≡ parsed t
      → (t ≡ u) × (client ≡ owner) × (ltb_int token_ttl (sub_int now u.issued_at) ≡ false)
  unfolding parse_token sign
  parsed-issued secret client owner raw now t u free issued difficulty alone last e =
      let s = parts-Signed secret client now (split dot raw) t (parts-IsFree dot raw) e in
      let given = ap last_part (split-payload hmac secret owner u free) in
      let text =
        alone (message t.nonce t.issued_at t.difficulty client)
          (sym s.signature ∙ (last ∙ given)) in
      let (nonces, times, difficulties, clients) =
        message-injective t.nonce u.nonce t.issued_at u.issued_at t.difficulty u.difficulty client
          owner s.free free s.issued issued s.difficulty difficulty text in
      (same_token t u nonces times difficulties, clients, rw (← times) s.fresh)

  -- A text that ends in the signature of a text that Issue gave out is parsed, if it is parsed at all,
  -- as the issued token, for the client that it was issued for, and within 300 seconds; provided that
  -- the code of no other message is that of the issued one.
  pub parse_token-signed :
      (secret client owner raw given : Bytes) (now at difficulty : Int64) (random : Option Bytes)
      (t u : Token)
      → difficulty < 2 ^ 64
      → at < 2 ^ 64
      → issue hmac secret difficulty owner random at ≡ some (u, given)
      → ((m : Bytes)
          → hex (hmac secret m) ≡ sign hmac secret u.nonce u.issued_at u.difficulty owner
          → m ≡ message u.nonce u.issued_at u.difficulty owner)
      → last_part (split dot raw) ≡ last_part (split dot given)
      → parse_token hmac secret client now raw ≡ parsed t
      → (t ≡ u) × (client ≡ owner) × (ltb_int 300 (sub_int now at) ≡ false)
  unfolding issue
  parse_token-signed secret client owner raw given now at d none t u hd ha e alone last p =
      ground (arith, e)
  parse_token-signed secret client owner raw given now at d (some random) t u hd ha e alone last p =
      let token = new_token hmac random at d in
      let same : u ≡ token = cc in
      let text : given ≡ payload hmac secret owner token = cc in
      rw same (
        parsed-issued secret client owner raw now t token (hex-IsFree dot refl random) ha hd
          (rw same at alone) (rw text at last) p)
