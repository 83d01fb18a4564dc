-- ===== src/BodyBuf/Capture.antt =====
-- internal/bodybuf/bodybuf.go: what Capture returns and what it leaves of the body.
use ravenguard.Common.{
  ℕ, zero, suc, ◌≤◌, ◌≡◌, refl, sym, ap, ◌∙◌, true, false, ◌&&◌, Option, none, some, [], ◌∷◌, ◌++◌,
  leb, ltb, ◌==◌, if◌then◌else◌, Bytes, length, take, drop, arith, if_cases,
}
use ravenguard.BodyBuf.{
  Stream, Body, no_body, raw, memory, joined, Request, delivers, read_all, capture_stream, capture,
  is_no_body,
}

take-drop : (n : ℕ) (s : Bytes) → take n s ++ drop n s ≡ s
take-drop zero s = refl
take-drop (suc n) [] = refl
take-drop (suc n) (c ∷ s) = ap (λ t. c ∷ t) (take-drop n s)

take_all : (n : ℕ) (s : Bytes) → length s ≤ n → take n s ≡ s
take_all zero [] h = refl
take_all zero (c ∷ s) h = absurd (omega (arith, h))
take_all (suc n) [] h = refl
take_all (suc n) (c ∷ s) h = ap (λ t. c ∷ t) (take_all n s (omega (arith, h)))

drop_all : (n : ℕ) (s : Bytes) → length s ≤ n → drop n s ≡ []
drop_all zero [] h = refl
drop_all zero (c ∷ s) h = absurd (omega (arith, h))
drop_all (suc n) [] h = refl
drop_all (suc n) (c ∷ s) h = drop_all n s (omega (arith, h))

take-take : (n : ℕ) (s : Bytes) → take n (take (suc n) s) ≡ take n s
take-take zero s = refl
take-take (suc n) [] = refl
take-take (suc n) (c ∷ s) = ap (λ t. c ∷ t) (take-take n s)

-- A text whose first n + 1 bytes are at most n is no longer than that.
take_short : (n : ℕ) (s : Bytes) → length (take (suc n) s) ≤ n → length s ≤ n
take_short n [] h = omega arith
take_short zero (c ∷ s) h = absurd (omega (arith, h))
take_short (suc n) (c ∷ s) h = let k = take_short n s (omega (arith, h)) in omega (arith, k)

-- What Capture owes for a stream.
pub record IsCaptured (max : ℕ) (s : Stream) (r : Request × Option Bytes) : Type 0 where
  -- The captured bytes are the first ones, and the request delivers the whole stream.
  pub prefix : (b : Bytes) → r.1 ≡ some b → (b ≡ take max s.content) × (delivers r.0.body ≡ s)
  -- The only failure is an error of the stream before the limit.
  pub fails : (r.1 ≡ none → (length s.content ≤ max) × (s.broken ≡ true))

-- A read that fails: the stream ended before the limit, in an error.
failed_early :
    (max : ℕ) (s : Stream)
    → (ltb (length s.content) (suc max) && s.broken) ≡ true
    → (length s.content ≤ max) × (s.broken ≡ true)
failed_early max s h = ground (arith, h)

-- A read that does not fail and stays within the cap has the whole stream.
within :
    (max : ℕ) (s : Stream)
    → (ltb (length s.content) (suc max) && s.broken) ≡ false
    → leb (length (take (suc max) s.content)) max ≡ true
    → (take (suc max) s.content ≡ take max s.content)
      × (record { content = take (suc max) s.content; broken = false } ≡ s)
within max s h k =
    let short : length s.content ≤ max = take_short max s.content (ground (arith, k)) in
    let whole : take (suc max) s.content ≡ s.content =
      take_all (suc max) s.content (omega (arith, short)) in
    let ended : s.broken ≡ false = ground (arith, h, short) in
    (
      whole ∙ sym (take_all max s.content short),
      λ i. record { content = whole i; broken = sym ended i },
    )

captured :
    (max : ℕ) (s : Stream) (r : Request) (b : Bytes)
    → b ≡ take max s.content
    → delivers r.body ≡ s
    → IsCaptured max s (r, some b)
captured max s r b first all = record {
  prefix = λ c e. (cc, all);
  fails = λ e. absurd (ground (arith, e));
}

capture_stream-IsCaptured :
    (max : ℕ) (s : Stream) (r : Request) → IsCaptured max s (capture_stream max s r)
unfolding capture_stream read_all
capture_stream-IsCaptured max s r =
    let buf = take (suc max) s.content in
    let rest : Stream = record s { content = drop (suc max) s.content } in
    let whole : Request = record {
      body = memory buf;
      content_length = some (length buf);
      get_body = some buf;
    } in
    let longer : Request = record r { body = joined buf rest; get_body = none } in
    if_cases (IsCaptured max s) (ltb (length s.content) (suc max) && s.broken)
      (record r { body = raw rest }, none)
      (if leb (length buf) max then (whole, some buf) else (longer, some (take max buf)))
      (λ h. record {
        prefix = λ b e. absurd (ground (arith, e));
        fails = λ _. failed_early max s h;
      })
      (λ h.
        if_cases (IsCaptured max s) (leb (length buf) max) (whole, some buf)
          (longer, some (take max buf))
          (λ k. let w = within max s h k in captured max s whole buf w.0 w.1)
          (λ k.
            captured max s longer (take max buf) (take-take max s.content)
              (λ i. record s { content = take-drop (suc max) s.content i })))

take_nothing : (n : ℕ) (s : Bytes) → (n == 0) ≡ true → [] ≡ take n s
take_nothing zero s h = refl
take_nothing (suc n) s h = absurd (ground (arith, h))

no_body_empty : (max : ℕ) (b : Body) → is_no_body b ≡ true → [] ≡ take max (delivers b).content
no_body_empty zero b h = refl
no_body_empty (suc n) no_body h = refl
no_body_empty (suc n) (raw s) h = absurd (ground (arith, h))
no_body_empty (suc n) (memory c) h = absurd (ground (arith, h))
no_body_empty (suc n) (joined c s) h = absurd (ground (arith, h))

-- Capture hands over the first maxBytes bytes of a body and leaves a request that delivers the whole
-- body, whether it fits or not; it fails only if the stream breaks before more than maxBytes are read.
pub capture-IsCaptured : (max : ℕ) (r : Request) → IsCaptured max (delivers r.body) (capture max r)
unfolding capture
capture-IsCaptured max r =
    if_cases (IsCaptured max (delivers r.body)) (is_no_body r.body) (r, some [])
      (if max == 0 then (r, some []) else capture_stream max (delivers r.body) r)
      (λ h. captured max (delivers r.body) r [] (no_body_empty max r.body h) refl)
      (λ h.
        if_cases (IsCaptured max (delivers r.body)) (max == 0) (r, some [])
          (capture_stream max (delivers r.body) r)
          (λ k.
            captured max (delivers r.body) r [] (take_nothing max (delivers r.body).content k) refl)
          (λ k. capture_stream-IsCaptured max (delivers r.body) r))
