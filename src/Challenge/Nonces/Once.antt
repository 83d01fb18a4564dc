-- ===== src/Challenge/Nonces/Once.antt =====
-- A token is redeemed once.
use Prim.Native.Nat.{◌^◌}
use ravenguard.Common.{
  ℕ, ◌+◌, ◌≤◌, ◌<◌, ◌≡◌, ◌⊎◌, refl, Bool, true, false, ◌&&◌, not, none, some, List, [], ◌∷◌, arith,
  ◌==◌, if◌then◌else◌, Bytes, str_eq, str_eq_refl, str_eq_iff, Bool-cases, inl, inr, sym,
}
use ravenguard.Common.Sharded
use ravenguard.Common.Sharded.{get-put, get-keep}
use ravenguard.Common.Int64.{Int64, ltb_int, past_later}
use ravenguard.Challenge.Nonces.{
  Token, NonceStore, Consumption, consumed, err_expired, err_replay, consume_entry, consume, sweep,
  expiry, consume_nonce,
}

-- A call with its reading of the clock, in seconds.
pub data NonceOp : Type 0 where
  do_consume : Token → Int64 → NonceOp
  do_sweep : Int64 → NonceOp

abbrev pub second_of : NonceOp → Int64
second_of (do_consume token now) = now
second_of (do_sweep now) = now

-- The clock does not go back.
abbrev IsOrdered : Int64 → List NonceOp → Type 0
IsOrdered from [] = Unit
IsOrdered from (op ∷ ops) =
    (from ≤ second_of op) × (second_of op < 2 ^ 63) × IsOrdered (second_of op) ops

abbrev pub is_token : Token → Token → Bool
is_token token other = str_eq token.nonce other.nonce && (token.issued_at == other.issued_at)

abbrev pub is_consumed : Consumption → Bool
is_consumed consumed = true
is_consumed err_expired = false
is_consumed err_replay = false

unfoldable pub step : NonceOp → NonceStore → NonceStore
step (do_consume token now) s = (consume_nonce token now s).0
step (do_sweep now) s = sweep now s

-- Whether a call redeems a given token.
unfoldable pub redeems : Token → NonceOp → NonceStore → Bool
redeems token (do_consume other now) s =
    is_token token other && is_consumed (consume_nonce other now s).1
redeems token (do_sweep now) s = false

-- How often a run of calls redeems a token.
unfoldable pub uses : Token → List NonceOp → NonceStore → ℕ
uses token [] s = 0
uses token (op ∷ ops) s = (if redeems token op s then 1 else 0) + uses token ops (step op s)

-- A token that can not be redeemed again.
abbrev Spent : Token → Int64 → NonceStore → Type 0
Spent token now s =
    (Sharded.get token.nonce s ≡ some (expiry token)) ⊎ (ltb_int (expiry token) now ≡ true)

abbrev is_fresh : Token → Int64 → NonceStore → Bool
is_fresh token now s =
    not (ltb_int (expiry token) now)
    && elim (Sharded.get token.nonce s) [ none ↦ true | some used ↦ false ]

consume_nonce-answer :
    (token : Token) (now : Int64) (s : NonceStore)
    → is_consumed (consume_nonce token now s).1 ≡ is_fresh token now s
unfolding consume_nonce consume consume_entry
consume_nonce-answer token now s = ground arith

consume_nonce-store :
    (token : Token) (now : Int64) (s : NonceStore)
    → (consume_nonce token now s).0
      ≡ (if is_fresh token now s then Sharded.put token.nonce (expiry token) s else s)
unfolding consume_nonce consume consume_entry
consume_nonce-store token now s = ground arith

entry_stays :
    (n : Bytes) (e : Int64) (other : Token) (now : Int64) (s : NonceStore)
    → Sharded.get n s ≡ some e
    → Sharded.get n (consume_nonce other now s).0 ≡ some e
entry_stays n e other now s h =
    rw (consume_nonce-store other now s)
      (ground (arith, h, str_eq_iff other.nonce n, get-put other.nonce n (expiry other) s))

Spent-step :
    (token : Token) (from : Int64) (op : NonceOp) (s : NonceStore)
    → from ≤ second_of op
    → second_of op < 2 ^ 63
    → Spent token from s
    → Spent token (second_of op) (step op s)
unfolding step sweep
Spent-step token from op s le fits (inr over) =
    inr (past_later (expiry token) from (second_of op) le fits over)
Spent-step token from (do_consume other now) s le fits (inl e) =
    inl (entry_stays token.nonce (expiry token) other now s e)
Spent-step token from (do_sweep now) s le fits (inl e) =
    elim (Bool-cases (ltb_int (expiry token) now)) [
      | inl p ↦ inr p
      | inr p ↦ inl (rw (get-keep (λ _ exp. not (ltb_int exp now)) token.nonce s, e, p))
    ]

same_token :
    (token other : Token)
    → is_token token other ≡ true
    → (token.nonce ≡ other.nonce) × (expiry token ≡ expiry other)
same_token token other same = ground (arith, same, str_eq_iff token.nonce other.nonce)

Spent-stale :
    (token : Token) (from now : Int64) (s : NonceStore)
    → from ≤ now
    → now < 2 ^ 63
    → Spent token from s
    → is_fresh token now s ≡ false
Spent-stale token from now s le fits (inl e) = ground (arith, e)
Spent-stale token from now s le fits (inr over) =
    let later = past_later (expiry token) from now le fits over in rw later refl

Spent-redeems :
    (token : Token) (from : Int64) (op : NonceOp) (s : NonceStore)
    → from ≤ second_of op
    → second_of op < 2 ^ 63
    → Spent token from s
    → redeems token op s ≡ false
unfolding redeems
Spent-redeems token from (do_sweep now) s le fits spent = refl
Spent-redeems token from (do_consume other now) s le fits spent =
    elim (Bool-cases (is_token token other)) [
      | inr p ↦ rw p refl
      | inl p ↦
          let (nonce_eq, expiry_eq) = same_token token other p in
          rw (p, consume_nonce-answer other now s, sym nonce_eq, sym expiry_eq)
            (Spent-stale token from now s le fits spent)
    ]

redeems-Spent :
    (token : Token) (op : NonceOp) (s : NonceStore)
    → redeems token op s ≡ true
    → Spent token (second_of op) (step op s)
unfolding redeems step
redeems-Spent token (do_sweep now) s used = ground (arith, used)
redeems-Spent token (do_consume other now) s used =
    let answer = consume_nonce-answer other now s in
    let (same, fresh) : (is_token token other ≡ true) × (is_fresh other now s ≡ true) =
      ground (arith, used, answer) in
    let (nonce_eq, expiry_eq) = same_token token other same in
    inl (rw (nonce_eq, expiry_eq, consume_nonce-store other now s, fresh, get-put, str_eq_refl))

Spent-uses :
    (token : Token) (from : Int64) (ops : List NonceOp) (s : NonceStore)
    → IsOrdered from ops
    → Spent token from s
    → uses token ops s ≡ 0
unfolding uses
Spent-uses token from [] s order spent = refl
Spent-uses token from (op ∷ ops) s (le, fits, order) spent = rw (
  Spent-redeems token from op s le fits spent,
  Spent-uses token (second_of op) ops (step op s) order (Spent-step token from op s le fits spent),
)

-- However calls of ConsumeNonce, with any tokens, and sweeps follow each other, and whatever
-- nonces are stored before them, a token is redeemed at most once, as long as the clock does not
-- go back.
pub uses_once :
    (token : Token) (from : Int64) (ops : List NonceOp) (s : NonceStore)
    → IsOrdered from ops
    → uses token ops s ≤ 1
unfolding uses
uses_once token from [] s order = omega arith
uses_once token from (op ∷ ops) s (le, fits, order) = elim (Bool-cases (redeems token op s)) [
  | inl p ↦
      rw (p, Spent-uses token (second_of op) ops (step op s) order (redeems-Spent token op s p))
        (omega arith)
  | inr p ↦
      let rest = uses_once token (second_of op) ops (step op s) order in rw p (omega (arith, rest))
]
