-- ===== src/Challenge/Nonces.antt =====
-- The nonces of the tokens that were redeemed, with the second at which each token expires:
-- ConsumeNonce and SweepNonces of internal/challenge/challenge.go. The risk cache, which
-- SweepNonces also sweeps, is a part of its own.
pub mod Once
use ravenguard.Common.{Bool, true, false, not, Option, none, some, ltb, if◌then◌else◌, Bytes}
use ravenguard.Common.Sharded
use ravenguard.Common.Sharded.{Sharded}
use ravenguard.Common.Int64.{Int64, add_int, ltb_int}

pub record Token : Type 0 where
  pub nonce : Bytes
  pub issued_at : Int64
  pub difficulty : Int64

abbrev pub token_ttl : Int64
token_ttl = 300

abbrev pub NonceStore : Type 0
NonceStore = Sharded Int64

unfoldable pub consume_entry : Bytes → Int64 → NonceStore → Option Int64 → NonceStore × Bool
consume_entry nonce exp s none = (Sharded.put nonce exp s, true)
consume_entry nonce exp s (some used) = (s, false)

-- nonceStore.consume
unfoldable pub consume : Bytes → Int64 → NonceStore → NonceStore × Bool
unfolding consume_entry
consume nonce exp s = consume_entry nonce exp s (Sharded.get nonce s)

-- nonceStore.sweep
unfoldable pub sweep : Int64 → NonceStore → NonceStore
sweep now s = Sharded.keep (λ _ exp. not (ltb_int exp now)) s

pub data Consumption : Type 0 where
  consumed err_expired err_replay : Consumption

abbrev pub expiry : Token → Int64
expiry token = add_int token.issued_at token_ttl

-- Manager.ConsumeNonce
unfoldable pub consume_nonce : Token → Int64 → NonceStore → NonceStore × Consumption
consume_nonce token now s =
    if ltb_int (expiry token) now
    then (s, err_expired)
    else let (s', ok) = consume token.nonce (expiry token) s in
      (s', if ok then consumed else err_replay)
