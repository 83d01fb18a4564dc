-- ===== src/RateLimit/Bound.antt =====
-- The rate that a client gets over any run of requests.
use ravenguard.Common.{
  ℕ, ◌+◌, ◌≤◌, ◌≡◌, refl, Bool, true, false, ◌&&◌, Option, none, some, List, [], ◌∷◌, arith,
  if◌then◌else◌, Instant, Bool-cases, inl, inr, ap, ◌∙◌, Bytes, str_eq, str_eq_iff,
}
use native.Mathlib.Nat.{add_assoc}
use ravenguard.Common.Sharded
use ravenguard.Common.Sharded.{get-put}
use ravenguard.RateLimit.Floats.{Arithmetic, IsExact}
use ravenguard.RateLimit.{
  LiveCfg, charge, ClientBucket, Limiter, bucket_allow, bucket_or_full, allow_n, cost_of, path_key,
}
use ravenguard.RateLimit.Refill.{
  AtMost, Ledger, earned, refill_allow-Ledger, refill_allow-last, Ledger-less, full-Ledger,
  Ledger-spent, nothing_spent,
}

pub record Call : Type 0 where
  pub ip : Bytes
  pub path : Bytes
  pub cost : ℕ
  pub at : Instant

-- The calls come in the order of their times, none before `from`.
abbrev pub IsOrdered : Instant → List Call → Type 0
IsOrdered from [] = Unit
IsOrdered from (c ∷ cs) = (from ≤ c.at) × IsOrdered c.at cs

abbrev pub end_of : Instant → List Call → Instant
end_of from [] = from
end_of from (c ∷ cs) = end_of c.at cs

module _ (A : Arithmetic) where
  open A use {Num, of_int}

  abbrev pub answer : Call → Limiter Num → Limiter Num × Bool
  answer c l = allow_n A c.ip c.path c.cost c.at l

  -- The cost of the calls of one client that are let through.
  unfoldable pub granted : Bytes → List Call → Limiter Num → ℕ
  granted ip [] l = 0
  granted ip (c ∷ cs) l =
      (if str_eq c.ip ip && (answer c l).1 then cost_of A c.cost else 0)
      + granted ip cs (answer c l).0

module _ (A : Arithmetic) (exact : IsExact A) where
  open A use {Num, of_int}

  own_after :
      (cfg : LiveCfg Num) (path : Bytes) (cost : ℕ) (now : Instant) (b : ClientBucket Num)
      → (bucket_allow A cfg path cost now b).0.own ≡ (charge A cfg cost now b.own).0
  unfolding bucket_allow
  own_after cfg path cost now b = elim (Bool-cases cfg.per_path) [ inl p ↦ rw p | inr p ↦ rw p ]

  -- The client's own charge passes whenever the request does.
  spent-le :
      (cfg : LiveCfg Num) (path : Bytes) (spent cost : ℕ) (now : Instant) (b : ClientBucket Num)
      → (if (bucket_allow A cfg path cost now b).1 then spent + cost else spent)
        ≤ (if (charge A cfg cost now b.own).1 then spent + cost else spent)
  unfolding bucket_allow
  spent-le cfg path spent cost now b = elim (Bool-cases cfg.per_path) [
    | inl p ↦ rw p (both (charge A cfg cost now b.own).1 _)
    | inr p ↦ rw p (omega arith)
  ]
    where
      both :
          (x y : Bool)
          → (if x && y then spent + cost else spent) ≤ (if x then spent + cost else spent)
      both true true = omega arith
      both true false = omega arith
      both false y = omega arith

  bucket_allow-Ledger :
      (cfg : LiveCfg Num) (path : Bytes) (from now : Instant) (spent cost : ℕ)
      (b : ClientBucket Num)
      → Ledger A exact cfg.rate cfg.burst_f from spent b.own
      → b.own.last ≤ now
      → Ledger A exact cfg.rate cfg.burst_f from
          (if (bucket_allow A cfg path cost now b).1 then spent + cost else spent)
          (bucket_allow A cfg path cost now b).0.own
  bucket_allow-Ledger cfg path from now spent cost b l le = rw (own_after cfg path cost now b) (
      Ledger-less A exact cfg.rate cfg.burst_f from _ _ _ (spent-le cfg path spent cost now b)
        (refill_allow-Ledger A exact cfg.rate cfg.burst_f from now spent cost b.own l le))

  -- What is known of a client between two calls.
  abbrev Account : LiveCfg Num → Instant → Instant → ℕ → Option (ClientBucket Num) → Type 0
  Account cfg from now spent none = spent ≡ 0
  Account cfg from now spent (some b) =
      Ledger A exact cfg.rate cfg.burst_f from spent b.own × (b.own.last ≤ now)

  add_if : (b : Bool) (m n : ℕ) → m + (if b then n else 0) ≡ (if b then m + n else m)
  add_if true m n = refl
  add_if false m n = omega arith

  last_after :
      (cfg : LiveCfg Num) (path : Bytes) (cost : ℕ) (now : Instant) (b : ClientBucket Num)
      → (bucket_allow A cfg path cost now b).0.own.last ≤ now
  last_after cfg path cost now b =
      rw
        (
          own_after cfg path cost now b,
          refill_allow-last A exact cfg.rate cfg.burst_f (of_int cost) now b.own,
        )
        (omega arith)

  new-Account :
      (cfg : LiveCfg Num) (path : Bytes) (from now : Instant) (spent cost : ℕ)
      (b : ClientBucket Num)
      → Ledger A exact cfg.rate cfg.burst_f from spent b.own
      → b.own.last ≤ now
      → Account cfg from now
          (spent + (if (bucket_allow A cfg path cost now b).1 then cost else 0))
          (some (bucket_allow A cfg path cost now b).0)
  new-Account cfg path from now spent cost b l le = (
    rw (add_if (bucket_allow A cfg path cost now b).1 spent cost)
        (bucket_allow-Ledger cfg path from now spent cost b l le),
    last_after cfg path cost now b,
  )

  -- The account after a call of the client itself.
  Account-own :
      (cfg : LiveCfg Num) (path : Bytes) (from before now : Instant) (spent cost : ℕ)
      (o : Option (ClientBucket Num))
      → from ≤ before
      → before ≤ now
      → Account cfg from before spent o
      → Account cfg from now
          (spent
            + (if (bucket_allow A cfg path cost now (bucket_or_full A cfg now o)).1
                then cost
                else 0))
          (some (bucket_allow A cfg path cost now (bucket_or_full A cfg now o)).0)
  Account-own cfg path from before now spent cost none p q acc = rw acc (
      new-Account cfg path from now 0 cost _
        (full-Ledger A exact cfg.rate cfg.burst_f from now (omega arith)) (omega arith))
  Account-own cfg path from before now spent cost (some b) p q (l, le) =
      new-Account cfg path from now spent cost b l (omega arith)

  Account-later :
      (cfg : LiveCfg Num) (from before now : Instant) (spent : ℕ) (o : Option (ClientBucket Num))
      → before ≤ now
      → Account cfg from before spent o
      → Account cfg from now spent o
  Account-later cfg from before now spent none q acc = acc
  Account-later cfg from before now spent (some b) q (l, le) = (l, omega arith)

  Account-spent :
      (cfg : LiveCfg Num) (from now : Instant) (spent : ℕ) (o : Option (ClientBucket Num))
      → Account cfg from now spent o
      → AtMost A exact (of_int spent) (earned A exact cfg.rate cfg.burst_f from now)
  Account-spent cfg from now spent none e = rw e (nothing_spent A exact _)
  Account-spent cfg from now spent (some b) (l, le) =
      Ledger-spent A exact cfg.rate cfg.burst_f from now spent b.own l le

  granted_from :
      (ip : Bytes) (calls : List Call) (l : Limiter Num) (from now : Instant) (spent : ℕ)
      → from ≤ now
      → IsOrdered now calls
      → Account l.live from now spent (Sharded.get ip l.shards)
      → AtMost A exact
          (of_int (spent + granted A ip calls l))
          (earned A exact l.live.rate l.live.burst_f from (end_of now calls))
  unfolding granted allow_n
  granted_from ip [] l from now spent le order acc =
      let none_more : spent + 0 ≡ spent = omega arith in
      rw none_more (Account-spent l.live from now spent (Sharded.get ip l.shards) acc)
  granted_from ip (c ∷ cs) l from now spent le (later, order) acc =
      let key = path_key A c.path in
      let b = bucket_or_full A l.live c.at (Sharded.get c.ip l.shards) in
      let after = bucket_allow A l.live key (cost_of A c.cost) c.at b in
      let stored = get-put c.ip ip after.0 l.shards in
      let rest = granted_from ip cs (answer A c l).0 from c.at in
      elim (Bool-cases (str_eq c.ip ip)) [
        | inl p ↦
            let same = (str_eq_iff c.ip ip).0 p in
            let known : Account l.live from now spent (Sharded.get c.ip l.shards) = rw same acc in
            let paid =
              Account-own l.live key from now c.at spent (cost_of A c.cost) _ le later known in
            let found =
              stored ∙ ap (λ (x : Bool). if x then some after.0 else Sharded.get ip l.shards) p in
            rw (p, ← add_assoc spent (if after.1 then cost_of A c.cost else 0) _)
              (rest _ (omega arith) order (rw found paid))
        | inr p ↦
            let found =
              stored ∙ ap (λ (x : Bool). if x then some after.0 else Sharded.get ip l.shards) p in
            let none_more : (n : ℕ) → spent + (0 + n) ≡ spent + n = λ n. omega arith in
            rw (p, none_more _)
              (rest _ (omega arith) order
                (rw found (Account-later l.live from now c.at spent _ later acc)))
      ]

  -- Under exact arithmetic, the cost of the calls of a new client that are let through, whatever
  -- their paths and whatever the calls of other clients between them, is at most a full bucket and
  -- the rate times the time from a start before the first call to the last call.
  pub granted_bound :
      (ip : Bytes) (calls : List Call) (l : Limiter Num) (from : Instant)
      → IsOrdered from calls
      → Sharded.get ip l.shards ≡ none
      → AtMost A exact
          (of_int (granted A ip calls l))
          (earned A exact l.live.rate l.live.burst_f from (end_of from calls))
  granted_bound ip calls l from order new =
      let zero_more : 0 + granted A ip calls l ≡ granted A ip calls l = omega arith in
      rw zero_more at (granted_from ip calls l from from 0 (omega arith) order (rw new refl))
