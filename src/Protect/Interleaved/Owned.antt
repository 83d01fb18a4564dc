-- ===== src/Protect/Interleaved/Owned.antt =====
-- What a step does to the global counter.
use ravenguard.Common.{
  ℕ, suc, ◌+◌, ◌≤◌, ◌≡◌, refl, true, Option, none, some, List, [], ◌∷◌, arith, ◌==◌, Bytes, str_eq,
  ap, sym, ◌∙◌, Bool-cases, inl, inr, ==_iff,
}
use ravenguard.Common.Int.{ℤ, pos, negsuc, inc, dec, ltb_ℤ}
use ravenguard.Common.Dict
use ravenguard.Protect.Config.{Config}
use ravenguard.Protect.Interleaved.{
  Shared, Stage, Request, advance, swap_global, load_or_store, add_client, still_there,
  load_released, arriving, read, counted, located, over, undone, taken, vanished, passed, refused,
  leaving, found, gone, same_ℤ,
}

-- Whether the request has a global slot.
unfoldable pub owns : Stage → ℕ
owns counted = 1
owns (located c) = 1
owns (over c) = 1
owns undone = 1
owns (taken c) = 1
owns (vanished c) = 1
owns passed = 1
owns arriving = 0
owns (read cur) = 0
owns refused = 0
owns leaving = 0
owns (found c) = 0
owns gone = 0

unfoldable pub slots : List Request → ℕ
unfolding owns
slots [] = 0
slots (r ∷ rs) = owns r.stage + slots rs

-- The counter counts the slots, of which there are no more than the limit.
pub record Total (cfg : Config) (n : ℕ) (s : Shared) : Type 0 where
  pub counts : s.global ≡ pos n
  pub bounded : n ≤ cfg.max_concurrent_global

same_ℤ-≡ : (a b : ℤ) → same_ℤ a b ≡ true → a ≡ b
same_ℤ-≡ (pos m) (pos n) h = ap pos ((==_iff m n).0 h)
same_ℤ-≡ (pos m) (negsuc n) h = ground (arith, h)
same_ℤ-≡ (negsuc m) (pos n) h = ground (arith, h)
same_ℤ-≡ (negsuc m) (negsuc n) h = ap negsuc ((==_iff m n).0 h)

-- A step of one request, beside others that have slots.
abbrev pub After : Config → ℕ → Shared × Stage → Type 0
After cfg rest r = Total cfg (owns r.1 + rest) r.0

pub Total-as :
    (cfg : Config) (m n : ℕ) (s s' : Shared)
    → m ≡ n
    → s'.global ≡ s.global
    → Total cfg m s
    → Total cfg n s'
Total-as cfg m n s s' e same t = record {
  counts = same ∙ (t.counts ∙ ap pos e);
  bounded = omega (arith, t.bounded);
}

-- A request gives its slot back.
give_back :
    (cfg : Config) (rest : ℕ) (s : Shared)
    → Total cfg (1 + rest) s
    → Total cfg (0 + rest) (record s { global = dec s.global })
unfolding dec
give_back cfg rest s t =
    let more : 1 + rest ≡ suc rest = omega arith in
    let none_more : rest ≡ 0 + rest = omega arith in
    record {
      counts = ap dec (t.counts ∙ ap pos more) ∙ ap pos none_more;
      bounded = omega (arith, t.bounded);
    }

take_slot :
    (cfg : Config) (cur : ℤ) (rest : ℕ) (s : Shared)
    → Total cfg (0 + rest) s
    → s.global ≡ cur
    → ltb_ℤ cur (pos cfg.max_concurrent_global) ≡ true
    → Total cfg (1 + rest) (record s { global = inc cur })
unfolding inc
take_slot cfg cur rest s t e room =
    let less : cur ≡ pos rest = sym e ∙ (t.counts ∙ ap pos (omega arith)) in
    let below : ltb_ℤ (pos rest) (pos cfg.max_concurrent_global) ≡ true = rw less at room in
    let more : suc rest ≡ 1 + rest = omega arith in
    record { counts = ap inc less ∙ ap pos more; bounded = ground (arith, below) }

swap-Total :
    (cfg : Config) (cur : ℤ) (rest : ℕ) (s : Shared)
    → Total cfg (0 + rest) s
    → After cfg rest (swap_global cfg cur s)
unfolding swap_global owns
swap-Total cfg cur rest s t = elim (Bool-cases (ltb_ℤ cur (pos cfg.max_concurrent_global))) [
  | inl p ↦ elim (Bool-cases (same_ℤ s.global cur)) [
    | inl q ↦ rw (p, q) (take_slot cfg cur rest s t (same_ℤ-≡ s.global cur q) p)
    | inr q ↦ rw (p, q) t
  ]
  | inr p ↦ rw p t
]

load-Total :
    (cfg : Config) (key : Bytes) (o : Option ℕ) (rest : ℕ) (s : Shared)
    → Total cfg (1 + rest) s
    → After cfg rest (load_or_store key o s)
unfolding load_or_store owns
load-Total cfg key none rest s t = record { counts = t.counts; bounded = t.bounded }
load-Total cfg key (some c) rest s t = t

add-Total :
    (cfg : Config) (c rest : ℕ) (s : Shared)
    → Total cfg (1 + rest) s
    → After cfg rest (add_client cfg c s)
unfolding add_client owns
add-Total cfg c rest s t =
    elim (Bool-cases (ltb_ℤ (pos cfg.max_concurrent_client) (inc (s.counters c)))) [
      | inl p ↦ rw p (record { counts = t.counts; bounded = t.bounded })
      | inr p ↦ rw p (record { counts = t.counts; bounded = t.bounded })
    ]

owns-still_there : (c : ℕ) (o : Option ℕ) → owns (still_there c o) ≡ 1
unfolding owns still_there
owns-still_there c none = refl
owns-still_there c (some d) = elim (Bool-cases (d == c)) [ inl p ↦ rw p refl | inr p ↦ rw p refl ]

owns-load_released : (o : Option ℕ) → owns (load_released o) ≡ 0
unfolding owns load_released
owns-load_released none = refl
owns-load_released (some c) = refl

pub advance-Total :
    (cfg : Config) (key : Bytes) (stage : Stage) (rest : ℕ) (s : Shared)
    → Total cfg (owns stage + rest) s
    → After cfg rest (advance cfg key stage s)
unfolding advance owns
advance-Total cfg key arriving rest s t = t
advance-Total cfg key (read cur) rest s t = swap-Total cfg cur rest s t
advance-Total cfg key counted rest s t = elim (Bool-cases (str_eq key [])) [
  | inl p ↦ rw p t
  | inr p ↦ rw p (load-Total cfg key (Dict.get key s.clients) rest s t)
]
advance-Total cfg key (located c) rest s t = add-Total cfg c rest s t
advance-Total cfg key (over c) rest s t = record { counts = t.counts; bounded = t.bounded }
advance-Total cfg key undone rest s t = give_back cfg rest s t
advance-Total cfg key (taken c) rest s t = rw (owns-still_there c (Dict.get key s.clients)) t
advance-Total cfg key (vanished c) rest s t = record { counts = t.counts; bounded = t.bounded }
advance-Total cfg key passed rest s t = give_back cfg rest s t
advance-Total cfg key leaving rest s t = elim (Bool-cases (str_eq key [])) [
  | inl p ↦ rw p t
  | inr p ↦ rw (p, owns-load_released (Dict.get key s.clients)) t
]
advance-Total cfg key (found c) rest s t = record { counts = t.counts; bounded = t.bounded }
advance-Total cfg key refused rest s t = t
advance-Total cfg key gone rest s t = t
