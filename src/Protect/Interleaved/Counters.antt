-- ===== src/Protect/Interleaved/Counters.antt =====
-- The client counters without the sweep: what a step does to the counter that the map holds for a
-- client.
use ravenguard.Common.{
  ℕ, ◌<◌, ◌≡◌, refl, true, false, Option, none, some, arith, ◌==◌, ==_iff, if◌then◌else◌, Bytes,
  str_eq, str_eq_iff, ap, sym, ◌∙◌, Bool-cases, Option-cases, inl, inr, ◌⊎◌,
}
use mathlib.Core.Option.{some-injective}
use ravenguard.Common.Int.{ℤ, pos}
use ravenguard.Common.Dict
use ravenguard.Common.Dict.{get-put}
use ravenguard.Protect.Interleaved.{Shared, set_counter, load_or_store}

abbrev read_counter : (ℕ → ℤ) → Option ℕ → ℤ
read_counter counters none = pos 0
read_counter counters (some c) = counters c

-- What the counter of a client reads; one that is not there yet starts at 0.
abbrev pub counter_of : Bytes → Shared → ℤ
counter_of k s = read_counter s.counters (Dict.get k s.clients)

-- The map holds counters that have been made, one for each client.
pub record Apart (s : Shared) : Type 0 where
  pub made : (k : Bytes) (c : ℕ) → Dict.get k s.clients ≡ some c → c < s.fresh
  pub apart :
      (j k : Bytes) (c : ℕ) → Dict.get j s.clients ≡ some c → Dict.get k s.clients ≡ some c → j ≡ k

pub counter_of-at :
    (k : Bytes) (c : ℕ) (s : Shared) → Dict.get k s.clients ≡ some c → counter_of k s ≡ s.counters c
counter_of-at k c s h = ap (read_counter s.counters) h

pub counter_of-none :
    (k : Bytes) (s : Shared) → Dict.get k s.clients ≡ none → counter_of k s ≡ pos 0
counter_of-none k s h = ap (read_counter s.counters) h

pub set-Apart : (c : ℕ) (n : ℤ) (s : Shared) → Apart s → Apart (set_counter c n s)
set-Apart c n s a = record { made = a.made; apart = a.apart }

-- A change of one counter shows for its own client only.
pub counter_of-set :
    (key k : Bytes) (c : ℕ) (n : ℤ) (s : Shared)
    → Apart s
    → Dict.get key s.clients ≡ some c
    → counter_of k (set_counter c n s) ≡ (if str_eq key k then n else counter_of k s)
counter_of-set key k c n s a h = elim (Bool-cases (str_eq key k)) [
  | inl p ↦
      let same = (str_eq_iff key k).0 p in
      let here : Dict.get k s.clients ≡ some c = rw same at h in
      let itself : (c == c) ≡ true = (==_iff c c).1 refl in rw (p, here, itself) refl
  | inr p ↦ elim (Option-cases (Dict.get k s.clients)) [
    | inl q ↦ rw (p, q) refl
    | inr (d, q) ↦ elim (Bool-cases (d == c)) [
      | inl e ↦
          let one = a.apart key k c h (q ∙ ap some ((==_iff d c).0 e)) in
          let yes : str_eq key k ≡ true = (str_eq_iff key k).1 one in cc yes
      | inr e ↦ rw (p, q, e) refl
    ]
  ]
]

put_found :
    (key k : Bytes) (s : Shared)
    → str_eq key k ≡ true
    → Dict.get k (Dict.put key s.fresh s.clients) ≡ some s.fresh
put_found key k s p = rw (get-put key k s.fresh s.clients, p) refl

put_other :
    (key k : Bytes) (s : Shared)
    → str_eq key k ≡ false
    → Dict.get k (Dict.put key s.fresh s.clients) ≡ Dict.get k s.clients
put_other key k s p = rw (get-put key k s.fresh s.clients, p) refl

-- A new counter reads 0, as the counter that was not there.
pub counter_of-new :
    (key k : Bytes) (s : Shared)
    → Apart s
    → Dict.get key s.clients ≡ none
    → counter_of k (load_or_store key none s).0 ≡ counter_of k s
unfolding load_or_store
counter_of-new key k s a h = elim (Bool-cases (str_eq key k)) [
  | inl p ↦
      let same = (str_eq_iff key k).0 p in
      let nothing : Dict.get k s.clients ≡ none = rw same at h in
      let itself : (s.fresh == s.fresh) ≡ true = (==_iff s.fresh s.fresh).1 refl in
      rw (put_found key k s p, nothing, itself) refl
  | inr p ↦ elim (Option-cases (Dict.get k s.clients)) [
    | inl q ↦ rw (put_other key k s p, q) refl
    | inr (d, q) ↦
        let old : (d == s.fresh) ≡ false = ground (arith, a.made k d q) in
        rw (put_other key k s p, q, old) refl
  ]
]

-- What the map holds after a new counter.
new_entry :
    (key k : Bytes) (c : ℕ) (s : Shared)
    → Dict.get k (Dict.put key s.fresh s.clients) ≡ some c
    → ((key ≡ k) × (s.fresh ≡ c)) ⊎ (Dict.get k s.clients ≡ some c)
new_entry key k c s e = elim (Bool-cases (str_eq key k)) [
  | inl p ↦ inl ((str_eq_iff key k).0 p, some-injective _ _ (sym (put_found key k s p) ∙ e))
  | inr p ↦ inr (sym (put_other key k s p) ∙ e)
]

pub new-Apart : (key : Bytes) (s : Shared) → Apart s → Apart (load_or_store key none s).0
unfolding load_or_store
new-Apart key s a = record {
  made = λ k c e. elim (new_entry key k c s e) [
    | inl (same, fresh) ↦ omega (arith, fresh)
    | inr old ↦ omega (arith, a.made k c old)
  ];
  apart = λ j k c e f. elim (new_entry key j c s e) [
    | inl (j_new, fresh) ↦ elim (new_entry key k c s f) [
      | inl (k_new, _) ↦ sym j_new ∙ k_new
      | inr old ↦ ground (arith, fresh, a.made k c old)
    ]
    | inr j_old ↦ elim (new_entry key k c s f) [
      | inl (k_new, fresh) ↦ ground (arith, fresh, a.made j c j_old)
      | inr k_old ↦ a.apart j k c j_old k_old
    ]
  ];
}

pub new-found :
    (key : Bytes) (s : Shared) → Dict.get key (Dict.put key s.fresh s.clients) ≡ some s.fresh
new-found key s = put_found key key s ((str_eq_iff key key).1 refl)

-- The entries of the map stay.
pub new-grows :
    (key k : Bytes) (c : ℕ) (s : Shared)
    → Dict.get key s.clients ≡ none
    → Dict.get k s.clients ≡ some c
    → Dict.get k (Dict.put key s.fresh s.clients) ≡ some c
new-grows key k c s h e = elim (Bool-cases (str_eq key k)) [
  | inl p ↦
      let same = (str_eq_iff key k).0 p in
      let nothing : Dict.get k s.clients ≡ none = rw same at h in cc (nothing, e)
  | inr p ↦ put_other key k s p ∙ e
]
