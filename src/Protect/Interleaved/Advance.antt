-- ===== src/Protect/Interleaved/Advance.antt =====
-- The steps of Acquire and Release keep the client counters.
use ravenguard.Common.{
  ℕ, suc, ◌+◌, ◌≡◌, refl, true, false, Option, none, some, [], arith, ◌==◌, ==_iff, Bytes, str_eq,
  str_eq_iff, ap, sym, ◌∙◌, Bool-cases, inl, inr,
}
use ravenguard.Common.Int.{ℤ, pos, inc, dec, ltb_ℤ, pos_part}
use ravenguard.Common.Dict
use ravenguard.Protect.Config.{Config}
use ravenguard.Protect.Interleaved.{
  Shared, Stage, advance, swap_global, load_or_store, add_client, still_there, load_released,
  set_counter, same_ℤ, arriving, read, counted, located, over, undone, taken, vanished, passed,
  refused, leaving, found, gone,
}
use ravenguard.Protect.Interleaved.Counters.{Apart, counter_of-none}
use ravenguard.Protect.Interleaved.Kept.{
  counts, admitted, Points, Kept, stays-Kept, set-Kept, new-Kept,
}

add-Kept :
    (cfg : Config) (key : Bytes) (c : ℕ) (s : Shared)
    → Apart s
    → Dict.get key s.clients ≡ some c
    → Kept cfg key (located c) s (add_client cfg c s)
unfolding add_client counts admitted inc
add-Kept cfg key c s a h =
    let one_more : (n : ℕ) → s.counters c ≡ pos (0 + n) → inc (s.counters c) ≡ pos (1 + n) =
      λ n e. ap inc (e ∙ ap pos (none_more n)) ∙ ap pos (more n) in
    elim (Bool-cases (ltb_ℤ (pos cfg.max_concurrent_client) (inc (s.counters c)))) [
      | inl p ↦ rw p (
          set-Kept cfg key (located c) (over c) c (inc (s.counters c)) s a h h
            (λ n m le e limit. (one_more n e, limit)))
      | inr p ↦ rw p (
          set-Kept cfg key (located c) (taken c) c (inc (s.counters c)) s a h h (λ n m le e limit.
            let value = one_more n e in
            let room : ltb_ℤ (pos cfg.max_concurrent_client) (pos (1 + n)) ≡ false =
              rw value at p in
            (value, ground (arith, room, le))))
    ]
  where
    none_more : (n : ℕ) → 0 + n ≡ n
    none_more n = omega arith

    more : (n : ℕ) → suc n ≡ 1 + n
    more n = omega arith

-- A step that counts a request down.
down-Kept :
    (cfg : Config) (key : Bytes) (stage next : Stage) (c : ℕ) (s : Shared)
    → Apart s
    → Dict.get key s.clients ≡ some c
    → Points s key next
    → counts stage ≡ 1
    → counts next ≡ 0
    → admitted next ≡ 0
    → Kept cfg key stage s (set_counter c (dec (s.counters c)) s, next)
unfolding dec
down-Kept cfg key stage next c s a h p before after none_in =
    set-Kept cfg key stage next c (dec (s.counters c)) s a h p (λ n m le e limit.
      let was : s.counters c ≡ pos (suc n) = e ∙ ap pos (omega (arith, before)) in
      let now : n ≡ counts next + n = omega (arith, after) in
      (ap dec was ∙ ap pos now, omega (arith, none_in, limit)))

release-Kept :
    (cfg : Config) (key : Bytes) (o : Option ℕ) (s : Shared)
    → Apart s
    → Dict.get key s.clients ≡ o
    → Kept cfg key leaving s (s, load_released o)
unfolding load_released counts admitted
release-Kept cfg key none s a h = record {
  apart = a;
  grows = λ k c e. e;
  points = tt;
  tally = λ k n m not_empty le t. elim (Bool-cases (str_eq key k)) [
    | inl p ↦
        let same = (str_eq_iff key k).0 p in
        let nothing : Dict.get k s.clients ≡ none = rw same at h in
        let zero_here : pos 0 ≡ pos (1 + n) =
          sym (counter_of-none k s nothing) ∙ (rw p at t.exact) in
        let no : 0 ≡ 1 + n = ap pos_part zero_here in ground (arith, no)
    | inr p ↦ record { exact = rw p (rw p at t.exact); bounded = rw p (rw p at t.bounded) }
  ];
}
release-Kept cfg key (some c) s a h =
    stays-Kept cfg key leaving (found c) s s.global a h (λ k _. refl) (λ k _. omega arith)

swap-Kept :
    (cfg : Config) (key : Bytes) (cur : ℤ) (s : Shared)
    → Apart s
    → Kept cfg key (read cur) s (swap_global cfg cur s)
unfolding swap_global counts admitted
swap-Kept cfg key cur s a = elim (Bool-cases (ltb_ℤ cur (pos cfg.max_concurrent_global))) [
  | inl p ↦ elim (Bool-cases (same_ℤ s.global cur)) [
    | inl q ↦
        rw (p, q)
          (stays-Kept cfg key (read cur) counted s (inc cur) a tt (λ k _. refl)
            (λ k _. omega arith))
    | inr q ↦
        rw (p, q)
          (stays-Kept cfg key (read cur) arriving s s.global a tt (λ k _. refl)
            (λ k _. omega arith))
  ]
  | inr p ↦
      rw p
        (stays-Kept cfg key (read cur) refused s s.global a tt (λ k _. refl) (λ k _. omega arith))
]

no_key : (key k : Bytes) → str_eq key [] ≡ true → str_eq k [] ≡ false → str_eq key k ≡ false
no_key key k p q = elim (Bool-cases (str_eq key k)) [
  | inl e ↦ let same : str_eq k [] ≡ true = rw ((str_eq_iff key k).0 e) at p in cc (q, same)
  | inr e ↦ e
]

locate-Kept :
    (cfg : Config) (key : Bytes) (o : Option ℕ) (s : Shared)
    → Apart s
    → Dict.get key s.clients ≡ o
    → Kept cfg key counted s (load_or_store key o s)
unfolding load_or_store counts admitted
locate-Kept cfg key none s a h = new-Kept cfg key s a h
locate-Kept cfg key (some c) s a h =
    stays-Kept cfg key counted (located c) s s.global a h (λ k _. refl) (λ k _. omega arith)

taken-Kept :
    (cfg : Config) (key : Bytes) (c : ℕ) (s : Shared)
    → Apart s
    → Dict.get key s.clients ≡ some c
    → Kept cfg key (taken c) s (s, still_there c (Dict.get key s.clients))
unfolding still_there counts admitted
taken-Kept cfg key c s a h =
    let itself : (c == c) ≡ true = (==_iff c c).1 refl in
    rw (h, itself)
      (stays-Kept cfg key (taken c) passed s s.global a tt (λ k _. refl) (λ k _. omega arith))

-- The step of a request keeps the counters of all clients.
pub advance-Kept :
    (cfg : Config) (key : Bytes) (stage : Stage) (s : Shared)
    → Apart s
    → Points s key stage
    → Kept cfg key stage s (advance cfg key stage s)
unfolding advance counts admitted
advance-Kept cfg key arriving s a p =
    stays-Kept cfg key arriving (read s.global) s s.global a tt (λ k _. refl) (λ k _. omega arith)
advance-Kept cfg key (read cur) s a p = swap-Kept cfg key cur s a
advance-Kept cfg key counted s a p = elim (Bool-cases (str_eq key [])) [
  | inl q ↦ rw q (
      stays-Kept cfg key counted passed s s.global a tt (λ k full. rw (no_key key k q full) refl)
        (λ k full. rw (no_key key k q full) (omega arith)))
  | inr q ↦ rw q (locate-Kept cfg key (Dict.get key s.clients) s a refl)
]
advance-Kept cfg key (located c) s a p = add-Kept cfg key c s a p
advance-Kept cfg key (over c) s a p = down-Kept cfg key (over c) undone c s a p tt refl refl refl
advance-Kept cfg key undone s a p =
    stays-Kept cfg key undone refused s (dec s.global) a tt (λ k _. refl) (λ k _. omega arith)
advance-Kept cfg key (taken c) s a p = taken-Kept cfg key c s a p
advance-Kept cfg key (vanished c) s a p = elim p [ ]
advance-Kept cfg key passed s a p =
    stays-Kept cfg key passed leaving s (dec s.global) a tt (λ k _. refl) (λ k _. ground arith)
advance-Kept cfg key leaving s a p = elim (Bool-cases (str_eq key [])) [
  | inl q ↦ rw q (
      stays-Kept cfg key leaving gone s s.global a tt (λ k full. rw (no_key key k q full) refl)
        (λ k _. ground arith))
  | inr q ↦ rw q (release-Kept cfg key (Dict.get key s.clients) s a refl)
]
advance-Kept cfg key (found c) s a p = down-Kept cfg key (found c) gone c s a p tt refl refl refl
advance-Kept cfg key refused s a p =
    stays-Kept cfg key refused refused s s.global a tt (λ k _. refl) (λ k _. omega arith)
advance-Kept cfg key gone s a p =
    stays-Kept cfg key gone gone s s.global a tt (λ k _. refl) (λ k _. omega arith)
