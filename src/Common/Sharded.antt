-- ===== src/Common/Sharded.antt =====
-- internal/strhash/strhash.go, and the maps that the program splits into shards by it: an array of
-- maps with a lock each. Every operation works on the shard of its key, under the shard's lock.
use Prim.Native.Nat.{ℕ, zero, suc, ◌*◌, ◌%◌, ◌^◌, bit_xor}
use mathlib.Core.Path.{◌≡◌, refl, sym, ap, ◌∙◌}
use mathlib.Core.Logic.{inl, inr}
use mathlib.Core.Bool.{Bool, false}
use mathlib.Core.Option.{Option, none, some}
use mathlib.Core.List.{[], ◌∷◌, ◌++◌}
use ravenguard.Common.Text.{Bytes, str_eq, str_eq_iff, bytes}
use ravenguard.Common.Tests.{◌==◌, if◌then◌else◌, Bool-cases, ==_iff}
use ravenguard.Common.Dict
use ravenguard.Common.Dict.{Dict, kept}

-- The loop of strhash.String: `h ^= uint32(s[i]); h *= prime32`.
fnv_from : ℕ → Bytes → ℕ
fnv_from h [] = h
fnv_from h (c ∷ s) = fnv_from ((bit_xor h c * 16777619) % 2 ^ 32) s

unfoldable pub fnv : Bytes → ℕ
unfolding fnv_from
fnv s = fnv_from 2166136261 s

pub record Sharded {ℓ} (V : Type ℓ) : Type ℓ where
  pub count : ℕ
  pub at : ℕ → Dict V

module _ {ℓ} {V : Type ℓ} where
  unfoldable pub empty : ℕ → Sharded V
  empty n = record { count = n; at = λ _. [] }

  -- strhash.String(key) % shards
  index : Sharded V → Bytes → ℕ
  index s k = fnv k % s.count

  replace : Sharded V → ℕ → Dict V → Sharded V
  replace s i d = record s { at = λ n. if n == i then d else s.at n }

  unfoldable pub get : Bytes → Sharded V → Option V
  unfolding Dict.get index fnv
  get k s = Dict.get k (s.at (index s k))

  unfoldable pub put : Bytes → V → Sharded V → Sharded V
  unfolding Dict.put index replace fnv
  put k v s = replace s (index s k) (Dict.put k v (s.at (index s k)))

  unfoldable pub delete : Bytes → Sharded V → Sharded V
  unfolding Dict.delete index replace fnv
  delete k s = replace s (index s k) (Dict.delete k (s.at (index s k)))

  -- A sweep over all shards.
  unfoldable pub keep : (Bytes → V → Bool) → Sharded V → Sharded V
  unfolding Dict.keep
  keep p s = record s { at = λ n. Dict.keep p (s.at n) }

  entries_below : ℕ → (ℕ → Dict V) → Dict V
  entries_below zero f = []
  entries_below (suc n) f = entries_below n f ++ f n

  -- The entries of all shards, in the order of the shards.
  unfoldable pub entries : Sharded V → Dict V
  unfolding entries_below
  entries s = entries_below s.count s.at

  pub get-empty : (n : ℕ) (k : Bytes) → get k (empty n) ≡ none
  unfolding get empty
  get-empty n k = Dict.get-nil k

  at-replace_self : (s : Sharded V) (i n : ℕ) (d : Dict V) → n ≡ i → (replace s i d).at n ≡ d
  unfolding replace
  at-replace_self s i n d e = rw ((==_iff n i).1 e)

  at-replace_ne :
      (s : Sharded V) (i n : ℕ) (d : Dict V) → (n == i) ≡ false → (replace s i d).at n ≡ s.at n
  unfolding replace
  at-replace_ne s i n d e = rw e

  index-ne : (k j : Bytes) (s : Sharded V) → (index s j == index s k) ≡ false → str_eq k j ≡ false
  index-ne k j s h = elim (Bool-cases (str_eq k j)) [
    | inl e ↦ cc (h, (==_iff (index s j) (index s k)).1 (ap (index s) (sym ((str_eq_iff k j).0 e))))
    | inr e ↦ e
  ]

  pub get-put :
      (k j : Bytes) (v : V) (s : Sharded V)
      → get j (put k v s) ≡ (if str_eq k j then some v else get j s)
  unfolding get put
  get-put k j v s = elim (Bool-cases (index s j == index s k)) [
    | inl e ↦
        let same = (==_iff (index s j) (index s k)).0 e in
        ap (Dict.get j) (at-replace_self s (index s k) (index s j) _ same)
        ∙ (Dict.get-put k j v (s.at (index s k))
            ∙ ap (λ (n : ℕ). if str_eq k j then some v else Dict.get j (s.at n)) (sym same))
    | inr e ↦ rw (index-ne k j s e) (ap (Dict.get j) (at-replace_ne s (index s k) (index s j) _ e))
  ]

  pub get-delete :
      (k j : Bytes) (s : Sharded V) → get j (delete k s) ≡ (if str_eq k j then none else get j s)
  unfolding get delete
  get-delete k j s = elim (Bool-cases (index s j == index s k)) [
    | inl e ↦
        let same = (==_iff (index s j) (index s k)).0 e in
        ap (Dict.get j) (at-replace_self s (index s k) (index s j) _ same)
        ∙ (Dict.get-delete k j (s.at (index s k))
            ∙ ap (λ (n : ℕ). if str_eq k j then none else Dict.get j (s.at n)) (sym same))
    | inr e ↦ rw (index-ne k j s e) (ap (Dict.get j) (at-replace_ne s (index s k) (index s j) _ e))
  ]

  pub get-keep :
      (p : Bytes → V → Bool) (k : Bytes) (s : Sharded V) → get k (keep p s) ≡ kept p k (get k s)
  unfolding get keep index
  get-keep p k s = Dict.get-keep p k (s.at (fnv k % s.count))

pub ruleset sharded_laws = (get-empty, get-put, get-delete, get-keep)

fnv_known : fnv (bytes "a") ≡ 0xE40C292C
unfolding fnv
fnv_known = refl
