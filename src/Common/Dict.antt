-- ===== src/Common/Dict.antt =====
-- Go's map[string]V as an association list. Only `get` and the operations below look at it, and
-- their laws make the order of the entries invisible.
use ravenguard.Common.Text.{Bytes, str_eq, str_eq_iff}
use ravenguard.Common.Tests.{if◌then◌else◌, Bool-cases}
use ravenguard.Common.Lists.{length}
use Prim.Native.Nat.{◌≤◌}
use mathlib.Core.Path.{◌≡◌, refl}
use mathlib.Core.Logic.{inl, inr}
use mathlib.Core.Bool.{Bool}
use mathlib.Core.Option.{Option, none, some}
use mathlib.Core.List.{List, [], ◌∷◌}
use native.Mathlib.Omega.{arith}

abbrev pub Dict {ℓ} : Type ℓ → Type ℓ
Dict V = List (Bytes × V)

module _ {ℓ} {V : Type ℓ} where
  -- v, ok := m[k]
  unfoldable pub get : Bytes → Dict V → Option V
  unfolding str_eq
  get k [] = none
  get k ((j, v) ∷ m) = if str_eq j k then some v else get k m

  -- delete(m, k)
  unfoldable pub delete : Bytes → Dict V → Dict V
  unfolding str_eq
  delete k [] = []
  delete k ((j, v) ∷ m) = let rest = delete k m in if str_eq j k then rest else (j, v) ∷ rest

  -- m[k] = v
  unfoldable pub put : Bytes → V → Dict V → Dict V
  unfolding delete
  put k v m = (k, v) ∷ delete k m

  -- for k, v := range m { if !p(k, v) { delete(m, k) } }
  unfoldable pub keep : (Bytes → V → Bool) → Dict V → Dict V
  unfolding delete
  keep p [] = []
  keep p ((j, v) ∷ m) = let rest = keep p m in if p j v then (j, v) ∷ rest else delete j rest

  pub get-nil : (k : Bytes) → get k [] ≡ none
  unfolding get
  get-nil k = refl

  pub get-delete :
      (k j : Bytes) (m : Dict V) → get j (delete k m) ≡ (if str_eq k j then none else get j m)
  unfolding get delete
  get-delete k j [] = ground arith
  get-delete k j ((i, v) ∷ m) =
      ground (arith, get-delete k j m, str_eq_iff i k, str_eq_iff i j, str_eq_iff k j)

  pub get-put :
      (k j : Bytes) (v : V) (m : Dict V)
      → get j (put k v m) ≡ (if str_eq k j then some v else get j m)
  unfolding get put
  get-put k j v m = ground (arith, get-delete k j m)

  -- What is left of one entry.
  abbrev pub kept : (Bytes → V → Bool) → Bytes → Option V → Option V
  kept p k none = none
  kept p k (some v) = if p k v then some v else none

  pub get-keep :
      (p : Bytes → V → Bool) (k : Bytes) (m : Dict V) → get k (keep p m) ≡ kept p k (get k m)
  unfolding get keep
  get-keep p k [] = refl
  get-keep p k ((j, v) ∷ m) = elim (Bool-cases (str_eq j k)) [
    | inl e ↦
        rw ((str_eq_iff j k).0 e)
          (ground (arith, get-delete k k (keep p m), str_eq_iff k k, get-keep p k m))
    | inr e ↦ ground (arith, get-delete j k (keep p m), get-keep p k m)
  ]

  pub length-delete : (k : Bytes) (m : Dict V) → length (delete k m) ≤ length m
  unfolding delete
  length-delete k [] = omega arith
  length-delete k ((j, v) ∷ m) = ground (arith, length-delete k m)

pub ruleset dict_laws = (get-nil, get-delete, get-put, get-keep)
