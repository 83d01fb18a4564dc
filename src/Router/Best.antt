-- ===== src/Router/Best.antt =====
-- Lookup answers with the best entry that serves a request.
use mathlib.Core.Logic.Or
use mathlib.Core.List.{Mem, mem-cons, not-mem-nil}
use mathlib.Core.List.Perm
use ravenguard.Common.{
  ◌≡◌, Bool, true, false, not, Option, none, some, List, [], ◌∷◌, arith, if◌then◌else◌, Bytes,
  bytes, str_eq, length, All, Bool-cases, inl, inr, sym, ap, refl, ◌≤◌, ◌⊎◌,
}
use ravenguard.Common.Int.{ℤ, pos, negsuc, ltb_ℤ}
use ravenguard.Router.{
  Upstream, Route, Compiled, Table, precedes, by_id, compile_all, replace, exchange_sort, serves,
  first_match, strip_port, lookup,
}
use ravenguard.Router.Sorting.{IsSorted, precedes_refl, exchange_sort-IsSorted}

-- An entry that another one is not better than: its priority is higher, or it is the same and the
-- prefix of the other one is not longer.
abbrev pub AsGoodAs : Compiled → Compiled → Type 0
AsGoodAs e c =
    (ltb_ℤ e.route.priority c.route.priority ≡ true)
    ⊎ ((e.route.priority ≡ c.route.priority) × (length e.prefix ≤ length c.prefix))

-- The answer is one of some entries that serves the request, and none of them that serves it is
-- better.
pub record Best (host path : Bytes) (cs : List Compiled) (answer : Option Compiled) : Type 0 where
  pub entry : Compiled
  pub answered : answer ≡ some entry
  pub given : Mem entry cs
  pub served : serves host path entry ≡ true
  pub best : (e : Compiled) → Mem e cs → serves host path e ≡ true → AsGoodAs e entry

abbrev as_good_as : Compiled → Option Compiled → Bool
as_good_as e none = false
as_good_as e (some c) = not (precedes e c)

same_priority : (a b : ℤ) → ltb_ℤ a b ≡ false → ltb_ℤ b a ≡ false → a ≡ b
same_priority (pos m) (pos n) h k = let e : m ≡ n = ground (arith, h, k) in ap pos e
same_priority (pos m) (negsuc n) h k = ground (arith, h, k)
same_priority (negsuc m) (pos n) h k = ground (arith, h, k)
same_priority (negsuc m) (negsuc n) h k = let e : m ≡ n = ground (arith, h, k) in ap negsuc e

precedes-AsGoodAs : (e c : Compiled) → precedes e c ≡ false → AsGoodAs e c
unfolding precedes
precedes-AsGoodAs e c h = elim (Bool-cases (ltb_ℤ e.route.priority c.route.priority)) [
  | inl p ↦ inl p
  | inr p ↦
      let q : ltb_ℤ c.route.priority e.route.priority ≡ false = ground (arith, h) in
      inr (same_priority e.route.priority c.route.priority p q, ground (arith, h, p, q))
]

-- The path that an empty path stands for.
abbrev pub path_of : Bytes → Bytes
path_of path = if str_eq path [] then bytes "/" else path

All-mem :
    (P : Compiled → Bool) (e : Compiled) (cs : List Compiled)
    → All (λ c. P c ≡ false) cs
    → Mem e cs
    → P e ≡ false
All-mem P e [] h m = absurd (not-mem-nil m)
All-mem P e (c ∷ cs) (h, hs) m = Or.elim (hlevel) (mem-cons.0 m) (λ q. rw q h) (All-mem P e cs hs)

first_match-best :
    (host path : Bytes) (e : Compiled) (cs : List Compiled)
    → IsSorted cs
    → Mem e cs
    → serves host path e ≡ true
    → as_good_as e (first_match host path cs) ≡ true
unfolding first_match
first_match-best host path e [] s m ok = absurd (not-mem-nil m)
first_match-best host path e (c ∷ cs) (h, s) m ok = elim (Bool-cases (serves host path c)) [
  | inl p ↦
      let later = All-mem (λ d. precedes d c) e (c ∷ cs) (precedes_refl c, h) m in rw (p, later)
  | inr p ↦ rw p (
      Or.elim (hlevel) (mem-cons.0 m) (λ q. cc) (λ rest. first_match-best host path e cs s rest ok))
]

first_match-mem :
    (host path : Bytes) (c : Compiled) (cs : List Compiled)
    → first_match host path cs ≡ some c
    → Mem c cs × (serves host path c ≡ true)
unfolding first_match
first_match-mem host path c [] h = ground (arith, h)
first_match-mem host path c (d ∷ cs) h = elim (Bool-cases (serves host path d)) [
  | inl p ↦
      let same : d ≡ c = ground (arith, p, h) in (mem-cons.1 (Or.inl (sym same)), rw same at p)
  | inr p ↦
      let rest = first_match-mem host path c cs (rw p at h) in (mem-cons.1 (Or.inr rest.0), rest.1)
]

module _ (build : Upstream → Bool → Bytes → Bool) where
  lookup-good :
      (upstreams : List Upstream) (routes : List Route) (t : Table) (cs : List Compiled)
      (e : Compiled) (host path : Bytes)
      → compile_all build (by_id upstreams []) routes ≡ some cs
      → Mem e cs
      → serves (strip_port host) (path_of path) e ≡ true
      → as_good_as e (lookup host path (replace build upstreams routes t).0) ≡ true
  unfolding replace lookup
  lookup-good upstreams routes t cs e host path done m ok =
      let (sorted, perm) = exchange_sort-IsSorted cs in
      rw done (
        first_match-best (strip_port host) (path_of path) e (exchange_sort (length cs) cs) sorted
          ((Perm.mem_iff perm).1 m) ok)

  -- The answer is one of the compiled entries, and it serves the request.
  lookup-serves :
      (upstreams : List Upstream) (routes : List Route) (t : Table) (cs : List Compiled)
      (c : Compiled) (host path : Bytes)
      → compile_all build (by_id upstreams []) routes ≡ some cs
      → lookup host path (replace build upstreams routes t).0 ≡ some c
      → Mem c cs × (serves (strip_port host) (path_of path) c ≡ true)
  unfolding replace lookup
  lookup-serves upstreams routes t cs c host path done h =
      let (sorted, perm) = exchange_sort-IsSorted cs in
      let (m, ok) =
        first_match-mem (strip_port host) (path_of path) c (exchange_sort (length cs) cs)
          (rw done at h) in
      ((Perm.mem_iff perm).0 m, ok)

  -- After a Replace that succeeds with some compiled entries, a request that one of them serves is
  -- answered by one of them that serves it, and every entry that serves it has a lower priority or
  -- the same one and no longer prefix.
  pub replace-lookup :
      (upstreams : List Upstream) (routes : List Route) (t : Table) (cs : List Compiled)
      (e : Compiled) (host path : Bytes)
      → compile_all build (by_id upstreams []) routes ≡ some cs
      → Mem e cs
      → serves (strip_port host) (path_of path) e ≡ true
      → Best
          (strip_port host)
          (path_of path)
          cs
          (lookup host path (replace build upstreams routes t).0)
  replace-lookup upstreams routes t cs e host path done m ok =
      found (lookup host path (replace build upstreams routes t).0) refl
    where
      found :
          (o : Option Compiled)
          → lookup host path (replace build upstreams routes t).0 ≡ o
          → Best (strip_port host) (path_of path) cs o
      found none a =
          let good = lookup-good upstreams routes t cs e host path done m ok in
          absurd (ground (arith, rw a at good))
      found (some c) a =
          let (member, serving) = lookup-serves upstreams routes t cs c host path done a in
          record {
            entry = c;
            answered = refl;
            given = member;
            served = serving;
            best = λ d there ready.
                let good = lookup-good upstreams routes t cs d host path done there ready in
                precedes-AsGoodAs d c (ground (arith, rw a at good));
          }
