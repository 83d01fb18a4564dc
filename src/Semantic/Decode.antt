-- ===== src/Semantic/Decode.antt =====
-- internal/semantic/decode.go: Budget, DecodeChain and TruncEvidence. The clock is read often, so
-- its readings are a function of their number.
use ravenguard.Common.{
  ℕ, zero, suc, ◌+◌, Bool, true, false, ◌&&◌, ◌||◌, not, Option, none, some, List, [], ◌∷◌, ◌++◌,
  ltb, ◌==◌, if◌then◌else◌, Bytes, Instant, str_eq, length, take, map,
}
use ravenguard.Semantic.Decoders.{try_url_decode, try_base64, try_hex, try_unicode_escape}

pub record Budget : Type 0 where
  pub deadline : Instant
  pub max_bytes : ℕ
  pub max_depth : ℕ

-- What one evaluation keeps: the bytes used of its budget, and how often it has read the clock. The
-- other two are the map and the results of the current DecodeChain.
pub record Walk : Type 0 where
  pub used : ℕ
  pub reads : ℕ
  pub seen : List Bytes
  pub out : List Bytes

-- How walk has taken a text in: it stops with an error, or has seen it before, or decodes it.
pub data Entered : Type 0 where
  failed known fresh : Entered

abbrev pub goes_on : Entered → Bool
goes_on failed = false
goes_on known = true
goes_on fresh = true

unfoldable pub member : Bytes → List Bytes → Bool
unfolding str_eq
member b [] = false
member b (x ∷ xs) = str_eq x b || member b xs

abbrev option_list : Option Bytes → List Bytes
option_list none = []
option_list (some b) = b ∷ []

-- What the decoders make of a text, in their order.
unfoldable pub decodings : Bytes → List Bytes
decodings b =
    option_list (try_url_decode b)
    ++ (option_list (try_base64 b)
        ++ (option_list (try_hex b) ++ option_list (try_unicode_escape b)))

unfoldable pub budget_max_depth : Budget → ℕ
budget_max_depth budget = if budget.max_depth == 0 then 3 else budget.max_depth

module _ (clock : ℕ → Instant) (budget : Budget) where
  -- A reading of the clock that is past the deadline.
  unfoldable pub expired : Walk → Bool
  expired w = not (budget.deadline == 0) && ltb budget.deadline (clock w.reads)

  -- The clock is not read without a deadline.
  unfoldable pub look : Walk → Walk
  look w = if budget.deadline == 0 then w else record w { reads = w.reads + 1 }

  -- An error is false.
  unfoldable pub add : ℕ → Walk → Walk × Bool
  unfolding expired look
  add n w =
      if expired w
      then (look w, false)
      else let w' = record (look w) { used = w.used + n } in
        (w', not (ltb 0 budget.max_bytes && ltb budget.max_bytes w'.used))

  -- The calls of walk for the decoded texts, up to the first error.
  unfoldable pub each : (Bytes → Walk → Walk × Bool) → List Bytes → Walk → Walk × Bool
  each visit [] w = (w, true)
  each visit (b ∷ bs) w =
      let (w', ok) = visit b w in let rest = each visit bs w' in if ok then rest else (w', false)

  -- A new text: the map of texts seen, the budget and the results.
  unfoldable pub enter_new : Bytes → Walk → Walk × Entered
  unfolding add
  enter_new b w =
      let (w', fits) = add (length b) (record w { seen = b ∷ w.seen }) in
      if fits then (record w' { out = w'.out ++ b ∷ [] }, fresh) else (w', failed)

  -- walk up to the decoders.
  unfoldable pub enter : Bytes → Walk → Walk × Entered
  unfolding expired look member enter_new
  enter b w =
      if expired w
      then (look w, failed)
      else if member b (look w).seen
      then (look w, known)
      else enter_new b (look w)

  -- walk, where `left` is what the depth is below the limit. Only a text whose depth is below the
  -- limit is decoded, so the test that the depth has passed the limit never holds.
  unfoldable pub walk : ℕ → Bytes → Walk → Walk × Bool
  unfolding enter each
  walk zero b w = let (w', how) = enter b w in (w', goes_on how)
  walk (suc left) b w =
      let (w', how) = enter b w in
      elim how [
        | failed ↦ (w', false)
        | known ↦ (w', true)
        | fresh ↦ each (walk left) (decodings b) w'
      ]

  -- The new state of the budget and the clock, and the results unless there was an error.
  unfoldable pub decode_chain : Bytes → Walk → Walk × Option (List Bytes)
  unfolding walk budget_max_depth
  decode_chain [] w = (w, some [])
  decode_chain (c ∷ s) w =
      let (w', ok) = walk (budget_max_depth budget) (c ∷ s) (record w { seen = []; out = [] }) in
      (w', if ok then some w'.out else none)

abbrev printable : ℕ → ℕ
printable c = if ltb c 0x20 || ltb 0x7E c then b'.' else c

unfoldable pub trunc_evidence : Bytes → ℕ → Bytes
trunc_evidence b n = map printable (take (if n == 0 then 128 else n) b)
