-- ===== src/Gc/Iterators.antt =====
-- src/queue/persistence/QueueReferredExtentsAsyncIterator.ts and
-- src/common/persistence/AllExtentsAsyncIterator.ts, with the listMessages and listExtents that they
-- call. A document is its $loki number and the extent that it names. `find` stands for LokiJS's find with
-- the query `$loki: { $gt: marker }` and the other conditions of listExtents.
use azurite.Prelude.{
  ℕ, zero, suc, Bool, true, false, String, Option, none, some, List, [], ◌∷◌, if◌then◌else◌, ltb,
  length, take,
}
use mathlib.Core.List.{map}
use azurite.Gc.Manager.{IteratorResult}

pub record Document : Type 0 where
  pub loki : ℕ
  pub id : String

pub record IteratorState : Type 0 where
  pub done : Bool
  pub marker : Option ℕ

abbrev pub start : IteratorState
start = record { done = false; marker = none }

-- `docs[docs.length - 1].$loki`
unfoldable pub last_loki : List Document → Option ℕ
last_loki [] = none
last_loki (d ∷ []) = some d.loki
last_loki (d ∷ e ∷ ds) = last_loki (e ∷ ds)

unfoldable pub is_none : Option ℕ → Bool
is_none none = true
is_none (some n) = false

module _ (find : Option ℕ → List Document) (unit : ℕ) where
  unfoldable pub list_documents : Option ℕ → List Document × Option ℕ
  unfolding last_loki
  list_documents marker =
      let docs = take unit (find marker) in
      if ltb (length docs) unit then (docs, none) else (docs, last_loki docs)

  unfoldable pub next : IteratorState → IteratorResult × IteratorState
  unfolding list_documents is_none
  next s =
      let (docs, next_marker) = list_documents s.marker in
      if s.done then (record { done = true; value = [] }, s) else (
        record { done = false; value = map (λ d. d.id) docs },
        record { done = is_none next_marker; marker = next_marker },
      )

  -- The results of `fuel` calls of next(), up to the first that is done.
  unfoldable pub results : ℕ → IteratorState → List IteratorResult
  unfolding next
  results zero s = []
  results (suc fuel) s =
      let (r, s') = next s in let rest = results fuel s' in if r.done then [] else r ∷ rest
