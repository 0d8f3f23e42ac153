-- ===== src/Gc/Tests.antt =====
-- src/blob/gc/BlobGCManager.ts: two sweeps of the extents "a", "b" and "c", of which "b" and "d" are
-- referred to.
use mathlib.Core.List.{map}
use azurite.Prelude.{
  Option, none, some, String, arith, ℕ, true, false, ◌≡◌, refl, Bool-cases, inl, inr, take, ◌&&◌,
  not, List, [], ◌∷◌, ◌++◌, if◌then◌else◌, ltb,
}
use azurite.Gc.Manager.{
  Status, running, closing, is_running, has_more, is_not_done, IteratorResult, holds_id, loop,
  get_all_extents, mark_sweep,
}
use azurite.Gc.Iterators.{Document, start, last_loki, is_none, list_documents, next, results}
use azurite.Gc.Paging.{mark_sweep-results}
use azurite.Gc.Sweep.{contents, mark_sweep-closing}

abbrev stays_running : ℕ → Status
stays_running n = running

-- The status when close() comes before the test with this number.
unfoldable closes_before : ℕ → ℕ → Status
closes_before k n = if ltb n k then running else closing

abbrev stored : List IteratorResult
stored =
    record { done = false; value = "a" ∷ "b" ∷ [] } ∷ record { done = true; value = "c" ∷ [] } ∷ []

abbrev in_use : List IteratorResult
in_use = record { done = false; value = "b" ∷ "d" ∷ [] } ∷ []

swept_run : mark_sweep has_more stays_running stored in_use ≡ "a" ∷ "c" ∷ []
unfolding mark_sweep get_all_extents loop has_more
swept_run = refl

-- The queue service's manager does not read the last result's extents.
queue_run : mark_sweep is_not_done stays_running stored in_use ≡ "a" ∷ []
unfolding mark_sweep get_all_extents loop is_not_done
queue_run = refl

-- close() while markSweep waits for the first result about referred extents.
closing_run : mark_sweep has_more (closes_before 4) stored in_use ≡ "a" ∷ "b" ∷ "c" ∷ []
unfolding mark_sweep get_all_extents loop has_more closes_before
closing_run = refl

-- Two pages of stored extents, one of extents that are referred to.
abbrev doc : ℕ → String → Document
doc n name = record { loki = n; id = name }

abbrev stored_docs : List Document
stored_docs = doc 1 "a" ∷ doc 4 "b" ∷ doc 6 "c" ∷ []

abbrev behind : ℕ → List Document → List Document
behind n [] = []
behind n (d ∷ ds) = if ltb n d.loki then d ∷ behind n ds else behind n ds

unfoldable find_in : List Document → Option ℕ → List Document
find_in docs none = docs
find_in docs (some n) = behind n docs

pages_run :
    results (find_in stored_docs) 2 4 start
    ≡ record { done = false; value = "a" ∷ "b" ∷ [] }
      ∷ record { done = false; value = "c" ∷ [] }
      ∷ []
unfolding results next list_documents find_in last_loki is_none
pages_run = refl

stored_behind :
    (xs : List Document) (d : Document) (ys : List Document)
    → stored_docs ≡ xs ++ (d ∷ ys)
    → behind d.loki stored_docs ≡ ys
stored_behind [] d ys e = ground (arith, e)
stored_behind (x ∷ []) d ys e = ground (arith, e)
stored_behind (x ∷ y ∷ []) d ys e = ground (arith, e)
stored_behind (x ∷ y ∷ z ∷ []) d ys e = ground (arith, e)
stored_behind (x ∷ y ∷ z ∷ w ∷ xs) d ys e = ground (arith, e)

abbrev referred_docs : List Document
referred_docs = doc 3 "b" ∷ doc 5 "d" ∷ []

referred_behind :
    (xs : List Document) (d : Document) (ys : List Document)
    → referred_docs ≡ xs ++ (d ∷ ys)
    → behind d.loki referred_docs ≡ ys
referred_behind [] d ys e = ground (arith, e)
referred_behind (x ∷ []) d ys e = ground (arith, e)
referred_behind (x ∷ y ∷ []) d ys e = ground (arith, e)
referred_behind (x ∷ y ∷ z ∷ xs) d ys e = ground (arith, e)

mark_sweep-results_example :
    holds_id "b" (
      mark_sweep is_not_done stays_running
        (results (find_in stored_docs) 2 4 start)
        (results (find_in referred_docs) 2 4 start))
    ≡ holds_id "b" (map (λ d. d.id) stored_docs)
      && not (holds_id "b" (map (λ d. d.id) referred_docs))
unfolding find_in is_running
mark_sweep-results_example =
    mark_sweep-results 2 (omega arith) stays_running "b" (find_in stored_docs)
      (find_in referred_docs) stored_docs referred_docs 4 (refl, stored_behind)
      (refl, referred_behind) (omega arith) (omega arith) (λ k. refl)

closes_before-running : (n : ℕ) → is_running (closes_before 4 n) ≡ ltb n 4
unfolding closes_before is_running
closes_before-running n = elim (Bool-cases (ltb n 4)) [ inl e ↦ rw e refl | inr e ↦ rw e refl ]

mark_sweep-closing_example :
    holds_id "b" (mark_sweep has_more (closes_before 4) stored in_use)
    ≡ (ltb 3 4 && (holds_id "b" (contents stored) && not (holds_id "b" (contents (take 0 in_use)))))
unfolding has_more
mark_sweep-closing_example =
    mark_sweep-closing has_more (closes_before 4) 4 closes_before-running "b" stored in_use
      (refl, (refl, tt)) (refl, tt)
