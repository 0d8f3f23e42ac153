-- ===== src/Gc/Paging.antt =====
-- src/common/persistence/AllExtentsAsyncIterator.ts and QueueReferredExtentsAsyncIterator.ts of the queue
-- service: what an iterator gives in the end, and what is swept of it.
use mathlib.Core.List.{map, append_assoc, append-nil, map-append}
use azurite.Prelude.{
  ℕ, zero, suc, ◌+◌, ◌<◌, ◌≡◌, refl, sym, ap, ◌∙◌, inl, inr, true, false, Bool-cases, String,
  Option, none, some, List, [], ◌∷◌, ◌++◌, ◌&&◌, not, arith, ltb, length, take, drop, length-append,
  take-drop, length-take,
}
use azurite.Gc.Manager.{Status, is_running, IteratorResult, is_not_done, holds_id, mark_sweep}
use azurite.Gc.Iterators.{Document, start, last_loki, is_none, list_documents, next, results}
use azurite.Gc.Sweep.{contents, AreMore, mark_sweep-lem}

-- find gives the documents in the order of their $loki numbers: all of them, or those behind a marker.
abbrev pub FindsAfter : (Option ℕ → List Document) → List Document → Type 0
FindsAfter find docs =
    (find none ≡ docs)
    × ((xs : List Document) (d : Document) (ys : List Document)
        → docs ≡ xs ++ d ∷ ys
        → find (some d.loki) ≡ ys)

record Ending (docs : List Document) : Type 0 where
  first : List Document
  last : Document
  parts : docs ≡ first ++ last ∷ []
  found : last_loki docs ≡ some last.loki

end_found : (d : Document) (ds : List Document) → Ending (d ∷ ds)
unfolding last_loki
end_found d [] = record { first = []; last = d; parts = refl; found = refl }
end_found d (e ∷ ds) =
    let l = end_found e ds in
    record {
      first = d ∷ l.first;
      last = l.last;
      parts = ap (λ es. d ∷ es) l.parts;
      found = l.found;
    }

nonempty_end : (ds : List Document) → 0 < length ds → Ending ds
nonempty_end [] h = absurd (omega (arith, h))
nonempty_end (d ∷ ds) h = end_found d ds

regroup :
    (xs zs : List Document) (d : Document) (ys : List Document)
    → (xs ++ (zs ++ (d ∷ []))) ++ ys ≡ (xs ++ zs) ++ (d ∷ ys)
regroup [] [] d ys = refl
regroup [] (z ∷ zs) d ys = ap (λ l. z ∷ l) (regroup [] zs d ys)
regroup (x ∷ xs) zs d ys = ap (λ l. x ∷ l) (regroup xs zs d ys)

-- The results, none of which is done, give the extents of these documents.
abbrev Gives : List IteratorResult → List Document → Type 0
Gives rs docs = AreMore is_not_done rs × (contents rs ≡ map (λ d. d.id) docs)

module _ (find : Option ℕ → List Document) (unit : ℕ) (docs : List Document) (pos : 0 < unit)
    (finds : FindsAfter find docs) where
  results_done :
      (fuel : ℕ) (m : Option ℕ) → results find unit fuel (record { done = true; marker = m }) ≡ []
  unfolding results next
  results_done zero m = refl
  results_done (suc fuel) m = refl

  whole : (ys : List Document) → ltb (length (take unit ys)) unit ≡ true → take unit ys ≡ ys
  whole ys k = elim (length-take unit ys) [
    | inl n ↦ absurd (ground (arith, k, n))
    | inr n ↦
        sym (append-nil (take unit ys)) ∙ ap (λ zs. take unit ys ++ zs) (sym n) ∙ take-drop unit ys
  ]

  not_empty :
      (ys : List Document) → ltb (length (take unit ys)) unit ≡ false → 0 < length (take unit ys)
  not_empty ys k = ground (arith, pos, k)

  shorter :
      (ys : List Document) (fuel : ℕ)
      → ltb (length (take unit ys)) unit ≡ false
      → length ys < suc fuel
      → length (drop unit ys) < fuel
  shorter ys fuel k h =
      let sum : length ys ≡ length (take unit ys) + length (drop unit ys) =
        ap length (sym (take-drop unit ys)) ∙ length-append (take unit ys) (drop unit ys) in
      omega (arith, sum, not_empty ys k, h)

  parted : (xs ys : List Document) → docs ≡ xs ++ ys → docs ≡ (xs ++ take unit ys) ++ drop unit ys
  parted xs ys e =
      e
      ∙ ap (λ zs. xs ++ zs) (sym (take-drop unit ys))
      ∙ sym (append_assoc xs (take unit ys) (drop unit ys))

  results-Gives :
      (fuel : ℕ) (xs ys : List Document) (m : Option ℕ)
      → docs ≡ xs ++ ys
      → find m ≡ ys
      → length ys < fuel
      → Gives (results find unit fuel (record { done = false; marker = m })) ys
  unfolding results next list_documents contents is_not_done is_none
  results-Gives zero xs ys m e f h = absurd (omega (arith, h))
  results-Gives (suc fuel) xs ys m e f h =
      rw f (elim (Bool-cases (ltb (length (take unit ys)) unit)) [
        | inl k ↦
            rw (k, results_done fuel none)
              (
                (refl, tt),
                append-nil (map (λ d. d.id) (take unit ys)) ∙ ap (map (λ d. d.id)) (whole ys k),
              )
        | inr k ↦
            let l = nonempty_end (take unit ys) (not_empty ys k) in
            let split = parted xs ys e in
            let rest =
              results-Gives fuel (xs ++ take unit ys) (drop unit ys) (some l.last.loki) split
                (finds.1 (xs ++ l.first) l.last (drop unit ys) (
                  split
                  ∙ ap (λ zs. (xs ++ zs) ++ drop unit ys) l.parts
                  ∙ regroup xs l.first l.last (drop unit ys)))
                (shorter ys fuel k h) in
            rw (k, l.found)
              (
                (refl, rest.0),
                ap (λ zs. map (λ d. d.id) (take unit ys) ++ zs) rest.1
                    ∙ sym (map-append (λ d. d.id) (take unit ys) (drop unit ys))
                    ∙ ap (map (λ d. d.id)) (take-drop unit ys),
              )
      ])

  started-Gives : (fuel : ℕ) → length docs < fuel → Gives (results find unit fuel start) docs
  started-Gives fuel h = results-Gives fuel [] docs none refl finds.0 h

module _ (unit : ℕ) (pos : 0 < unit) (status : ℕ → Status) where
  -- The queue service's sweep, with its two iterators: if the manager runs all the time, and neither
  -- collection changes while it is read, the set that markSweep passes to deleteExtents has the extents of
  -- the documents `stored` that no document of `referred` names, and no others. A page takes one document
  -- or more, and more calls of next() than there are documents are enough.
  pub mark_sweep-results :
      (x : String) (find_stored find_referred : Option ℕ → List Document)
      (stored referred : List Document) (calls : ℕ)
      → FindsAfter find_stored stored
      → FindsAfter find_referred referred
      → length stored < calls
      → length referred < calls
      → ((k : ℕ) → is_running (status k) ≡ true)
      → holds_id x (
          mark_sweep is_not_done status
            (results find_stored unit calls start)
            (results find_referred unit calls start))
        ≡ holds_id x (map (λ d. d.id) stored) && not (holds_id x (map (λ d. d.id) referred))
  mark_sweep-results x find_stored find_referred stored referred calls f g h k running =
      let (a, all) = started-Gives find_stored unit stored pos f calls h in
      let (b, used) = started-Gives find_referred unit referred pos g calls k in
      mark_sweep-lem is_not_done status x _ _ running a b
      ∙ ap
          (λ xs.
            holds_id x xs && not (holds_id x (contents (results find_referred unit calls start))))
          all
      ∙ ap (λ ys. holds_id x (map (λ d. d.id) stored) && not (holds_id x ys)) used
