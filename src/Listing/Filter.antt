-- ===== src/Listing/Filter.antt =====
-- The pages of filterBlobs (src/blob/persistence/LokiBlobMetadataStore.ts).
use azurite.Prelude.{
  ℕ, zero, suc, ◌+◌, ◌<◌, ◌≡◌, refl, sym, ap, ◌∙◌, inl, inr, Bool, true, false, Bool-cases, none,
  List, [], ◌∷◌, ◌++◌, arith, length, take, ltb,
}
use mathlib.Core.List.{append-nil}
use azurite.Errors.{Result, ok, err, Returns, ◌>>=◌}
use azurite.Conditions.Model.{Text}
use azurite.Prelude.{length-append}
use azurite.Tags.Evaluate.{text_lt}
use azurite.Listing.Page.{Page, group, new_page, process_list, fill_loop, answer, fill}
use azurite.Listing.Shows.{new_page-Shows, items_of, prefixes_from}
use azurite.Listing.Taken.{Processed, process_list-Processed}
use azurite.Listing.Strict.{IsStrictFrom, IsStrictFrom-IsSortedFrom, lower, after-IsStrictFrom}
use azurite.Listing.Blobs.{after, select, read_found, filter_blobs}

module _ {A : Type 0} (name : A → Text) where
  all_items : (xs : List A) → items_of none 0 name xs ≡ xs
  unfolding group
  all_items [] = refl
  all_items (x ∷ xs) = ap (λ l. x ∷ l) (all_items xs)

  no_prefix : (gs : List Text) (xs : List A) → prefixes_from none 0 name gs xs ≡ gs
  unfolding group
  no_prefix gs [] = refl
  no_prefix gs (x ∷ xs) = no_prefix gs xs

  select-IsStrictFrom :
      (found : A → Bool) (m : Text) (xs : List A)
      → IsStrictFrom name m xs
      → IsStrictFrom name m (select name found xs)
  select-IsStrictFrom found m [] v = tt
  select-IsStrictFrom found m (x ∷ xs) v = elim (Bool-cases (found x)) [
    | inl h ↦ rw h (v.0, select-IsStrictFrom found (name x) xs v.1)
    | inr h ↦ rw h (
        lower name m (name x) (select name found xs) v.0
          (select-IsStrictFrom found (name x) xs v.1))
  ]

  take-IsStrictFrom :
      (n : ℕ) (m : Text) (xs : List A) → IsStrictFrom name m xs → IsStrictFrom name m (take n xs)
  take-IsStrictFrom zero m xs v = tt
  take-IsStrictFrom (suc n) m [] v = tt
  take-IsStrictFrom (suc n) m (x ∷ xs) v = (v.0, take-IsStrictFrom n (name x) xs v.1)

  strict_after :
      (m : Text) (xs : List A) → IsStrictFrom name [] xs → IsStrictFrom name [] (after name m xs)
  unfolding text_lt
  strict_after [] xs v = after-IsStrictFrom name [] [] xs v
  strict_after (c ∷ cs) xs v =
      lower name [] (c ∷ cs) (after name (c ∷ cs) xs) refl
        (after-IsStrictFrom name [] (c ∷ cs) xs v)

  -- The page has room for all of `docs`.
  fits :
      (max : ℕ) (docs : List A) (n : ℕ) (p : Page A)
      → length docs < max
      → Processed none 0 name max [] docs (n, p)
      → (n ≡ length docs) × (p.blob_items ≡ docs) × (p.blob_prefixes ≡ [])
  fits max docs n p h t =
      let items : p.blob_items ≡ t.taken = t.shows.items ∙ all_items t.taken in
      let prefixes : p.blob_prefixes ≡ [] = t.shows.prefixes ∙ no_prefix [] t.taken in
      let sum : length t.taken + length t.left ≡ length docs =
        sym (length-append t.taken t.left) ∙ ap length t.parts in
      let none_left : t.left ≡ [] = elim t.why [
        | inl e ↦ e
        | inr e ↦ ground (arith, e, t.shows.exhausted, ap length items, ap length prefixes, sum, h)
      ] in
      let all : t.taken ≡ docs =
        sym (append-nil t.taken) ∙ ap (λ l. t.taken ++ l) (sym none_left) ∙ t.parts in
      (t.counted ∙ ap length all, items ∙ all, prefixes)

  abbrev goes_on : ℕ → (ℕ → List A) → ℕ → List A → ℕ × Page A → Result (ℕ × (List A × Page A))
  goes_on f reader max docs (n, p) = elim (ltb n max) as (λ _. Result (ℕ × (List A × Page A))) [
    | true ↦ ok (n, (docs, p))
    | false ↦ fill_loop name f reader p (0 + n) n (reader (0 + n))
  ]

  stops :
      (f max : ℕ) (reader : ℕ → List A) (docs : List A) (r : Result (ℕ × Page A))
      → length docs < max
      → Returns (Processed none 0 name max [] docs) r
      → (r >>= goes_on f reader max docs >>= λ l. ok (answer name l)) ≡ ok (docs, ([], []))
  stops f max reader docs (ok (n, p)) h t =
      let (c, i, g) = fits max docs n p h t in
      let stop : ltb n max ≡ true = ground (arith, c, h) in
      let none_left : ltb n (length docs) ≡ false = ground (arith, c) in
      ground (arith, stop, none_left, i, g)
  stops f max reader docs (err e) h t = absurd t

  one_read :
      (f max : ℕ) (reader : ℕ → List A) (docs : List A)
      → length docs < max
      → IsStrictFrom name [] docs
      → (fill_loop name (suc f) reader (new_page max none none) 0 0 docs >>= λ l.
          ok (answer name l))
        ≡ ok (docs, ([], []))
  unfolding fill_loop
  one_read f max reader [] h v = refl
  one_read f max reader (x ∷ xs) h v =
      stops f max reader (x ∷ xs) (process_list name (new_page max none none) (x ∷ xs)) h (
        process_list-Processed none 0 name max [] (x ∷ xs) (new_page max none none)
          (new_page-Shows none none name max (omega (arith, h)))
          (IsStrictFrom-IsSortedFrom name [] (x ∷ xs) v))

  -- Of documents that all have names of their own: if the where clause finds fewer of the first
  -- `max` documents behind the marker than `max`, the page shows what it finds of these and has no
  -- continuation token, whatever it finds of the documents behind them.
  pub filter_blobs-read_found :
      (f max : ℕ) (found : A → Bool) (docs : List A) (marker : Text)
      → IsStrictFrom name [] docs
      → length (select name found (take max (after name marker docs))) < max
      → filter_blobs name (suc f) found docs max marker
        ≡ ok (select name found (take max (after name marker docs)), ([], []))
  unfolding filter_blobs fill
  filter_blobs-read_found f max found docs marker v h =
      one_read f max (read_found name found docs max marker)
        (select name found (take max (after name marker docs))) h
        (select-IsStrictFrom found [] (take max (after name marker docs))
          (take-IsStrictFrom max [] (after name marker docs) (strict_after marker docs v)))
