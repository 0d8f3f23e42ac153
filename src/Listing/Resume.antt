-- ===== src/Listing/Resume.antt =====
-- The pages of listBlobs (src/blob/persistence/LokiBlobMetadataStore.ts), one after the other.
use azurite.Prelude.{
  ℕ, ◌+◌, ◌≤◌, ◌<◌, ◌≡◌, refl, sym, ap, ◌∙◌, ◌⊎◌, inl, inr, Option, List, [], ◌∷◌, ◌++◌, arith,
  length,
}
use mathlib.Core.Path.{subst}
use azurite.Errors.{Result, ok, err, Returns}
use azurite.Conditions.Model.{Text}
use azurite.Listing.Page.{prefix_size, new_page, fill}
use azurite.Listing.Order.{last_name, from_start}
use azurite.Listing.Shows.{items_of, prefixes_from}
use azurite.Listing.Pages.{IsPage, fill-IsPage}
use azurite.Listing.Blobs.{after, read_page, list_blobs}
use azurite.Listing.Strict.{
  IsStrictFrom, IsStrictFrom-IsSortedFrom, after-IsStrictFrom, after-last, after-after,
  last_name-behind,
}

weaken-Returns :
    {A : Type 0} (P Q : A → Type 0) (r : Result A)
    → ((a : A) → P a → Q a)
    → Returns P r
    → Returns Q r
weaken-Returns P Q (ok a) h p = h a p
weaken-Returns P Q (err e) h p = absurd p

module _ {A : Type 0} (name : A → Text) (docs : List A) (delimiter prefix : Option Text)
    (max : ℕ) where
  -- A page of what is behind the marker; the documents behind its own token are those that it left.
  pub record IsNextPage (marker : Text) (r : List A × (List Text × Text)) : Type 0 where
    pub page : IsPage delimiter (prefix_size prefix) name max (after name marker docs) r
    pub resumes : (r.1.1 ≡ []) ⊎ (after name r.1.1 docs ≡ page.rest)

  resume :
      (marker : Text) (seen rest : List A)
      → IsStrictFrom name [] docs
      → seen ++ rest ≡ after name marker docs
      → 1 ≤ length seen
      → after name (last_name name [] seen) docs ≡ rest
  resume marker [] rest strict w h = absurd (omega (arith, h))
  resume marker (x ∷ xs) rest strict w h =
      let behind : IsStrictFrom name marker ((x ∷ xs) ++ rest) =
        subst (IsStrictFrom name marker) (sym w) (after-IsStrictFrom name [] marker docs strict) in
      let token = last_name name [] (x ∷ xs) in
      sym (after-after name marker token docs (last_name-behind name marker (x ∷ xs) rest behind h))
      ∙ ap (after name token) (sym w)
      ∙ after-last name marker (x ∷ xs) rest behind

  -- A full page has taken a document.
  takes_some :
      (seen : List A)
      → 0 < max
      → length (items_of delimiter (prefix_size prefix) name seen)
          + length (prefixes_from delimiter (prefix_size prefix) name [] seen)
        ≡ max
      → 1 ≤ length seen
  takes_some [] pos e = absurd (omega (arith, pos, e))
  takes_some (x ∷ xs) pos e = omega arith

  next_page :
      (marker : Text)
      → 0 < max
      → IsStrictFrom name [] docs
      → (r : List A × (List Text × Text))
      → IsPage delimiter (prefix_size prefix) name max (after name marker docs) r
      → IsNextPage marker r
  next_page marker pos strict r v = record {
    page = v;
    resumes = elim v.marker [
      | inl l ↦ inl l.1
      | inr m ↦
          let some_taken : 1 ≤ length v.seen =
            takes_some v.seen pos (omega (arith, m.2, ap length v.items, ap length v.prefixes)) in
          inr (
            subst (λ t. after name t docs ≡ v.rest) (sym m.1)
              (resume marker v.seen v.rest strict v.whole some_taken))
    ];
  }

  length-after : (m : Text) (xs : List A) → length (after name m xs) ≤ length xs
  length-after m [] = omega arith
  length-after m (x ∷ xs) = ground (arith, length-after m xs)

  -- Of documents that all have names of their own, a page of at least one result shows the first of
  -- those behind the marker, none left out, and behind its own continuation token lie just those
  -- that it left: following the tokens lists every document once.
  pub list_blobs-IsNextPage :
      (f : ℕ) (marker : Text)
      → 0 < max
      → IsStrictFrom name [] docs
      → length docs ≤ f
      → Returns (IsNextPage marker) (list_blobs name f docs delimiter prefix max marker)
  unfolding list_blobs
  list_blobs-IsNextPage f marker pos strict enough =
      weaken-Returns (IsPage delimiter (prefix_size prefix) name max (after name marker docs))
        (IsNextPage marker)
        (fill name f (read_page name docs max marker) (new_page max delimiter prefix))
        (next_page marker pos strict)
        (fill-IsPage delimiter prefix name max (after name marker docs)
          (read_page name docs max marker) f pos (λ n. refl)
          (from_start name marker (after name marker docs) (
            IsStrictFrom-IsSortedFrom name marker (after name marker docs)
              (after-IsStrictFrom name [] marker docs strict)))
          (omega (arith, enough, length-after marker docs)))
