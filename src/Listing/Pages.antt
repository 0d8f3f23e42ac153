-- ===== src/Listing/Pages.antt =====
-- What PageWithDelimiter (src/blob/persistence/PageWithDelimiter.ts) answers.
use azurite.Prelude.{
  ℕ, ◌+◌, ◌≤◌, ◌<◌, ◌≡◌, refl, ◌⊎◌, Option, List, [], ◌++◌, arith, length, take, drop,
}
use azurite.Errors.{Returns, bind-Returns}
use azurite.Conditions.Model.{Text}
use azurite.Listing.Page.{new_page, fill_loop, fill}
use azurite.Listing.Order.{IsSortedFrom, last_name}
use azurite.Listing.Shows.{new_page-Shows, items_of, prefixes_from}
use azurite.Listing.Page.{prefix_size}
use azurite.Listing.Fill.{Ended, fill_loop-Ended}

-- What a page is to be: the documents `seen` of `all`, shown, at most `max` of what is shown, and a
-- marker just if there are more documents, which is then the name of the last and the page is full.
pub record IsPage {A : Type 0} (delimiter : Option Text) (start : ℕ) (name : A → Text) (max : ℕ)
    (all : List A) (r : List A × (List Text × Text)) : Type 0 where
  pub seen : List A
  pub rest : List A
  pub whole : seen ++ rest ≡ all
  pub items : r.0 ≡ items_of delimiter start name seen
  pub prefixes : r.1.0 ≡ prefixes_from delimiter start name [] seen
  pub few : length r.0 + length r.1.0 ≤ max
  pub marker :
      ((rest ≡ []) × (r.1.1 ≡ []))
      ⊎ ((1 ≤ length rest) × (r.1.1 ≡ last_name name [] seen) × (length r.0 + length r.1.0 ≡ max))

-- A page of at least one result, filled from a reader of documents in the order of their names that
-- gives at most a page at a time, shows the first documents, none left out: those without the
-- delimiter behind the prefix as items, the others as prefixes, each once, and no more than asked
-- for. It has a continuation token exactly if documents are left, which is the name of the last
-- one that it shows; the page is full then.
pub fill-IsPage :
    {A : Type 0} (delimiter prefix : Option Text) (name : A → Text) (max : ℕ) (all : List A)
    (reader : ℕ → List A) (f : ℕ)
    → 0 < max
    → ((n : ℕ) → reader n ≡ take max (drop n all))
    → IsSortedFrom name [] all
    → length all ≤ f
    → Returns
        (IsPage delimiter (prefix_size prefix) name max all)
        (fill name f reader (new_page max delimiter prefix))
unfolding fill
fill-IsPage delimiter prefix name max all reader f pos reads sorted enough =
    let start = prefix_size prefix in
    bind-Returns (Ended delimiter start name max pos all reader reads)
      (IsPage delimiter start name max all)
      (fill_loop name f reader (new_page max delimiter prefix) 0 0 (reader 0)) _
      (fill_loop-Ended delimiter start name max pos all reader reads f [] all (reader 0)
        (new_page max delimiter prefix) 0 0 refl (reads 0) refl enough
        (new_page-Shows delimiter prefix name max pos) sorted)
      λ r e. record {
        seen = e.seen;
        rest = e.rest;
        whole = e.whole;
        items = e.shows.items;
        prefixes = e.shows.prefixes;
        few = e.shows.few;
        marker = ground (arith, e.told, e.shows.marker, e.shows.exhausted);
      }
