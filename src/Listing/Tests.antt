-- ===== src/Listing/Tests.antt =====
-- Small listings; a document is its name.
use azurite.Prelude.{◌≡◌, refl, Bool, Option, none, some, List, [], ◌∷◌, arith}
use azurite.Errors.{ok, Returns}
use azurite.Conditions.Model.{Text, text_eq, includes}
use azurite.Tags.Evaluate.{text_lt}
use azurite.Listing.Page.{
  new_page, fill, fill_loop, process_list, add, add_item, add_prefix, group, index_from,
  starts_with,
}
use azurite.Listing.Pages.{IsPage, fill-IsPage}
use azurite.Listing.Blobs.{read_page, list_blobs, filter_blobs}
use azurite.Listing.Resume.{IsNextPage, list_blobs-IsNextPage}
use azurite.Listing.Filter.{filter_blobs-read_found}

abbrev own_name : Text → Text
own_name x = x

-- a, b/c, b/d, e
abbrev docs : List Text
docs = (b'a' ∷ []) ∷ (b'b' ∷ b'/' ∷ b'c' ∷ []) ∷ (b'b' ∷ b'/' ∷ b'd' ∷ []) ∷ (b'e' ∷ []) ∷ []

abbrev slash : Option Text
slash = some (b'/' ∷ [])

-- Two results: a, and b/ for both of its documents.
two_results :
    list_blobs own_name 4 docs slash none 2 []
    ≡ ok ((b'a' ∷ []) ∷ [], ((b'b' ∷ b'/' ∷ []) ∷ [], b'b' ∷ b'/' ∷ b'd' ∷ []))
unfolding list_blobs fill fill_loop process_list add add_item add_prefix group index_from
    starts_with text_lt text_eq includes
two_results = refl

fill-IsPage_example :
    Returns
      (IsPage slash 0 own_name 2 docs)
      (fill own_name 4 (read_page own_name docs 2 []) (new_page 2 slash none))
unfolding text_lt
fill-IsPage_example =
    fill-IsPage slash none own_name 2 docs (read_page own_name docs 2 []) 4 (omega arith)
      (λ n. refl) (refl, (refl, (refl, (refl, tt)))) (omega arith)

list_blobs-IsNextPage_example :
    Returns
      (IsNextPage own_name docs slash none 2 (b'a' ∷ []))
      (list_blobs own_name 4 docs slash none 2 (b'a' ∷ []))
unfolding text_lt
list_blobs-IsNextPage_example =
    list_blobs-IsNextPage own_name docs slash none 2 4 (b'a' ∷ []) (omega arith)
      (refl, (refl, (refl, (refl, tt)))) (omega arith)

abbrev is_e : Text → Bool
is_e x = text_eq x (b'e' ∷ [])

-- The last document matches, but the page is empty and the last one.
filter_blobs-read_found_example : filter_blobs own_name 1 is_e docs 2 [] ≡ ok ([], ([], []))
unfolding text_lt text_eq includes
filter_blobs-read_found_example =
    filter_blobs-read_found own_name 0 2 is_e docs [] (refl, (refl, (refl, (refl, tt))))
      (omega arith)
