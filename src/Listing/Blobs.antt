-- ===== src/Listing/Blobs.antt =====
-- listBlobs and filterBlobs of src/blob/persistence/LokiBlobMetadataStore.ts: a page of the documents
-- behind a marker. `docs` are the documents that match the other conditions, in the order of their
-- names.
use azurite.Prelude.{ℕ, Bool, Option, none, List, [], ◌∷◌, if◌then◌else◌, take, drop}
use azurite.Errors.{Result}
use azurite.Conditions.Model.{Text}
use azurite.Tags.Evaluate.{text_lt}
use azurite.Listing.Page.{new_page, fill}

module _ {ℓ} {A : Type ℓ} (name : A → Text) where
  -- `where((obj) => obj.name > marker)`
  abbrev pub after : Text → List A → List A
  after marker [] = []
  after marker (x ∷ xs) =
      let later = after marker xs in if text_lt marker (name x) then x ∷ later else later

  -- readPage
  abbrev pub read_page : List A → ℕ → Text → ℕ → List A
  read_page docs max marker offset = take max (drop offset (after marker docs))

  unfoldable pub list_blobs :
      ℕ → List A → Option Text → Option Text → ℕ → Text → Result (List A × (List Text × Text))
  list_blobs f docs delimiter prefix max marker =
      fill name f (read_page docs max marker) (new_page max delimiter prefix)

  -- The filter of readPage in filterBlobs, which comes after the limit; `found` says whether the where
  -- clause finds the document.
  abbrev pub select : (A → Bool) → List A → List A
  select found [] = []
  select found (x ∷ xs) = if found x then x ∷ select found xs else select found xs

  abbrev pub read_found : (A → Bool) → List A → ℕ → Text → ℕ → List A
  read_found found docs max marker offset = select found (read_page docs max marker offset)

  -- FilterBlobPage is PageWithDelimiter without prefixes. The tags that a document is listed with
  -- are left out.
  unfoldable pub filter_blobs :
      ℕ → (A → Bool) → List A → ℕ → Text → Result (List A × (List Text × Text))
  filter_blobs f found docs max marker =
      fill name f (read_found found docs max marker) (new_page max none none)
