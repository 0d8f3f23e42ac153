-- ===== src/Listing/Shows.antt =====
-- What a page of src/blob/persistence/PageWithDelimiter.ts shows of the documents that it took.
use azurite.Prelude.{
  ℕ, ◌+◌, ◌≤◌, ◌<◌, ◌≡◌, refl, sym, ap, ◌∙◌, ◌⊎◌, inl, Bool, true, false, Option, none, some, List,
  [], ◌∷◌, ◌++◌, arith, ◌==◌, length,
}
use mathlib.Core.List.{append_assoc, append-nil}
use azurite.Conditions.Model.{Text}
use azurite.Listing.Page.{Page, new_page, prefix_size, group, set_add}
use azurite.Listing.Order.{last_name}

module _ {A : Type 0} (delimiter : Option Text) (start : ℕ) (name : A → Text) where
  abbrev pub group_of : A → Option Text
  group_of x = group delimiter start (name x)

  -- The documents that are listed under their own name.
  abbrev pub single : Option Text → A → List A
  single none x = x ∷ []
  single (some g) x = []

  abbrev pub noted : List Text → Option Text → List Text
  noted gs none = gs
  noted gs (some g) = set_add gs g

  -- What a list of documents is to be shown as: the documents without a prefix, and each prefix
  -- once.
  abbrev pub items_of : List A → List A
  items_of [] = []
  items_of (x ∷ xs) = single (group_of x) x ++ items_of xs

  abbrev pub prefixes_from : List Text → List A → List Text
  prefixes_from gs [] = gs
  prefixes_from gs (x ∷ xs) = prefixes_from (noted gs (group_of x)) xs

  pub items_of-snoc :
      (xs : List A) (x : A) → items_of (xs ++ x ∷ []) ≡ items_of xs ++ single (group_of x) x
  items_of-snoc [] x = append-nil (single (group_of x) x)
  items_of-snoc (y ∷ ys) x =
      ap (λ l. single (group_of y) y ++ l) (items_of-snoc ys x)
      ∙ sym (append_assoc (single (group_of y) y) (items_of ys) (single (group_of x) x))

  pub prefixes_from-snoc :
      (gs : List Text) (xs : List A) (x : A)
      → prefixes_from gs (xs ++ x ∷ []) ≡ noted (prefixes_from gs xs) (group_of x)
  prefixes_from-snoc gs [] x = refl
  prefixes_from-snoc gs (y ∷ ys) x = prefixes_from-snoc (noted gs (group_of y)) ys x

  abbrev pub count : Page A → ℕ
  count p = length p.blob_items + length p.blob_prefixes

  -- The page has taken the documents `seen` and shows just them.
  pub record Shows (max : ℕ) (seen : List A) (p : Page A) : Type 0 where
    pub delimiter_kept : p.delimiter ≡ delimiter
    pub prefix_kept : p.prefix_length ≡ start
    pub max_kept : p.max_results ≡ max
    pub items : p.blob_items ≡ items_of seen
    pub prefixes : p.blob_prefixes ≡ prefixes_from [] seen
    pub marker : p.latest_marker ≡ last_name name [] seen
    pub few : count p ≤ max
    pub full : p.is_full ≡ (count p == max)
    pub exhausted : (p.is_exhausted ≡ false) ⊎ (count p ≡ max)

  -- A call of add took the document, or found the page exhausted.
  pub data Added (max : ℕ) (seen : List A) (x : A) : Bool × Page A → Type 0 where
    took : {p : Page A} → Shows max (seen ++ x ∷ []) p → Added max seen x (true, p)
    refused : {p : Page A} → Shows max seen p → p.is_exhausted ≡ true → Added max seen x (false, p)

pub new_page-Shows :
    {A : Type 0} (delimiter prefix : Option Text) (name : A → Text) (max : ℕ)
    → 0 < max
    → Shows delimiter (prefix_size prefix) name max [] (new_page max delimiter prefix)
new_page-Shows delimiter prefix name max pos = record {
  delimiter_kept = refl;
  prefix_kept = refl;
  max_kept = refl;
  items = refl;
  prefixes = refl;
  marker = refl;
  few = omega arith;
  full = ground (arith, pos);
  exhausted = inl refl;
}
