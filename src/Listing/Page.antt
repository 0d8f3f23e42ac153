-- ===== src/Listing/Page.antt =====
-- PageWithDelimiter of src/blob/persistence/PageWithDelimiter.ts.
use azurite.Prelude.{
  ℕ, zero, suc, ◌+◌, Bool, true, false, not, ◌&&◌, Option, none, some, List, [], ◌∷◌, ◌++◌,
  if◌then◌else◌, ltb, ◌==◌, length, take, drop,
}
use azurite.Errors.{Result, ok, err, plain_error, out_of_fuel, throw_if, ◌>>=◌, ◌>>◌}
use azurite.Conditions.Model.{Text, includes}
use azurite.Tags.Evaluate.{text_lt}

-- blobPrefixes is a Set, which keeps the order of insertion.
pub record Page {ℓ} (A : Type ℓ) : Type ℓ where
  pub delimiter : Option Text
  pub max_results : ℕ
  pub prefix_length : ℕ
  pub blob_items : List A
  pub blob_prefixes : List Text
  pub latest_marker : Text
  pub is_full : Bool
  pub is_exhausted : Bool

unfoldable pub starts_with : Text → Text → Bool
starts_with [] s = true
starts_with (c ∷ cs) [] = false
starts_with (c ∷ cs) (x ∷ xs) = c == x && starts_with cs xs

unfoldable pub index_from : Text → Text → ℕ → Option ℕ
unfolding starts_with
index_from d [] at = if starts_with d [] then some at else none
index_from d (x ∷ xs) at =
    let later = index_from d xs (at + 1) in if starts_with d (x ∷ xs) then some at else later

-- `name.indexOf(delimiter, start)`
abbrev pub index_of : Text → Text → ℕ → Option ℕ
index_of s d start =
    let start' = if ltb start (length s) then start else length s in
    index_from d (drop start' s) start'

-- `blobPrefixes.add(prefix)`
abbrev pub set_add : List Text → Text → List Text
set_add prefixes prefix = if includes prefixes prefix then prefixes else prefixes ++ prefix ∷ []

-- The prefix that a name is shown as.
unfoldable pub group : Option Text → ℕ → Text → Option Text
unfolding index_from
group none start name = none
group (some delimiter) start name = elim (index_of name delimiter start) [
  | none ↦ none
  | some at ↦ some (take (at + 1) name)
]

-- prefixLength
abbrev pub prefix_size : Option Text → ℕ
prefix_size none = 0
prefix_size (some prefix) = length prefix

module _ {ℓ} {A : Type ℓ} where
  abbrev pub new_page : ℕ → Option Text → Option Text → Page A
  new_page max delimiter prefix = record {
    delimiter = delimiter;
    max_results = max;
    prefix_length = prefix_size prefix;
    blob_items = [];
    blob_prefixes = [];
    latest_marker = [];
    is_full = false;
    is_exhausted = false;
  }

  abbrev pub update_full : Page A → Page A
  update_full p = record p {
    is_full = length p.blob_items + length p.blob_prefixes == p.max_results;
  }

  -- addItem where the page is not exhausted.
  abbrev pub push_item : Page A → A → Bool × Page A
  push_item p item =
      let pushed =
        update_full
          (if p.is_full then p else record p { blob_items = p.blob_items ++ item ∷ [] }) in
      (not p.is_full, record pushed { is_exhausted = pushed.is_full })

  unfoldable pub add_item : Page A → A → Bool × Page A
  add_item p item = if p.is_exhausted then (false, p) else push_item p item

  unfoldable pub add_prefix : Page A → Text → Bool × Page A
  add_prefix p prefix =
      if p.is_exhausted
      then (false, p)
      else if p.is_full
      then (
        includes p.blob_prefixes prefix,
        update_full (record p { is_exhausted = not (includes p.blob_prefixes prefix) }),
      )
      else (true, update_full (record p { blob_prefixes = set_add p.blob_prefixes prefix }))

  -- Where the item goes.
  abbrev pub place : Page A → Option Text → A → Bool × Page A
  place p none item = add_item p item
  place p (some prefix) item = add_prefix p prefix

  abbrev pub mark : Text → Bool × Page A → Bool × Page A
  mark marker (added, p) = (added, if added then record p { latest_marker = marker } else p)

  -- The rest of add.
  abbrev pub placed : Page A → Text → A → Bool × Page A
  placed p name item =
      mark (if text_lt p.latest_marker name then name else p.latest_marker)
        (place p (group p.delimiter p.prefix_length name) item)

  unfoldable pub add : Page A → Text → A → Result (Bool × Page A)
  add p name item =
      if p.is_exhausted
      then ok (false, p)
      else do throw_if (text_lt name p.latest_marker) plain_error; ok (placed p name item)

  module _ (name : A → Text) where
    -- processList
    unfoldable pub process_list : Page A → List A → Result (ℕ × Page A)
    process_list p [] = ok (0, p)
    process_list p (item ∷ items) = do
      (added, p') ← add p (name item) item
      let n : ℕ = if added then 1 else 0
      elim p'.is_exhausted as (λ _. Result (ℕ × Page A)) [
        | true ↦ ok (n, p')
        | false ↦ do (m, p2) ← process_list p' items; ok (n + m, p2)
      ]

    -- The loop of fill: what the last call of processList added, of which documents.
    unfoldable pub fill_loop :
        ℕ → (ℕ → List A) → Page A → ℕ → ℕ → List A → Result (ℕ × (List A × Page A))
    fill_loop f reader p offset added [] = ok (added, ([], p))
    fill_loop zero reader p offset added (doc ∷ docs) = err out_of_fuel
    fill_loop (suc f) reader p offset added (doc ∷ docs) = do
      (n, p') ← process_list p (doc ∷ docs)
      elim (ltb n p.max_results) as (λ _. Result (ℕ × (List A × Page A))) [
        | true ↦ ok (n, (doc ∷ docs, p'))
        | false ↦ fill_loop f reader p' (offset + n) n (reader (offset + n))
      ]

    -- The answer of fill: items, prefixes and the continuation token.
    abbrev pub answer : ℕ × (List A × Page A) → List A × (List Text × Text)
    answer (added, (docs, p)) =
        (p.blob_items, (p.blob_prefixes, if ltb added (length docs) then p.latest_marker else []))

    unfoldable pub fill : ℕ → (ℕ → List A) → Page A → Result (List A × (List Text × Text))
    fill f reader p = do last ← fill_loop f reader p 0 0 (reader 0); ok (answer last)
