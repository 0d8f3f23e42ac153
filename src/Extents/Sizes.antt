-- ===== src/Extents/Sizes.antt =====
-- The sizes that MemoryExtentChunkStore of src/common/persistence/MemoryExtentStore.ts keeps.
use azurite.Prelude.{
  ℕ, ◌+◌, ◌-◌, ◌≤◌, ◌≡◌, ◌≢◌, inl, inr, String, Option, none, some, List, arith, Option-cases,
  eq_iff,
}
use azurite.Prelude.Maps.{
  get, set, delete, total, AllValues, total-set, total-delete, set-AllValues, delete-AllValues,
  get-AllValues, get-set,
}
use azurite.Extents.Chunks.{
  Chunk, Category, ChunkStore, empty_category, count_of, set_in, try_set, clear, delete_in,
  delete_chunk, set_size_limit,
}

abbrev pub chunk_size : Chunk → ℕ
chunk_size c = c.count

abbrev pub category_size : Category → ℕ
category_size c = c.total_size

-- A category's size is that of its chunks.
abbrev pub IsCounted : Category → Type 0
IsCounted c = c.total_size ≡ total chunk_size c.chunks

-- The sizes are those of what the store keeps.
pub record IsConsistent (s : ChunkStore) : Type 0 where
  pub sum : s.total_size ≡ total category_size s.categories
  pub counted : AllValues IsCounted s.categories

abbrev pub Within : Option ℕ → ℕ → Type 0
Within none n = Unit
Within (some limit) n = n ≤ limit

pub record IsSound (s : ChunkStore) : Type 0 where
  pub consistent : IsConsistent s
  pub within : Within s.size_limit s.total_size

-- An old chunk is part of its category, and a category part of the store.
old_le : (c : Category) (id : String) → IsCounted c → count_of (get c.chunks id) ≤ c.total_size
old_le c id h = ground (arith, total-delete chunk_size c.chunks id)

module _ (s : ChunkStore) (name : String) (category : Category) (v : IsConsistent s)
    (h : get s.categories name ≡ some category) where
  is_counted : IsCounted category
  is_counted = get-AllValues IsCounted s.categories name category v.counted h

  category_le : category.total_size ≤ s.total_size
  category_le = ground (arith, total-delete category_size s.categories name, v.sum)

  module _ (chunk : Chunk) where
    abbrev old : ℕ
    old = count_of (get category.chunks chunk.id)

    abbrev changed : Category
    changed = record {
      chunks = set category.chunks chunk.id chunk;
      total_size = category.total_size + chunk.count - old;
    }

    changed-IsCounted : IsCounted changed
    changed-IsCounted = ground (
      arith,
      total-set chunk_size category.chunks chunk.id chunk,
      is_counted,
      old_le category chunk.id is_counted,
    )

    set_sum : s.total_size + chunk.count - old ≡ total category_size (set s.categories name changed)
    set_sum = ground (
      arith,
      total-set category_size s.categories name changed,
      v.sum,
      category_le,
      old_le category chunk.id is_counted,
    )

    set_in-IsSound : Within s.size_limit s.total_size → IsSound (set_in s name category chunk).1
    unfolding set_in
    set_in-IsSound w = ground (
      arith,
      set_sum,
      set-AllValues IsCounted s.categories name changed v.counted changed-IsCounted,
      old_le category chunk.id is_counted,
      category_le,
    )

  cleared-IsSound :
      Within s.size_limit s.total_size
      → IsSound (record s {
        categories = delete s.categories name;
        total_size = s.total_size - category.total_size;
      })
  cleared-IsSound w = ground (
    arith,
    total-delete category_size s.categories name,
    v.sum,
    delete-AllValues IsCounted s.categories name v.counted,
    category_le,
  )

  module _ (id : String) (existing : Chunk) (e : get category.chunks id ≡ some existing) where
    abbrev remaining : Category
    remaining = record {
      chunks = delete category.chunks id;
      total_size = category.total_size - existing.count;
    }

    remaining-IsCounted : IsCounted remaining
    remaining-IsCounted = ground (arith, total-delete chunk_size category.chunks id, is_counted)

    existing_le : existing.count ≤ category.total_size
    existing_le = ground (arith, total-delete chunk_size category.chunks id, is_counted)

    delete_in-IsSound :
        Within s.size_limit s.total_size → IsSound (delete_in s name category id existing)
    unfolding delete_in
    delete_in-IsSound w = ground (
      arith,
      total-delete category_size s.categories name,
      total-set category_size s.categories name remaining,
      v.sum,
      remaining-IsCounted,
      delete-AllValues IsCounted s.categories name v.counted,
      set-AllValues IsCounted s.categories name remaining v.counted remaining-IsCounted,
      existing_le,
      category_le,
    )

pub get-set_same :
    (m : List (String × Category)) (k : String) (c : Category) → get (set m k c) k ≡ some c
get-set_same m k c = ground (arith, get-set m k k c, eq_iff k k)

-- The two branches of trySet.
module _ (s : ChunkStore) (name : String) where
  pub try_set_new :
      (chunk : Chunk)
      → get s.categories name ≡ none
      → try_set s name chunk
        ≡ set_in
            (record s { categories = set s.categories name empty_category })
            name
            empty_category
            chunk
  unfolding try_set
  try_set_new chunk h = ground arith

  pub try_set_old :
      (chunk : Chunk) (category : Category)
      → get s.categories name ≡ some category
      → try_set s name chunk ≡ set_in s name category chunk
  unfolding try_set
  try_set_old chunk category h = ground arith

module _ (s : ChunkStore) (v : IsSound s) (name : String) where
  opened-IsConsistent :
      get s.categories name ≡ none
      → IsConsistent (record s { categories = set s.categories name empty_category })
  opened-IsConsistent h = ground (
    arith,
    total-set category_size s.categories name empty_category,
    v.consistent.sum,
    set-AllValues IsCounted s.categories name empty_category v.consistent.counted,
  )

  pub try_set-IsSound : (chunk : Chunk) → IsSound (try_set s name chunk).1
  try_set-IsSound chunk = elim (Option-cases (get s.categories name)) [
    | inl h ↦ rw (try_set_new s name chunk h) (
        set_in-IsSound (record s { categories = set s.categories name empty_category }) name
          empty_category (opened-IsConsistent h) (get-set_same s.categories name empty_category)
          chunk v.within)
    | inr (category, h) ↦
        rw (try_set_old s name chunk category h)
          (set_in-IsSound s name category v.consistent h chunk v.within)
  ]

  pub clear-IsSound : IsSound (clear s name)
  unfolding clear
  clear-IsSound = elim (Option-cases (get s.categories name)) [
    | inl h ↦ ground (arith, v)
    | inr (category, h) ↦ ground (arith, cleared-IsSound s name category v.consistent h v.within)
  ]

  pub delete_chunk-IsSound : (id : String) → IsSound (delete_chunk s name id).1
  unfolding delete_chunk
  delete_chunk-IsSound id = elim (Option-cases (get s.categories name)) [
    | inl h ↦ ground (arith, v)
    | inr (category, h) ↦ elim (Option-cases (get category.chunks id)) [
      | inl e ↦ ground (arith, v)
      | inr (existing, e) ↦
          ground (arith, delete_in-IsSound s name category v.consistent h id existing e v.within)
    ]
  ]

pub set_size_limit-IsSound :
    (s : ChunkStore) (limit : Option ℕ)
    → IsSound s
    → limit ≢ some 0
    → IsSound (set_size_limit s limit).1
unfolding set_size_limit
set_size_limit-IsSound s none v n = ground arith
set_size_limit-IsSound s (some limit) v n = ground arith
