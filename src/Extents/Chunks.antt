-- ===== src/Extents/Chunks.antt =====
-- MemoryExtentChunkStore of src/common/persistence/MemoryExtentStore.ts: extents kept in memory, by
-- category, with a limit on the bytes of all of them. The methods that change the store return it
-- beside their result. Sizes are natural numbers: Sizes shows that none is ever taken below 0.
use azurite.Prelude.{
  ℕ, ◌+◌, ◌-◌, ◌==◌, Bool, true, false, not, ◌&&◌, String, Option, none, some, List, [], ◌∷◌,
  if◌then◌else◌, ltb,
}
use azurite.Prelude.Maps.{get, set, delete}

-- The buffers of a chunk are lists of bytes.
pub record Chunk : Type 0 where
  pub id : String
  pub offset : ℕ
  pub count : ℕ
  pub buffers : List (List ℕ)

pub record Category : Type 0 where
  pub chunks : List (String × Chunk)
  pub total_size : ℕ

pub record ChunkStore : Type 0 where
  pub size_limit : Option ℕ
  pub categories : List (String × Category)
  pub total_size : ℕ

abbrev pub new_store : Option ℕ → ChunkStore
new_store limit = record { size_limit = limit; categories = []; total_size = 0 }

abbrev pub empty_category : Category
empty_category = record { chunks = []; total_size = 0 }

-- `existing ? existing.count : 0`
abbrev pub count_of : Option Chunk → ℕ
count_of none = 0
count_of (some c) = c.count

abbrev pub exceeds : Option ℕ → ℕ → ℕ → Bool
exceeds none size old = false
exceeds (some limit) size old = ltb (limit + old) size

-- trySet on a category that the map has: with delta = count - old, the test
-- `totalSize + delta > sizeLimit` is `limit + old < totalSize + count`.
unfoldable pub set_in : ChunkStore → String → Category → Chunk → Bool × ChunkStore
set_in s name category chunk =
    let old = count_of (get category.chunks chunk.id) in
    if exceeds s.size_limit (s.total_size + chunk.count) old then (false, s) else (
      true,
      record s {
        categories = set s.categories name (record {
          chunks = set category.chunks chunk.id chunk;
          total_size = category.total_size + chunk.count - old;
        });
        total_size = s.total_size + chunk.count - old;
      },
    )

unfoldable pub try_set : ChunkStore → String → Chunk → Bool × ChunkStore
unfolding set_in
try_set s name chunk = elim (get s.categories name) [
  | none ↦
      set_in (record s { categories = set s.categories name empty_category }) name empty_category
        chunk
  | some category ↦ set_in s name category chunk
]

unfoldable pub get_chunk : ChunkStore → String → String → Option Chunk
get_chunk s name id = elim (get s.categories name) [
  | none ↦ none
  | some category ↦ get category.chunks id
]

unfoldable pub clear : ChunkStore → String → ChunkStore
clear s name = elim (get s.categories name) [
  | none ↦ s
  | some category ↦ record s {
    categories = delete s.categories name;
    total_size = s.total_size - category.total_size;
  }
]

abbrev is_empty : List (String × Chunk) → Bool
is_empty [] = true
is_empty (e ∷ m) = false

-- `delete` on a chunk that the category has.
unfoldable pub delete_in : ChunkStore → String → Category → String → Chunk → ChunkStore
delete_in s name category id existing =
    let left : Category = record {
      chunks = delete category.chunks id;
      total_size = category.total_size - existing.count;
    } in
    record s {
      categories =
          if is_empty left.chunks then delete s.categories name else set s.categories name left;
      total_size = s.total_size - existing.count;
    }

unfoldable pub delete_chunk : ChunkStore → String → String → Bool × ChunkStore
delete_chunk s name id = elim (get s.categories name) [
  | none ↦ (false, s)
  | some category ↦ elim (get category.chunks id) [
    | none ↦ (false, s)
    | some existing ↦ (true, delete_in s name category id existing)
  ]
]

-- `sizeLimit && sizeLimit < this._totalSize`: a limit of 0 is not compared.
unfoldable pub set_size_limit : ChunkStore → Option ℕ → Bool × ChunkStore
set_size_limit s none = (true, record s { size_limit = none })
set_size_limit s (some limit) =
    if not (limit == 0) && ltb limit s.total_size
    then (false, s)
    else (true, record s { size_limit = some limit })
