-- ===== src/Extents/Reads.antt =====
-- What MemoryExtentChunkStore of src/common/persistence/MemoryExtentStore.ts reads back.
use azurite.Prelude.{
  ◌+◌, ◌-◌, ◌≡◌, ◌∙◌, ap, Bool, ◌&&◌, inl, inr, String, Option, none, some, arith, if◌then◌else◌,
  str_eq, eq_iff, Option-cases,
}
use azurite.Prelude.Maps.{get, set, get-set}
use azurite.Extents.Chunks.{
  Chunk, Category, ChunkStore, empty_category, count_of, set_in, try_set, get_chunk,
}
use azurite.Extents.Sizes.{try_set_new, try_set_old, get-set_same}

-- Reading the id `i` of the category `n` after a call that keeps `chunk` in the category `name` of a
-- store that read as `before`, or refuses it.
abbrev pub read_after : Bool → String → Chunk → String → String → Option Chunk → Option Chunk
read_after kept name chunk n i before =
    if kept && (str_eq name n && str_eq chunk.id i) then some chunk else before

get_chunk-set_in :
    (s : ChunkStore) (name : String) (category : Category) (chunk : Chunk) (n i : String)
    → get s.categories name ≡ some category
    → get_chunk (set_in s name category chunk).1 n i
      ≡ read_after (set_in s name category chunk).0 name chunk n i (get_chunk s n i)
unfolding set_in get_chunk
get_chunk-set_in s name category chunk n i h = ground (
  arith,
  get-set s.categories name n (record {
    chunks = set category.chunks chunk.id chunk;
    total_size = category.total_size + chunk.count - count_of (get category.chunks chunk.id);
  }),
  get-set category.chunks chunk.id i chunk,
  eq_iff name n,
)

get_chunk-opened :
    (s : ChunkStore) (name n i : String)
    → get s.categories name ≡ none
    → get_chunk (record s { categories = set s.categories name empty_category }) n i
      ≡ get_chunk s n i
unfolding get_chunk get
get_chunk-opened s name n i h =
    ground (arith, get-set s.categories name n empty_category, eq_iff name n)

-- After a call of trySet that returns true the store reads the chunk under its category and id, and
-- under any other category or id what it read before; after a call that returns false it reads
-- everywhere what it read before.
pub get_chunk-try_set :
    (s : ChunkStore) (name : String) (chunk : Chunk) (n i : String)
    → get_chunk (try_set s name chunk).1 n i
      ≡ read_after (try_set s name chunk).0 name chunk n i (get_chunk s n i)
get_chunk-try_set s name chunk n i = elim (Option-cases (get s.categories name)) [
  | inl h ↦ rw (try_set_new s name chunk h) (
      get_chunk-set_in (record s { categories = set s.categories name empty_category }) name
        empty_category chunk n i (get-set_same s.categories name empty_category)
      ∙ ap
          (λ r.
            read_after
              (set_in (record s { categories = set s.categories name empty_category }) name
                empty_category chunk).0
              name chunk n i r)
          (get_chunk-opened s name n i h))
  | inr (category, h) ↦
      rw (try_set_old s name chunk category h) (get_chunk-set_in s name category chunk n i h)
]
