-- ===== src/Extents/Tests.antt =====
-- The chunk store on small chunks.
use azurite.Prelude.{◌≡◌, refl, true, false, String, some, [], ◌∷◌, arith}
use azurite.Prelude.Maps.{get, set}
use azurite.Extents.Chunks.{
  Chunk, ChunkStore, new_store, set_in, try_set, get_chunk, set_size_limit,
}
use azurite.Extents.Sizes.{IsSound}
use azurite.Extents.Runs.{try_set_op, delete_op, run_chunk_ops, run_chunk_ops-IsSound}
use azurite.Extents.Reads.{read_after, get_chunk-try_set}

abbrev chunk : String → Chunk
chunk id = record { id = id; offset = 0; count = 3; buffers = (1 ∷ 2 ∷ 3 ∷ []) ∷ [] }

abbrev small : ChunkStore
small = new_store (some 5)

small-IsSound : IsSound small
small-IsSound = ground arith

-- A second chunk of 3 bytes does not fit 5 bytes; the same id again does.
second_refused : (try_set (try_set small "blob" (chunk "a")).1 "blob" (chunk "b")).0 ≡ false
unfolding try_set set_in get set
second_refused = refl

again_kept : (try_set (try_set small "blob" (chunk "a")).1 "blob" (chunk "a")).0 ≡ true
unfolding try_set set_in get set
again_kept = refl

-- A limit of 0 is accepted on a store that is not empty.
zero_limit : (set_size_limit (try_set small "blob" (chunk "a")).1 (some 0)).0 ≡ true
unfolding set_size_limit
zero_limit = refl

run_chunk_ops-IsSound_example : IsSound (
    run_chunk_ops small
      (try_set_op "blob" (chunk "a") ∷ try_set_op "blob" (chunk "b") ∷ delete_op "blob" "a" ∷ []))
run_chunk_ops-IsSound_example =
    run_chunk_ops-IsSound small
      (try_set_op "blob" (chunk "a") ∷ try_set_op "blob" (chunk "b") ∷ delete_op "blob" "a" ∷ [])
      small-IsSound tt

get_chunk-try_set_example :
    get_chunk (try_set small "blob" (chunk "a")).1 "queue" "a"
    ≡ read_after
        (try_set small "blob" (chunk "a")).0
        "blob"
        (chunk "a")
        "queue"
        "a"
        (get_chunk small "queue" "a")
get_chunk-try_set_example = get_chunk-try_set small "blob" (chunk "a") "queue" "a"
