-- ===== src/Extents/Runs.antt =====
-- Runs of calls of MemoryExtentChunkStore of src/common/persistence/MemoryExtentStore.ts.
use azurite.Prelude.{ℕ, ◌≢◌, String, Option, some, List, [], ◌∷◌}
use azurite.Extents.Chunks.{Chunk, ChunkStore, try_set, clear, delete_chunk, set_size_limit}
use azurite.Extents.Sizes.{
  IsSound, try_set-IsSound, clear-IsSound, delete_chunk-IsSound, set_size_limit-IsSound,
}

-- The calls that change a store.
pub data ChunkOp : Type 0 where
  try_set_op : String → Chunk → ChunkOp
  clear_op : String → ChunkOp
  delete_op : String → String → ChunkOp
  set_size_limit_op : Option ℕ → ChunkOp

apply_chunk_op : ChunkStore → ChunkOp → ChunkStore
apply_chunk_op s (try_set_op name chunk) = (try_set s name chunk).1
apply_chunk_op s (clear_op name) = clear s name
apply_chunk_op s (delete_op name id) = (delete_chunk s name id).1
apply_chunk_op s (set_size_limit_op limit) = (set_size_limit s limit).1

unfoldable pub run_chunk_ops : ChunkStore → List ChunkOp → ChunkStore
unfolding apply_chunk_op
run_chunk_ops s [] = s
run_chunk_ops s (op ∷ ops) = run_chunk_ops (apply_chunk_op s op) ops

abbrev pub NoZeroLimit : List ChunkOp → Type 0
NoZeroLimit [] = Unit
NoZeroLimit (set_size_limit_op limit ∷ ops) = (limit ≢ some 0) × NoZeroLimit ops
NoZeroLimit (op ∷ ops) = NoZeroLimit ops

-- After any run of calls on a sound store, in which no limit of 0 is set, the sizes that the store
-- keeps are those of its chunks, and the total is within the limit.
pub run_chunk_ops-IsSound :
    (s : ChunkStore) (ops : List ChunkOp)
    → IsSound s
    → NoZeroLimit ops
    → IsSound (run_chunk_ops s ops)
unfolding run_chunk_ops apply_chunk_op
run_chunk_ops-IsSound s [] v n = v
run_chunk_ops-IsSound s (try_set_op name chunk ∷ ops) v n =
    run_chunk_ops-IsSound (try_set s name chunk).1 ops (try_set-IsSound s v name chunk) n
run_chunk_ops-IsSound s (clear_op name ∷ ops) v n =
    run_chunk_ops-IsSound (clear s name) ops (clear-IsSound s v name) n
run_chunk_ops-IsSound s (delete_op name id ∷ ops) v n =
    run_chunk_ops-IsSound (delete_chunk s name id).1 ops (delete_chunk-IsSound s v name id) n
run_chunk_ops-IsSound s (set_size_limit_op limit ∷ ops) v n =
    run_chunk_ops-IsSound (set_size_limit s limit).1 ops (set_size_limit-IsSound s limit v n.0) n.1
