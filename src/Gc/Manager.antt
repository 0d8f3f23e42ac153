-- ===== src/Gc/Manager.antt =====
-- src/blob/gc/BlobGCManager.ts and src/queue/gc/QueueGCManager.ts: markSweep and getAllExtents. An
-- iterator is the list of the results that next() gives before it gives an empty one with `done`.
-- close() can come at any await, so that the status is a function: `status n` is the status at the n-th
-- test. mark_sweep's result is the set that markSweep passes to deleteExtents of the extent store; it
-- calls that method when the set is not empty.
use azurite.Prelude.{
  ℕ, ◌+◌, Bool, true, false, String, List, [], ◌∷◌, ◌++◌, ◌&&◌, ◌||◌, if◌then◌else◌, str_eq, not,
}

pub data Status : Type 0 where
  initializing running closing closed : Status

unfoldable pub is_running : Status → Bool
is_running running = true
is_running _ = false

-- What next() resolves with.
pub record IteratorResult : Type 0 where
  pub done : Bool
  pub value : List String

-- The extents of a Set in insertion order.
unfoldable pub holds_id : String → List String → Bool
holds_id x [] = false
holds_id x (y ∷ ys) = str_eq y x || holds_id x ys

unfoldable pub add_id : List String → String → List String
unfolding holds_id
add_id ids x = if holds_id x ids then ids else ids ++ x ∷ []

unfoldable pub delete_id : List String → String → List String
delete_id [] x = []
delete_id (y ∷ ys) x = let rest = delete_id ys x in if str_eq y x then rest else y ∷ rest

unfoldable pub add_all : List String → List String → List String
unfolding add_id
add_all ids [] = ids
add_all ids (x ∷ xs) = add_all (add_id ids x) xs

unfoldable pub delete_all : List String → List String → List String
unfolding delete_id
delete_all ids [] = ids
delete_all ids (x ∷ xs) = delete_all (delete_id ids x) xs

-- `res.done === false || res.value.length > 0`
unfoldable pub has_more : IteratorResult → Bool
has_more r = not r.done || elim r.value [ [] ↦ false | x ∷ xs ↦ true ]

-- `bucket.done === false`
unfoldable pub is_not_done : IteratorResult → Bool
is_not_done r = not r.done

-- The condition on a result is has_more in the blob service's manager, is_not_done in the queue service's.
module _ (goes_on : IteratorResult → Bool) (status : ℕ → Status) where
  -- The loops over an iterator: what is in the set in the end, and the number of the next test.
  unfoldable pub loop :
      (List String → List String → List String)
      → ℕ
      → List IteratorResult
      → List String
      → List String × ℕ
  unfolding is_running
  loop body n [] ids = (ids, n + 1)
  loop body n (r ∷ rs) ids =
      let rest = loop body (n + 1) rs (body ids r.value) in
      if goes_on r && is_running (status n) then rest else (ids, n + 1)

  unfoldable pub get_all_extents : List IteratorResult → List String × ℕ
  unfolding loop add_all
  get_all_extents all = loop add_all 0 all []

  unfoldable pub mark_sweep : List IteratorResult → List IteratorResult → List String
  unfolding get_all_extents loop delete_all is_running
  mark_sweep all referred =
      let (extents, n) = get_all_extents all in
      if is_running (status n) then (loop delete_all (n + 1) referred extents).0 else []
