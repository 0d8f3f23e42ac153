-- ===== src/PageRanges/History.antt =====
-- A page blob over a run of page writes and clears.
use azurite.Prelude.{
  ℕ, ◌+◌, ◌-◌, ◌≤◌, ◌≡◌, refl, ◌&&◌, String, Option, none, some, List, [], ◌∷◌, if◌then◌else◌, leb,
}
use azurite.Errors.{Result, ok, err, Returns, bind-Returns, ◌>>=◌}
use azurite.PageRanges.Model.{PageRange, position_in_range}
use azurite.PageRanges.Manager.{merge_range, clear_range}
use azurite.PageRanges.Passes.{Ordered}
use azurite.PageRanges.Content.{
  content, kept_at, content-merge_range, content-clear_range, merge_range-Ordered,
  clear_range-Ordered,
}

-- uploadPages writes a range that the extent store has kept, clearPages clears one.
pub data PageOp : Type 0 where
  write : PageRange → PageOp
  clear : ℕ → ℕ → PageOp

unfoldable pub apply_op : List PageRange → PageOp → Result (List PageRange)
apply_op rs (write new) = merge_range rs new
apply_op rs (clear start end) = clear_range rs start end

unfoldable pub run_ops : List PageRange → List PageOp → Result (List PageRange)
run_ops rs [] = ok rs
run_ops rs (op ∷ ops) = do rs' ← apply_op rs op; run_ops rs' ops

abbrev pub IsOp : PageOp → Type 0
IsOp (write new) = (new.start ≤ new.end) × (new.persistency.count ≡ new.end + 1 - new.start)
IsOp (clear start end) = start ≤ end

abbrev pub AllOps : List PageOp → Type 0
AllOps [] = Unit
AllOps (op ∷ ops) = IsOp op × AllOps ops

-- The specification, byte by byte: the last write or clear that covers the byte decides.
abbrev pub overwrite : PageOp → ℕ → Option (String × ℕ) → Option (String × ℕ)
overwrite (write new) p c = if position_in_range new p then some (kept_at new p) else c
overwrite (clear start end) p c = if leb start p && leb p end then none else c

abbrev pub replay : List PageOp → ℕ → Option (String × ℕ) → Option (String × ℕ)
replay [] p c = c
replay (op ∷ ops) p c = replay ops p (overwrite op p c)

-- The ranges stay ordered, and read at `p` as the value c.
abbrev pub Reads : ℕ → Option (String × ℕ) → List PageRange → Type 0
Reads p c rs = Ordered 0 rs × (content rs p ≡ c)

both :
    (P Q : List PageRange → Type 0) (r : Result (List PageRange))
    → Returns P r
    → Returns Q r
    → Returns (λ rs. P rs × Q rs) r
both P Q (ok rs) p q = (p, q)
both P Q (err e) p q = p

apply_op-Reads :
    (rs : List PageRange) (op : PageOp) (p : ℕ)
    → IsOp op
    → Ordered 0 rs
    → Returns (Reads p (overwrite op p (content rs p))) (apply_op rs op)
unfolding apply_op
apply_op-Reads rs (write new) p v o =
    both _ _ (merge_range rs new) (merge_range-Ordered rs new o v.0 v.1)
      (content-merge_range 0 rs new p o v.0)
apply_op-Reads rs (clear start end) p v o =
    both _ _ (clear_range rs start end) (clear_range-Ordered rs start end o v)
      (content-clear_range 0 rs start end p o v)

-- A run of page writes and clears on ordered ranges never throws, keeps the ranges ordered, and
-- leaves at every byte what the last operation that covers the byte has put there. No range of an
-- operation is empty, and a write keeps as many bytes as it covers.
pub run_ops-replay :
    (rs : List PageRange) (ops : List PageOp) (p : ℕ)
    → AllOps ops
    → Ordered 0 rs
    → Returns (Reads p (replay ops p (content rs p))) (run_ops rs ops)
unfolding run_ops
run_ops-replay rs [] p v o = (o, refl)
run_ops-replay rs (op ∷ ops) p v o =
    bind-Returns (Reads p (overwrite op p (content rs p)))
      (Reads p (replay ops p (overwrite op p (content rs p)))) (apply_op rs op)
      (λ rs'. run_ops rs' ops) (apply_op-Reads rs op p v.0 o)
      λ rs' h. rw (← h.1) (run_ops-replay rs' ops p v.1 h.0)
