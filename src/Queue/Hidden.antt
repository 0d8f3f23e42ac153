-- ===== src/Queue/Hidden.antt =====
-- src/queue/persistence/LokiQueueMetadataStore.ts: a message that was handed out stays hidden until the
-- time it is next visible.
use azurite.Prelude.{ℕ, ◌≡◌, ◌≤◌, ◌<◌, false, Bool-cases, inl, inr, String, some, List, arith}
use azurite.Queue.Keys.{stored_at, named_has}
use azurite.Queue.Messages.{
  Message, Messages, has_id, names, put, without_all, without_queue, All, IsStored, IsOfQueue,
}

-- The message with this key, if it is there, is next visible at `until` and has this receipt.
abbrev pub IsHidden : String → String → String → ℕ → String → Messages → Type 0
IsHidden a q i until receipt m =
    (x : Message) → m a q i ≡ some x → (x.time_next_visible ≡ until) × (x.pop_receipt ≡ receipt)

module _ (a q i : String) (until : ℕ) (receipt : String) (m : Messages)
    (hidden : IsHidden a q i until receipt m) where
  pub without_all-IsHidden : (xs : List Message) → IsHidden a q i until receipt (without_all m xs)
  unfolding without_all
  without_all-IsHidden xs x e = elim (Bool-cases (names xs a q i)) [
    | inl k ↦ cc (rw k at e)
    | inr k ↦ hidden x (rw k at e)
  ]

  pub without_queue-IsHidden :
      (a' q' : String) → IsHidden a q i until receipt (without_queue m a' q')
  unfolding without_queue
  without_queue-IsHidden a' q' x e = ground (arith, e, hidden x)

  pub put_other-IsHidden :
      (y : Message) → has_id y a q i ≡ false → IsHidden a q i until receipt (put m y)
  unfolding put
  put_other-IsHidden y k x e = hidden x (rw k at e)

  -- Documents that are visible before that time are others.
  pub visible-names :
      (xs : List Message) (time : ℕ) (a' q' : String)
      → time < until
      → All (λ x. IsStored m x × IsOfQueue a' q' x × (x.time_next_visible ≤ time)) xs
      → names xs a q i ≡ false
  visible-names xs time a' q' h vs = elim (Bool-cases (names xs a q i)) [
    | inl n ↦
        let (x, p, own) = named_has _ xs a q i vs n in
        absurd (omega (arith, (hidden x (stored_at m x a q i own p.0)).0, p.2))
    | inr n ↦ n
  ]
