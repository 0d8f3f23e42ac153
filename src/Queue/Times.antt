-- ===== src/Queue/Times.antt =====
-- src/queue/handlers/MessagesHandler.ts: the times and numbers that its checks let through.
use azurite.Prelude.{
  ℕ, ◌+◌, ◌≡◌, ◌≤◌, ◌<◌, refl, ap, Bool-cases, ◌⊎◌, inl, inr, Option, none, some, arith, ◌==◌,
  ==_iff,
}
use azurite.Prelude.Int.{ℤ, pos, negsuc}
use azurite.Errors.{
  Result, ok, err, Ensures, invalid_query_parameter_value, out_of_range_query_parameter,
}
use azurite.Queue.Handlers.{
  never_expire_date, seven_days, out_of_range, visible_time, number_of_messages, not_below,
  expiration,
}

-- The time at which a message is first visible, and how it lies to the time it expires.
abbrev pub ArePlaced : ℕ → Option ℤ → Option ℤ → Result ℕ → Result ℕ → Type 0
ArePlaced start timeout ttl (ok visible) (ok expires) =
    (start ≤ visible)
    × (visible ≤ start + 604800000)
    × (expires ≤ never_expire_date)
    × ((visible < expires) ⊎ ((ttl ≡ none) × (timeout ≡ some (pos 604800))))
ArePlaced start timeout ttl (err e) expires = e ≡ out_of_range_query_parameter
ArePlaced start timeout ttl (ok visible) (err e) = e ≡ invalid_query_parameter_value

pub placed :
    (start : ℕ) (timeout ttl : Option ℤ)
    → start + 604800000 < never_expire_date
    → ArePlaced start timeout ttl (visible_time start 0 0 timeout) (expiration start timeout ttl)
unfolding visible_time expiration out_of_range not_below
placed start none none h = (omega arith, omega arith, omega arith, inl (omega arith))
placed start none (some ttl) h = ground arith
placed start (some (pos v)) none h = elim (Bool-cases (out_of_range 0 seven_days (pos v))) [
  | inl k ↦ rw k refl
  | inr k ↦ rw k (
    omega arith,
    ground (arith, k),
    omega arith,
    elim (Bool-cases (v == 604800)) [
      | inl e ↦ inr (refl, ap (λ n. some (pos n)) ((==_iff v 604800).0 e))
      | inr e ↦ inl (ground (arith, k, e))
    ],
  )
]
placed start (some (negsuc v)) none h = ground arith
placed start (some v) (some ttl) h = ground arith

-- The visibility timeout of a dequeue, and the number of messages.
pub visible_time_bounds :
    (start : ℕ) (timeout : Option ℤ)
    → Ensures
        (λ e. e ≡ out_of_range_query_parameter)
        (λ visible. (start + 1000 ≤ visible) × (visible ≤ start + 604800000))
        (visible_time start 30 1 timeout)
unfolding visible_time out_of_range
visible_time_bounds start none = (omega arith, omega arith)
visible_time_bounds start (some (pos v)) = ground arith
visible_time_bounds start (some (negsuc v)) = ground arith

pub number_of_messages_bounds :
    (n : Option ℤ)
    → Ensures
        (λ e. e ≡ out_of_range_query_parameter)
        (λ k. (1 ≤ k) × (k ≤ 32))
        (number_of_messages n)
unfolding number_of_messages out_of_range
number_of_messages_bounds none = (omega arith, omega arith)
number_of_messages_bounds (some (pos n)) = ground arith
number_of_messages_bounds (some (negsuc n)) = ground arith
