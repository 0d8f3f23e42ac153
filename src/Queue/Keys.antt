-- ===== src/Queue/Keys.antt =====
-- Messages by their keys.
use mathlib.Core.List.{map}
use azurite.Prelude.{
  ℕ, ◌≡◌, refl, sym, ap, ◌∙◌, Bool, true, false, Bool-cases, ◌⊎◌, inl, inr, String, some, List, [],
  ◌∷◌, ◌||◌, arith, eq_iff,
}
use azurite.Queue.Messages.{Message, Messages, has_id, names, put, put_all, All, IsStored}
use azurite.Queue.Store.{hand_out}

pub has_id_eq :
    (x : Message) (a q i : String)
    → has_id x a q i ≡ true
    → (x.account_name ≡ a) × (x.queue_name ≡ q) × (x.message_id ≡ i)
unfolding has_id
has_id_eq x a q i h = (
  ground (arith, h, eq_iff x.account_name a),
  ground (arith, h, eq_iff x.queue_name q),
  ground (arith, h, eq_iff x.message_id i),
)

pub has_id_refl : (x : Message) → has_id x x.account_name x.queue_name x.message_id ≡ true
unfolding has_id
has_id_refl x = ground (
  arith,
  eq_iff x.account_name x.account_name,
  eq_iff x.queue_name x.queue_name,
  eq_iff x.message_id x.message_id,
)

-- A stored message with a key stands under it.
pub stored_at :
    (m : Messages) (x : Message) (a q i : String)
    → has_id x a q i ≡ true
    → IsStored m x
    → m a q i ≡ some x
stored_at m x a q i h e =
    let (same_account, same_queue, same_id) = has_id_eq x a q i h in
    (λ j. m (sym same_account j) (sym same_queue j) (sym same_id j)) ∙ e

pub weaken-All :
    (P Q : Message → Type 0) (xs : List Message) → ((x : Message) → P x → Q x) → All P xs → All Q xs
weaken-All P Q [] f h = tt
weaken-All P Q (x ∷ xs) f h = (f x h.0, weaken-All P Q xs f h.1)

pub map-All :
    (P Q : Message → Type 0) (f : Message → Message) (xs : List Message)
    → ((x : Message) → P x → Q (f x))
    → All P xs
    → All Q (map f xs)
map-All P Q f [] g h = tt
map-All P Q f (x ∷ xs) g h = (g x h.0, map-All P Q f xs g h.1)

-- A list names a key by one of its messages.
pub named_has :
    (P : Message → Type 0) (xs : List Message) (a q i : String)
    → All P xs
    → names xs a q i ≡ true
    → (x : Message) × P x × (has_id x a q i ≡ true)
unfolding names
named_has P [] a q i h n = cc
named_has P (x ∷ xs) a q i h n = elim (Bool-cases (has_id x a q i)) [
  | inl k ↦ (x, h.0, k)
  | inr k ↦ named_has P xs a q i h.1 (rw k at n)
]

pub names-map-hand_out :
    (time : ℕ) (receipt : String) (xs : List Message) (a q i : String)
    → names (map (hand_out time receipt) xs) a q i ≡ names xs a q i
unfolding names hand_out has_id
names-map-hand_out time receipt [] a q i = refl
names-map-hand_out time receipt (x ∷ xs) a q i =
    ap (λ (b : Bool). has_id x a q i || b) (names-map-hand_out time receipt xs a q i)

pub put_all_other :
    (m : Messages) (xs : List Message) (a q i : String)
    → names xs a q i ≡ false
    → put_all m xs a q i ≡ m a q i
unfolding put_all names put
put_all_other m [] a q i h = refl
put_all_other m (x ∷ xs) a q i h = elim (Bool-cases (has_id x a q i)) [
  | inl k ↦ cc (rw k at h)
  | inr k ↦ put_all_other (put m x) xs a q i (rw k at h) ∙ rw k
]

-- What put_all leaves under a key that it names is one of its messages, with that key.
pub put_all_named :
    (P : Message → Type 0) (m : Messages) (xs : List Message) (a q i : String)
    → All P xs
    → names xs a q i ≡ true
    → (x : Message) × (P x × (has_id x a q i ≡ true)) × (put_all m xs a q i ≡ some x)
unfolding put_all names put
put_all_named P m [] a q i h n = cc
put_all_named P m (x ∷ xs) a q i h n =
    last (put_all_named P (put m x) xs a q i h.1) (Bool-cases (names xs a q i))
      (Bool-cases (has_id x a q i))
  where
    last :
        (names xs a q i ≡ true
          → (y : Message) × (P y × (has_id y a q i ≡ true)) × (put_all (put m x) xs a q i ≡ some y))
        → (names xs a q i ≡ true) ⊎ (names xs a q i ≡ false)
        → (has_id x a q i ≡ true) ⊎ (has_id x a q i ≡ false)
        → (y : Message) × (P y × (has_id y a q i ≡ true)) × (put_all (put m x) xs a q i ≡ some y)
    last more (inl k) own = more k
    last more (inr k) (inl own) = (x, (h.0, own), put_all_other (put m x) xs a q i k ∙ rw own)
    last more (inr k) (inr own) = cc (rw own at n)

pub both-All :
    (P Q : Message → Type 0) (xs : List Message) → All P xs → All Q xs → All (λ x. P x × Q x) xs
both-All P Q [] h k = tt
both-All P Q (x ∷ xs) h k = ((h.0, k.0), both-All P Q xs h.1 k.1)

has_id-hand_out :
    (time : ℕ) (receipt : String) (x : Message) (a q i : String)
    → has_id (hand_out time receipt x) a q i ≡ has_id x a q i
unfolding hand_out has_id
has_id-hand_out time receipt x a q i = refl

module _ (m : Messages) (time : ℕ) (receipt : String) (docs : List Message)
    (stored : All (IsStored m) docs) where
  -- A key of the documents has its own document, handed out.
  handed_out_at :
      (d : Message)
      → IsStored m d
      → names docs d.account_name d.queue_name d.message_id ≡ true
      → put_all m (map (hand_out time receipt) docs) d.account_name d.queue_name d.message_id
        ≡ some (hand_out time receipt d)
  handed_out_at d own named =
      let handed =
        map-All (IsStored m) (λ y. (e : Message) × IsStored m e × (y ≡ hand_out time receipt e))
          (hand_out time receipt) docs (λ e k. (e, k, refl)) stored in
      let (y, ((e, held, same), id), at) =
        put_all_named _ m _ d.account_name d.queue_name d.message_id handed
          (names-map-hand_out time receipt docs d.account_name d.queue_name d.message_id ∙ named) in
      let keyed : has_id e d.account_name d.queue_name d.message_id ≡ true =
        sym (has_id-hand_out time receipt e d.account_name d.queue_name d.message_id)
        ∙ ap (λ z. has_id z d.account_name d.queue_name d.message_id) (sym same)
        ∙ id in
      let one : some e ≡ some d =
        sym (stored_at m e d.account_name d.queue_name d.message_id keyed held) ∙ own in
      cc (at, same, one)

  pub handed_out-AreStored :
      (ds : List Message)
      → ((a q i : String) → names ds a q i ≡ true → names docs a q i ≡ true)
      → All (IsStored m) ds
      → All
          (IsStored (put_all m (map (hand_out time receipt) docs)))
          (map (hand_out time receipt) ds)
  unfolding hand_out names
  handed_out-AreStored [] sub k = tt
  handed_out-AreStored (d ∷ ds) sub k = (
    handed_out_at d k.0 (sub _ _ _ (rw (has_id_refl d) refl)),
    handed_out-AreStored ds (λ a q i n. sub a q i (ground (arith, n))) k.1,
  )
