-- ===== src/Queue/TestDb.antt =====
-- A database of messages for the tests: a function of the messages, and the keys that were inserted.
use mathlib.Core.Path.{subst}
use azurite.Prelude.{
  ℕ, zero, suc, ◌≡◌, ◌≤◌, refl, ◌∙◌, Bool, true, Bool-cases, inl, inr, String, Option, none, some,
  List, [], ◌∷◌, ◌&&◌, arith, if◌then◌else◌, str_eq, eq_iff, leb, length, take,
}
use azurite.Queue.Keys.{has_id_eq, weaken-All}
use azurite.Queue.Messages.{
  Message, MessageDb, MessageDbLaws, Messages, has_id, put, put_all, without_all, without_queue,
  All, IsStored, IsOfQueue,
}

abbrev pub Key : Type 0
Key = String × String × String

abbrev pub Table : Type 0
Table = Messages × List Key

abbrev pub collect : (Message → Bool) → Messages → List Key → List Message
collect p m [] = []
collect p m ((a, q, i) ∷ ks) = elim (m a q i) [
  | none ↦ collect p m ks
  | some x ↦ if p x then x ∷ collect p m ks else collect p m ks
]

abbrev pub is_visible : String → String → ℕ → Message → Bool
is_visible a q time x =
    str_eq x.account_name a && (str_eq x.queue_name q && leb x.time_next_visible time)

abbrev pub is_expired : String → String → ℕ → Message → Bool
is_expired a q time x =
    str_eq x.account_name a && (str_eq x.queue_name q && leb x.expiration_time time)

abbrev pub key_of : Message → Key
key_of x = (x.account_name, x.queue_name, x.message_id)

abbrev pub message_table : MessageDb
message_table = record {
  Collection = Table;
  insert = λ c x. (put c.0 x, key_of x ∷ c.1);
  find_one = λ c a q i. c.0 a q i;
  visible = λ c a q time n. take n (collect (is_visible a q time) c.0 c.1);
  expired = λ c a q time. collect (is_expired a q time) c.0 c.1;
  remove = λ c xs. (without_all c.0 xs, c.1);
  update = λ c xs. (put_all c.0 xs, c.1);
  find_and_remove = λ c a q. (without_queue c.0 a q, c.1);
}

abbrev pub AreKeyed : Messages → Type 0
AreKeyed m = (a q i : String) (x : Message) → m a q i ≡ some x → has_id x a q i ≡ true

pub put-AreKeyed : (m : Messages) (y : Message) → AreKeyed m → AreKeyed (put m y)
unfolding put
put-AreKeyed m y h a q i x e = ground (arith, e, h a q i x)

pub put_all-AreKeyed : (m : Messages) (ys : List Message) → AreKeyed m → AreKeyed (put_all m ys)
unfolding put_all
put_all-AreKeyed m [] h = h
put_all-AreKeyed m (y ∷ ys) h = put_all-AreKeyed (put m y) ys (put-AreKeyed m y h)

pub without_all-AreKeyed :
    (m : Messages) (ys : List Message) → AreKeyed m → AreKeyed (without_all m ys)
unfolding without_all
without_all-AreKeyed m ys h a q i x e = ground (arith, e, h a q i x)

pub without_queue-AreKeyed :
    (m : Messages) (a q : String) → AreKeyed m → AreKeyed (without_queue m a q)
unfolding without_queue
without_queue-AreKeyed m a' q' h a q i x e = ground (arith, e, h a q i x)

collect-All :
    (p : Message → Bool) (m : Messages) (ks : List Key)
    → AreKeyed m
    → All (λ x. IsStored m x × (p x ≡ true)) (collect p m ks)
collect-All p m [] h = tt
collect-All p m ((a, q, i) ∷ ks) h = next (collect-All p m ks h) (m a q i) refl
  where
    next :
        All (λ x. IsStored m x × (p x ≡ true)) (collect p m ks)
        → (o : Option Message) → m a q i ≡ o
        → All
            (λ x. IsStored m x × (p x ≡ true))
            (elim o [
              | none ↦ collect p m ks
              | some x ↦ if p x then x ∷ collect p m ks else collect p m ks
            ])
    next rest none e = rest
    next rest (some x) e = elim (Bool-cases (p x)) [
      | inl k ↦
          let (b, c, d) = has_id_eq x a q i (h a q i x e) in
          rw k (((λ j. m (b j) (c j) (d j)) ∙ e, k), rest)
      | inr k ↦ rw k rest
    ]

take-All : (P : Message → Type 0) (n : ℕ) (xs : List Message) → All P xs → All P (take n xs)
take-All P zero xs h = tt
take-All P (suc n) [] h = tt
take-All P (suc n) (x ∷ xs) h = (h.0, take-All P n xs h.1)

length-take-le : (n : ℕ) (xs : List Message) → length (take n xs) ≤ n
length-take-le zero xs = omega arith
length-take-le (suc n) [] = omega arith
length-take-le (suc n) (x ∷ xs) = omega (arith, length-take-le n xs)

found_visible :
    (a q : String) (time : ℕ) (m : Messages) (x : Message)
    → IsStored m x × (is_visible a q time x ≡ true)
    → IsStored m x × IsOfQueue a q x × (x.time_next_visible ≤ time)
found_visible a q time m x h = (
  h.0,
  (ground (arith, h.1, eq_iff x.account_name a), ground (arith, h.1, eq_iff x.queue_name q)),
  ground (arith, h.1),
)

found_expired :
    (a q : String) (time : ℕ) (m : Messages) (x : Message)
    → IsStored m x × (is_expired a q time x ≡ true)
    → IsStored m x × IsOfQueue a q x × (x.expiration_time ≤ time)
found_expired a q time m x h = (
  h.0,
  (ground (arith, h.1, eq_iff x.account_name a), ground (arith, h.1, eq_iff x.queue_name q)),
  ground (arith, h.1),
)

-- Shows with the messages of the table.
abbrev pub Shown : Table → Messages → Type 0
Shown c m = (c.0 ≡ m) × AreKeyed c.0

pub visible_law :
    (c : Table) (m : Messages) (a q : String) (time n : ℕ)
    → Shown c m
    → let xs = take n (collect (is_visible a q time) c.0 c.1) in
      All (λ x. IsStored m x × IsOfQueue a q x × (x.time_next_visible ≤ time)) xs × (length xs ≤ n)
visible_law c m a q time n h = (
  subst
      (λ f.
        All (λ x. IsStored f x × IsOfQueue a q x × (x.time_next_visible ≤ time))
          (take n (collect (is_visible a q time) c.0 c.1)))
      h.0
      (take-All _ n _ (
        weaken-All _ _ _ (found_visible a q time c.0)
          (collect-All (is_visible a q time) c.0 c.1 h.1))),
  length-take-le n _,
)

pub expired_law :
    (c : Table) (m : Messages) (a q : String) (time : ℕ)
    → Shown c m
    → All
        (λ x. IsStored m x × IsOfQueue a q x × (x.expiration_time ≤ time))
        (collect (is_expired a q time) c.0 c.1)
expired_law c m a q time h =
    subst
      (λ f.
        All (λ x. IsStored f x × IsOfQueue a q x × (x.expiration_time ≤ time))
          (collect (is_expired a q time) c.0 c.1))
      h.0
      (weaken-All _ _ _ (found_expired a q time c.0)
        (collect-All (is_expired a q time) c.0 c.1 h.1))

abbrev pub message_table_laws : MessageDbLaws message_table
message_table_laws = record {
  Shows = Shown;
  insert-Shows = λ c m x h k. ((λ j. put (h.0 j) x), put-AreKeyed c.0 x h.1);
  find_one_lem = λ c m a q i h j. h.0 j a q i;
  stored_has_id = λ c m a q i x h e. h.1 a q i x ((λ j. h.0 j a q i) ∙ e);
  visible_lem = λ c m a q time n h. visible_law c m a q time n h;
  expired_lem = λ c m a q time h. expired_law c m a q time h;
  remove-Shows = λ c m xs h k. ((λ j. without_all (h.0 j) xs), without_all-AreKeyed c.0 xs h.1);
  update-Shows = λ c m xs h k. ((λ j. put_all (h.0 j) xs), put_all-AreKeyed c.0 xs h.1);
  find_and_remove-Shows =
      λ c m a q h. ((λ j. without_queue (h.0 j) a q), without_queue-AreKeyed c.0 a q h.1);
}
