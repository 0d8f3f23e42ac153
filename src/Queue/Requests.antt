-- ===== src/Queue/Requests.antt =====
-- src/queue/handlers/MessagesHandler.ts over the store: what enqueue and dequeue promise.
use mathlib.Core.List.{map}
use azurite.Prelude.{
  ℕ, ◌+◌, ◌≡◌, ◌∙◌, ◌≤◌, ◌<◌, refl, Bool-cases, ◌⊎◌, inl, inr, String, Option, none, some, List, [],
  ◌∷◌, arith, length,
}
use azurite.Prelude.Int.{ℤ, pos}
use azurite.Dates.{max_time}
use azurite.Errors.{Result, ok, err, Ensures, out_of_range_query_parameter}
use azurite.Methods.{Method, after}
use azurite.Queue.Handlers.{never_expire_date, check_text, enqueue, dequeue}
use azurite.Queue.Keys.{weaken-All, map-All, both-All, handed_out-AreStored}
use azurite.Queue.Messages.{
  ExtentChunk, Message, MessageDb, MessageDbLaws, Messages, IsStored, IsOfQueue, without_all, All,
}
use azurite.Queue.Store.{
  Store, has_queue, hand_out, at_least_one, check_queue_exist, clear_expired_messages,
  insert_message, find_visible, get_messages,
}
use azurite.Queue.Times.{ArePlaced, placed, visible_time_bounds, number_of_messages_bounds}
use azurite.Queue.Visibility

length-map : (f : Message → Message) (xs : List Message) → length (map f xs) ≡ length xs
length-map f [] = refl
length-map f (x ∷ xs) = omega (arith, length-map f xs)

at_least_one-le : (number : ℕ) → 1 ≤ number → at_least_one (some number) ≤ number
unfolding at_least_one
at_least_one-le number h = ground arith

-- A stored message of the queue, visible at `start`, that is handed out: counted once more, with the
-- receipt, and hidden for at least a second and at most seven days.
pub record IsDequeued (start : ℕ) (account queue receipt : String) (m : Messages) (x : Message)
    : Type 0 where
  pub doc : Message
  pub stored : m doc.account_name doc.queue_name doc.message_id ≡ some doc
  pub own : IsOfQueue account queue doc
  pub visible : doc.time_next_visible ≤ start
  pub earliest : start + 1000 ≤ x.time_next_visible
  pub latest : x.time_next_visible ≤ start + 604800000
  pub changed : x ≡ record doc {
    time_next_visible = x.time_next_visible;
    pop_receipt = receipt;
    dequeue_count = doc.dequeue_count + 1;
  }

hand_out-IsDequeued :
    (start visible : ℕ) (account queue receipt : String) (m : Messages) (cleared : List Message)
    (x : Message)
    → (start + 1000 ≤ visible) × (visible ≤ start + 604800000)
    → IsStored (without_all m cleared) x × IsOfQueue account queue x × (x.time_next_visible ≤ start)
    → IsDequeued start account queue receipt m (hand_out visible receipt x)
unfolding hand_out without_all
hand_out-IsDequeued start visible account queue receipt m cleared x v p = record {
  doc = x;
  stored = ground (arith, p.0);
  own = p.1;
  visible = p.2;
  earliest = v.0;
  latest = v.1;
  changed = refl;
}

module _ (db : MessageDb) (start : ℕ) (account queue id receipt : String) (text : Option ℕ)
    (timeout ttl : Option ℤ) (chunk : ExtentChunk) (s : Store db.Collection) where
  -- A message becomes visible before it expires, or the store is as it was.
  abbrev pub IsPlaced : Result Message × Store db.Collection → Type 0
  IsPlaced (ok x, s') =
      (start ≤ x.time_next_visible)
      × (x.time_next_visible ≤ start + 604800000)
      × (x.expiration_time ≤ never_expire_date)
      × ((x.time_next_visible < x.expiration_time) ⊎ ((ttl ≡ none) × (timeout ≡ some (pos 604800))))
      × (s'.messages ≡ db.insert s.messages x)
  IsPlaced (err e, s') = s' ≡ s

  abbrev message : ℕ → ℕ → Message
  message visible expires = record {
    account_name = account;
    queue_name = queue;
    message_id = id;
    pop_receipt = receipt;
    time_next_visible = visible;
    persistency = chunk;
    insertion_time = start;
    expiration_time = expires;
    dequeue_count = 0;
  }

  inserted-IsPlaced :
      (visible expires : ℕ)
      → ArePlaced start timeout ttl (ok visible) (ok expires)
      → IsPlaced (
          after
            (insert_message db (message visible expires) s)
            λ u s'. (ok (message visible expires), s'))
  unfolding insert_message check_queue_exist
  inserted-IsPlaced visible expires h = elim (Bool-cases (has_queue s.queues account queue)) [
    | inl k ↦ rw k (h.0, h.1, h.2, h.3, refl)
    | inr k ↦ rw k refl
  ]

  timed-IsPlaced :
      (visible expires : Result ℕ)
      → ArePlaced start timeout ttl visible expires
      → IsPlaced (
          after
            (visible, s)
            λ v s1.
              after
                (expires, s1)
                λ e s2. after (insert_message db (message v e) s2) λ u s'. (ok (message v e), s'))
  timed-IsPlaced (ok visible) (ok expires) h = inserted-IsPlaced visible expires h
  timed-IsPlaced (ok visible) (err e) h = refl
  timed-IsPlaced (err e) expires h = refl

  checked-IsPlaced :
      (c : Result (Unit {0})) (rest : Method (Store db.Collection) Message)
      → IsPlaced (rest s)
      → IsPlaced (after (c, s) λ u. rest)
  checked-IsPlaced (ok u) rest h = h
  checked-IsPlaced (err e) rest h = refl

  -- enqueue with integer parameters, seven days or more before the year 10000, stores a message that is
  -- visible within seven days and expires by the end of the year 9999, later than it becomes visible,
  -- but for a timeout of seven days without a time to live; or it fails and leaves the store as it was.
  pub enqueue-IsPlaced :
      start + 604800000 < never_expire_date
      → IsPlaced (enqueue db start account queue id receipt text timeout ttl chunk s)
  unfolding enqueue
  enqueue-IsPlaced h =
      checked-IsPlaced (check_text text) _ (timed-IsPlaced _ _ (placed start timeout ttl h))

module _ (db : MessageDb) (laws : MessageDbLaws db) (start : ℕ) (account queue receipt : String)
    (s : Store db.Collection) where
  -- The messages given are dequeued, and stand in the store as they are given.
  abbrev pub IsBounded : Messages → Result (List Message) × Store db.Collection → Type 0
  IsBounded m (ok xs, s') =
      (length xs ≤ 32)
      × All
          (λ x.
            IsDequeued start account queue receipt m x
            × (db.find_one s'.messages x.account_name x.queue_name x.message_id ≡ some x))
          xs
  IsBounded m (err e, s') = s' ≡ s

  got-IsBounded :
      (m : Messages) (now visible number : ℕ)
      → laws.Shows s.messages m
      → (start + 1000 ≤ visible) × (visible ≤ start + 604800000)
      → (1 ≤ number) × (number ≤ 32)
      → IsBounded m (get_messages db now account queue visible receipt (some number) start s)
  unfolding get_messages clear_expired_messages find_visible
  got-IsBounded m now visible number shown v n =
      Visibility.check_queue_exist-next db laws (IsBounded m) account queue s _ (λ e. refl)
        (let cleared = db.expired s.messages account queue now in
          let shown1 = Visibility.stored_cleared db laws m now account queue s shown in
          let (found, few) =
            laws.visible_lem _ _ account queue start (at_least_one (some number)) shown1 in
          let kept = weaken-All _ (IsStored (without_all m cleared)) _ (λ x p. p.0) found in
          let written = laws.update-Shows _ _ _ shown1 (
            map-All _ _ (hand_out visible receipt) _
              (λ x p. Visibility.handed_out_stored (without_all m cleared) visible receipt x p)
              kept) in
          (
            omega (
              arith,
              length-map (hand_out visible receipt) (db.visible _ account queue start _),
              few,
              at_least_one-le number n.0,
            ),
            both-All _ _ _
                (map-All _ _ (hand_out visible receipt) _
                  (λ x p. hand_out-IsDequeued start visible account queue receipt m cleared x v p)
                  found)
                (weaken-All _ _ _ (λ x p. laws.find_one_lem _ _ _ _ _ written ∙ p)
                  (handed_out-AreStored _ visible receipt _ kept _ (λ a q i h. h) kept)),
          ))

  timed-IsBounded :
      (m : Messages) (now : ℕ) (visible number : Result ℕ)
      → laws.Shows s.messages m
      → Ensures
          (λ e. e ≡ out_of_range_query_parameter)
          (λ v. (start + 1000 ≤ v) × (v ≤ start + 604800000))
          visible
      → Ensures (λ e. e ≡ out_of_range_query_parameter) (λ k. (1 ≤ k) × (k ≤ 32)) number
      → IsBounded m (
          after
            (visible, s)
            λ v s1.
              after
                (number, s1)
                λ k s2. get_messages db now account queue v receipt (some k) start s2)
  timed-IsBounded m now (ok visible) (ok number) shown v n =
      got-IsBounded m now visible number shown v n
  timed-IsBounded m now (ok visible) (err e) shown v n = refl
  timed-IsBounded m now (err e) number shown v n = refl

  -- dequeue with integer parameters, seven days or more before the last date of JavaScript, gives at most
  -- 32 messages, each of which is a stored message of the queue that was visible at the time of the
  -- request, with the new receipt, its dequeue count one higher, hidden for at least a second and at most
  -- seven days, and otherwise as it was; and the store then finds each of them under its key as it was
  -- given. Or dequeue fails and leaves the store as it was.
  pub dequeue-IsBounded :
      (m : Messages) (now : ℕ) (timeout n : Option ℤ)
      → start + 604800000 ≤ max_time
      → laws.Shows s.messages m
      → IsBounded m (dequeue db start account queue now receipt timeout n s)
  unfolding dequeue
  dequeue-IsBounded m now timeout n early shown =
      timed-IsBounded m now _ _ shown (visible_time_bounds start timeout)
        (number_of_messages_bounds n)
