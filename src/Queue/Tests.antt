-- ===== src/Queue/Tests.antt =====
-- Runs of the queue model: two messages, a dequeue of one of them, and what follows.
use azurite.Prelude.{◌≡◌, refl, String, none, some, List, [], ◌∷◌, arith}
use azurite.Prelude.Int.{pos}
use azurite.Errors.{Result, ok}
use azurite.Queue.Handlers.{enqueue, dequeue}
use azurite.Queue.Messages.{ExtentChunk, Message, Messages, has_id, names, put, without_all}
use azurite.Queue.Operations.{Operation, get, peek, delete, run, AreAllowed}
use azurite.Queue.Protection.{get_messages-AreUnnamed, AreUnnamed, Hands}
use azurite.Queue.Receipts.{get_messages-receipt, Fails}
use azurite.Queue.Requests.{enqueue-IsPlaced, IsPlaced, dequeue-IsBounded, IsBounded}
use azurite.Queue.Store.{Store, MessageUpdate, get_messages, delete_message, update_message}
use azurite.Queue.TestDb.{Table, message_table, message_table_laws, AreKeyed, put-AreKeyed, key_of}

abbrev chunk : ExtentChunk
chunk = record { id = "extent"; offset = 0; count = 5 }

abbrev message : String → Message
message id = record {
  account_name = "account";
  queue_name = "jobs";
  message_id = id;
  pop_receipt = "first";
  time_next_visible = 1000;
  persistency = chunk;
  insertion_time = 1000;
  expiration_time = 605801000;
  dequeue_count = 0;
}

abbrev no_messages : Messages
no_messages a q i = none

abbrev two : Messages
two = put (put no_messages (message "m1")) (message "m2")

abbrev store : Store Table
store = record {
  queues = ("account", "jobs") ∷ [];
  messages = (two, key_of (message "m2") ∷ key_of (message "m1") ∷ []);
}

two-AreKeyed : AreKeyed two
two-AreKeyed = put-AreKeyed _ _ (put-AreKeyed no_messages _ λ a q i x e. cc)

abbrev dequeued : Result (List Message) × Store Table
dequeued = get_messages message_table 5000 "account" "jobs" 35000 "second" (some 1) 5000 store

dequeued-Hands :
    Hands message_table message_table_laws "account" "jobs" "m2" 35000 "second" dequeued.0
unfolding get_messages names has_id put without_all
dequeued-Hands = refl

abbrev later : List Operation
later =
    get 6000 "account" "jobs" 36000 "third" (some 32) 6000
    ∷ peek 7000 "account" "jobs" none 7000
    ∷ delete 8000 "account" "jobs" "m2" "first"
    ∷ []

later_allowed : AreAllowed message_table "account" "jobs" "m2" 35000 "second" later dequeued.1
later_allowed = (omega arith, (omega arith, (tt, tt)))

get_messages-AreUnnamed_example :
    AreUnnamed message_table message_table_laws "account" "jobs" "m2" 35000 "second"
      (run message_table later dequeued.1).0
get_messages-AreUnnamed_example =
    get_messages-AreUnnamed message_table message_table_laws "account" "jobs" "m2" 35000 "second"
      store two (refl, two-AreKeyed) 5000 "account" "jobs" (some 1) 5000 later dequeued-Hands
      later_allowed

abbrev change : MessageUpdate
change = record {
  account_name = "account";
  queue_name = "jobs";
  message_id = "m2";
  pop_receipt = "fourth";
  time_next_visible = 90000;
  persistency = none;
}

get_messages-receipt_example :
    let s' = (run message_table later dequeued.1).1 in
    Fails message_table message_table_laws "account" "jobs" "m2" 35000 "second"
      (delete_message message_table 9000 "account" "jobs" "m2" "first" s').0
    × Fails message_table message_table_laws "account" "jobs" "m2" 35000 "second"
        (update_message message_table 9000 change "first" s').0
get_messages-receipt_example =
    get_messages-receipt message_table message_table_laws "account" "jobs" "m2" 35000 "second" store
      two (refl, two-AreKeyed) 5000 "account" "jobs" (some 1) 5000 later 9000 "first" change
      dequeued-Hands later_allowed (refl, refl, refl) refl

enqueue-IsPlaced_example :
    IsPlaced message_table 1000 "account" "jobs" "m3" "first"
      (some 5)
      (some (pos 10))
      (some (pos 60))
      chunk
      store
      (enqueue message_table 1000 "account" "jobs" "m3" "first"
        (some 5)
        (some (pos 10))
        (some (pos 60))
        chunk
        store)
enqueue-IsPlaced_example =
    enqueue-IsPlaced message_table 1000 "account" "jobs" "m3" "first" (some 5) (some (pos 10))
      (some (pos 60)) chunk store (omega arith)

-- With a timeout of seven days and no time to live a message expires when it becomes visible.
never_visible :
    (enqueue message_table 1000 "account" "jobs" "m3" "first"
      (some 5)
      (some (pos 604800))
      none
      chunk
      store).0
    ≡ ok (record (message "m3") { time_next_visible = 604801000; expiration_time = 604801000 })
unfolding enqueue
never_visible = refl

dequeue-IsBounded_example :
    IsBounded message_table message_table_laws 5000 "account" "jobs" "second" store two
      (dequeue message_table 5000 "account" "jobs" 5000 "second" none (some (pos 32)) store)
dequeue-IsBounded_example =
    dequeue-IsBounded message_table message_table_laws 5000 "account" "jobs" "second" store two 5000
      none (some (pos 32)) (omega arith) (refl, two-AreKeyed)
