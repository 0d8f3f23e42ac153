-- ===== src/Queue/Store.antt =====
-- src/queue/persistence/LokiQueueMetadataStore.ts: the operations on messages. `now` is the clock that
-- clearExpiredMessages reads; it has no await, so that it ends before its caller goes on, and its own
-- call of checkQueueExist repeats its caller's.
use azurite.Prelude.{
  ℕ, ◌+◌, Bool, false, String, Option, none, some, List, [], ◌∷◌, ◌&&◌, ◌||◌, if◌then◌else◌, str_eq,
  ltb, not,
}
use mathlib.Core.List.{map}
use azurite.Errors.{ok, queue_not_found, message_not_found, pop_receipt_mismatch}
use azurite.Methods.{Method, ◌>>=◌, ◌>>◌, pure, throw, when, modify}
use azurite.Queue.Messages.{ExtentChunk, Message, MessageDb}

pub record Store (C : Type 0) : Type 0 where
  pub queues : List (String × String)
  pub messages : C

unfoldable pub has_queue : List (String × String) → String → String → Bool
has_queue [] account queue = false
has_queue ((a, q) ∷ qs) account queue =
    str_eq a account && str_eq q queue || has_queue qs account queue

-- What getMessages changes in a document that it hands out.
unfoldable pub hand_out : ℕ → String → Message → Message
hand_out time_next_visible pop_receipt doc = record doc {
  time_next_visible = time_next_visible;
  pop_receipt = pop_receipt;
  dequeue_count = doc.dequeue_count + 1;
}

-- `numOfMessages === undefined || numOfMessages < 1`
unfoldable pub at_least_one : Option ℕ → ℕ
at_least_one none = 1
at_least_one (some n) = if ltb n 1 then 1 else n

unfoldable pub one_if_unset : Option ℕ → ℕ
one_if_unset none = 1
one_if_unset (some n) = n

-- MessageUpdateProperties
pub record MessageUpdate : Type 0 where
  pub account_name : String
  pub queue_name : String
  pub message_id : String
  pub pop_receipt : String
  pub time_next_visible : ℕ
  pub persistency : Option ExtentChunk

unfoldable pub chunk_or : Option ExtentChunk → ExtentChunk → ExtentChunk
chunk_or none old = old
chunk_or (some chunk) old = chunk

unfoldable pub updated : MessageUpdate → Message → Message
unfolding chunk_or
updated message doc = record doc {
  pop_receipt = message.pop_receipt;
  time_next_visible = message.time_next_visible;
  persistency = chunk_or message.persistency doc.persistency;
}

module _ (db : MessageDb) where
  unfoldable pub check_queue_exist : String → String → Method (Store db.Collection) (Unit {0})
  unfolding has_queue
  check_queue_exist account queue s =
      when (not (has_queue s.queues account queue)) (throw queue_not_found) s

  unfoldable pub clear_expired_messages :
      ℕ → String → String → Method (Store db.Collection) (Unit {0})
  clear_expired_messages now account queue s = (
    ok tt,
    record s { messages = db.remove s.messages (db.expired s.messages account queue now) },
  )

  unfoldable pub insert_message : Message → Method (Store db.Collection) (Unit {0})
  unfolding check_queue_exist
  insert_message message = do
    check_queue_exist message.account_name message.queue_name
    modify λ s. record s { messages = db.insert s.messages message }

  unfoldable pub find_visible :
      String → String → ℕ → ℕ → Method (Store db.Collection) (List Message)
  find_visible account queue time limit s = (ok (db.visible s.messages account queue time limit), s)

  unfoldable pub peek_messages :
      ℕ → String → String → Option ℕ → ℕ → Method (Store db.Collection) (List Message)
  unfolding check_queue_exist clear_expired_messages find_visible one_if_unset
  peek_messages now account queue num_of_messages query_date = do
    check_queue_exist account queue
    clear_expired_messages now account queue
    find_visible account queue query_date (one_if_unset num_of_messages)

  unfoldable pub get_messages :
      ℕ → String → String → ℕ → String → Option ℕ → ℕ → Method (Store db.Collection) (List Message)
  unfolding check_queue_exist clear_expired_messages find_visible at_least_one hand_out
  get_messages now account queue time_next_visible pop_receipt num_of_messages query_date = do
    check_queue_exist account queue
    clear_expired_messages now account queue
    docs ← find_visible account queue query_date (at_least_one num_of_messages)
    let handed_out = map (hand_out time_next_visible pop_receipt) docs
    modify λ s. record s { messages = db.update s.messages handed_out }
    pure handed_out

  -- The document of a message, if the receipt is its own.
  unfoldable pub check_receipt : Option Message → String → Method (Store db.Collection) Message
  check_receipt none receipt = throw message_not_found
  check_receipt (some doc) receipt =
      if str_eq doc.pop_receipt receipt then pure doc else throw pop_receipt_mismatch

  unfoldable pub find_message :
      String → String → String → Method (Store db.Collection) (Option Message)
  find_message account queue message_id s =
      (ok (db.find_one s.messages account queue message_id), s)

  unfoldable pub delete_message :
      ℕ → String → String → String → String → Method (Store db.Collection) (Unit {0})
  unfolding check_queue_exist clear_expired_messages check_receipt find_message
  delete_message now account queue message_id receipt = do
    check_queue_exist account queue
    clear_expired_messages now account queue
    found ← find_message account queue message_id
    doc ← check_receipt found receipt
    modify λ s. record s { messages = db.remove s.messages (doc ∷ []) }

  unfoldable pub update_message :
      ℕ → MessageUpdate → String → Method (Store db.Collection) (Unit {0})
  unfolding check_queue_exist clear_expired_messages check_receipt find_message updated
  update_message now message receipt = do
    check_queue_exist message.account_name message.queue_name
    clear_expired_messages now message.account_name message.queue_name
    found ← find_message message.account_name message.queue_name message.message_id
    doc ← check_receipt found receipt
    modify λ s. record s { messages = db.update s.messages (updated message doc ∷ []) }

  unfoldable pub clear_messages : String → String → Method (Store db.Collection) (Unit {0})
  unfolding check_queue_exist
  clear_messages account queue = do
    check_queue_exist account queue
    modify λ s. record s { messages = db.find_and_remove s.messages account queue }
