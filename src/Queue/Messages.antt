-- ===== src/Queue/Messages.antt =====
-- src/queue/persistence/IQueueMetadataStore.ts: a message. LokiJS, which keeps the messages, is the
-- parameter MessageDb. Times are milliseconds since 1970. A message is found by its account, its queue
-- and its id.
use azurite.Prelude.{
  ℕ, ◌≡◌, ◌≤◌, Bool, true, false, String, Option, none, some, List, [], ◌∷◌, ◌&&◌, ◌||◌,
  if◌then◌else◌, str_eq, length, defined,
}

pub record ExtentChunk : Type 0 where
  pub id : String
  pub offset : ℕ
  pub count : ℕ

pub record Message : Type 0 where
  pub account_name : String
  pub queue_name : String
  pub message_id : String
  pub pop_receipt : String
  pub time_next_visible : ℕ
  pub persistency : ExtentChunk
  pub insertion_time : ℕ
  pub expiration_time : ℕ
  pub dequeue_count : ℕ

-- The query { accountName, queueName, messageId }.
unfoldable pub has_id : Message → String → String → String → Bool
has_id x account queue id =
    str_eq x.account_name account && (str_eq x.queue_name queue && str_eq x.message_id id)

-- Some message of the list has the key.
unfoldable pub names : List Message → String → String → String → Bool
names [] a q i = false
names (x ∷ xs) a q i = has_id x a q i || names xs a q i

-- The calls of a collection: `visible` is chain().find({ accountName, queueName, timeNextVisible: { $lte }
-- }).compoundsort(timeNextVisible, $loki).limit(n).data(), `expired` the query of clearExpiredMessages.
-- remove takes documents out, update writes documents that were changed, find_and_remove is
-- findAndRemove({ accountName, queueName }).
pub record MessageDb : Type 1 where
  pub Collection : Type 0
  pub insert : Collection → Message → Collection
  pub find_one : Collection → String → String → String → Option Message
  pub visible : Collection → String → String → ℕ → ℕ → List Message
  pub expired : Collection → String → String → ℕ → List Message
  pub remove : Collection → List Message → Collection
  pub update : Collection → List Message → Collection
  pub find_and_remove : Collection → String → String → Collection

-- The messages by account, queue and id.
abbrev pub Messages : Type 0
Messages = String → String → String → Option Message

unfoldable pub put : Messages → Message → Messages
put m x a q i = if has_id x a q i then some x else m a q i

unfoldable pub put_all : Messages → List Message → Messages
put_all m [] = m
put_all m (x ∷ xs) = put_all (put m x) xs

unfoldable pub without_all : Messages → List Message → Messages
without_all m xs a q i = if names xs a q i then none else m a q i

unfoldable pub without_queue : Messages → String → String → Messages
without_queue m account queue a q i = if str_eq account a && str_eq queue q then none else m a q i

abbrev pub All : (Message → Type 0) → List Message → Type 0
All P [] = Unit
All P (x ∷ xs) = P x × All P xs

abbrev pub IsStored : Messages → Message → Type 0
IsStored m x = m x.account_name x.queue_name x.message_id ≡ some x

-- What a query on a queue and a time gives: stored messages of the queue.
abbrev pub IsOfQueue : String → String → Message → Type 0
IsOfQueue account queue x = (x.account_name ≡ account) × (x.queue_name ≡ queue)

-- `Shows c m`: the collection c holds the messages m, each key in one document at most.
pub record MessageDbLaws (db : MessageDb) : Type 1 where
  pub Shows : db.Collection → Messages → Type 0
  pub insert-Shows :
      (c : db.Collection) (m : Messages) (x : Message)
      → Shows c m
      → m x.account_name x.queue_name x.message_id ≡ none
      → Shows (db.insert c x) (put m x)
  pub find_one_lem :
      (c : db.Collection) (m : Messages) (a q i : String)
      → Shows c m
      → db.find_one c a q i ≡ m a q i
  pub stored_has_id :
      (c : db.Collection) (m : Messages) (a q i : String) (x : Message)
      → Shows c m
      → m a q i ≡ some x
      → has_id x a q i ≡ true
  pub visible_lem :
      (c : db.Collection) (m : Messages) (a q : String) (time limit : ℕ)
      → Shows c m
      → All
          (λ x. IsStored m x × IsOfQueue a q x × (x.time_next_visible ≤ time))
          (db.visible c a q time limit)
        × (length (db.visible c a q time limit) ≤ limit)
  pub expired_lem :
      (c : db.Collection) (m : Messages) (a q : String) (time : ℕ)
      → Shows c m
      → All
          (λ x. IsStored m x × IsOfQueue a q x × (x.expiration_time ≤ time))
          (db.expired c a q time)
  pub remove-Shows :
      (c : db.Collection) (m : Messages) (xs : List Message)
      → Shows c m
      → All (IsStored m) xs
      → Shows (db.remove c xs) (without_all m xs)
  pub update-Shows :
      (c : db.Collection) (m : Messages) (xs : List Message)
      → Shows c m
      → All (λ x. defined (m x.account_name x.queue_name x.message_id) ≡ true) xs
      → Shows (db.update c xs) (put_all m xs)
  pub find_and_remove-Shows :
      (c : db.Collection) (m : Messages) (a q : String)
      → Shows c m
      → Shows (db.find_and_remove c a q) (without_queue m a q)
