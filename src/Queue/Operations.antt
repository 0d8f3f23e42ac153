-- ===== src/Queue/Operations.antt =====
-- src/queue/persistence/LokiQueueMetadataStore.ts: its operations on messages in any order, as the
-- handlers call them.
use azurite.Prelude.{ℕ, ◌≡◌, ◌<◌, false, String, Option, none, List, [], ◌∷◌, str_eq}
use azurite.Errors.{Result}
use azurite.Methods.{Method, ◌>>◌, pure}
use azurite.Queue.Messages.{Message, MessageDb, has_id}
use azurite.Queue.Store.{
  Store, MessageUpdate, insert_message, peek_messages, get_messages, delete_message, update_message,
  clear_messages,
}

-- `peek` and `get` carry the clock, account, queue, number and query date.
pub data Operation : Type 0 where
  insert : Message → Operation
  peek : ℕ → String → String → Option ℕ → ℕ → Operation
  get : ℕ → String → String → ℕ → String → Option ℕ → ℕ → Operation
  delete : ℕ → String → String → String → String → Operation
  update : ℕ → MessageUpdate → String → Operation
  clear : String → String → Operation

module _ (db : MessageDb) where
  -- The messages that an operation gives to its caller.
  unfoldable pub apply : Operation → Method (Store db.Collection) (List Message)
  apply (insert message) = insert_message db message >> pure []
  apply (peek now account queue n date) = peek_messages db now account queue n date
  apply (get now account queue time receipt n date) =
      get_messages db now account queue time receipt n date
  apply (delete now account queue id receipt) =
      delete_message db now account queue id receipt >> pure []
  apply (update now message receipt) = update_message db now message receipt >> pure []
  apply (clear account queue) = clear_messages db account queue >> pure []

  -- The results, and the store in the end.
  unfoldable pub run :
      List Operation → Store db.Collection → List (Result (List Message)) × Store db.Collection
  unfolding apply
  run [] s = ([], s)
  run (op ∷ ops) s =
      let (result, s1) = apply op s in let (results, s2) = run ops s1 in (result ∷ results, s2)

  module _ (a q i : String) (until : ℕ) (receipt : String) where
    -- No query is as late as `until`, no update has the message's key and receipt, and no insert the key
    -- of a stored message or of this one.
    abbrev pub IsAllowed : Operation → Store db.Collection → Type 0
    IsAllowed (insert x) s =
        (has_id x a q i ≡ false)
        × (db.find_one s.messages x.account_name x.queue_name x.message_id ≡ none)
    IsAllowed (peek now account queue n date) s = date < until
    IsAllowed (get now account queue time r n date) s = date < until
    IsAllowed (delete now account queue id r) s = Unit
    IsAllowed (update now message r) s = str_eq receipt r ≡ false
    IsAllowed (clear account queue) s = Unit

    abbrev pub AreAllowed : List Operation → Store db.Collection → Type 0
    AreAllowed [] s = Unit
    AreAllowed (op ∷ ops) s = IsAllowed op s × AreAllowed ops (apply op s).1
