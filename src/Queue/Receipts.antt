-- ===== src/Queue/Receipts.antt =====
-- src/queue/persistence/LokiQueueMetadataStore.ts: the receipt of a message that was handed out.
use azurite.Prelude.{ℕ, ◌≡◌, refl, sym, ◌∙◌, false, String, Option, none, some, List, str_eq}
use azurite.Errors.{Result, ok, err}
use azurite.Methods.{Method, after}
use azurite.Queue.Hidden.{IsHidden, without_all-IsHidden}
use azurite.Queue.Messages.{Message, MessageDb, MessageDbLaws, Messages}
use azurite.Queue.Operations.{Operation, run, AreAllowed}
use azurite.Queue.Store.{
  Store, MessageUpdate, clear_expired_messages, find_message, get_messages, delete_message,
  update_message, check_receipt,
}
use azurite.Queue.Protection
use azurite.Queue.Protection.{Hands}
use azurite.Queue.Visibility
use azurite.Queue.Visibility.{Keeps, Unnamed, Holds}

module _ (db : MessageDb) (laws : MessageDbLaws db) where
  module _ (a q i : String) (until : ℕ) (receipt : String) where
    abbrev pub Fails : {A : Type 0} → Result A → Type 0
    Fails (ok u) = ⊥
    Fails (err e) = Unit

    module _ (s : Store db.Collection) (m : Messages) (shown : laws.Shows s.messages m)
        (hidden : IsHidden a q i until receipt m) where
      check_receipt-Fails :
          {B : Type 0} (o : Option Message) (a' q' i' r : String)
          (next : Message → Method (Store db.Collection) B)
          → (a' ≡ a) × (q' ≡ q) × (i' ≡ i)
          → m a' q' i' ≡ o
          → str_eq receipt r ≡ false
          → Fails (after (check_receipt db o r s) next).0
      unfolding check_receipt
      check_receipt-Fails none a' q' i' r next key e h = tt
      check_receipt-Fails (some doc) a' q' i' r next key e h =
          let stored = (λ j. m (sym key.0 j) (sym key.1 j) (sym key.2 j)) ∙ e in
          let mismatch : str_eq doc.pop_receipt r ≡ false = cc ((hidden doc stored).1, h) in
          rw mismatch tt

    module _ (s : Store db.Collection) (m : Messages) (shown : laws.Shows s.messages m)
        (hidden : IsHidden a q i until receipt m) where
      delete_message-Fails :
          (now : ℕ) (r : String)
          → str_eq receipt r ≡ false
          → Fails (delete_message db now a q i r s).0
      unfolding delete_message clear_expired_messages find_message
      delete_message-Fails now r h =
          Visibility.check_queue_exist-next db laws (λ out. Fails out.0) a q s _ (λ e. tt)
            (let shown1 = Visibility.stored_cleared db laws m now a q s shown in
              check_receipt-Fails _ _ shown1 (without_all-IsHidden a q i until receipt m hidden _) _
                a q i r _ (refl, refl, refl) (sym (laws.find_one_lem _ _ a q i shown1)) h)

      update_message-Fails :
          (now : ℕ) (message : MessageUpdate) (r : String)
          → (message.account_name ≡ a) × (message.queue_name ≡ q) × (message.message_id ≡ i)
          → str_eq receipt r ≡ false
          → Fails (update_message db now message r s).0
      unfolding update_message clear_expired_messages find_message
      update_message-Fails now message r key h =
          Visibility.check_queue_exist-next db laws (λ out. Fails out.0) message.account_name
            message.queue_name s _ (λ e. tt)
            (let shown1 =
                Visibility.stored_cleared db laws m now message.account_name message.queue_name s
                  shown in
              check_receipt-Fails _ _ shown1 (without_all-IsHidden a q i until receipt m hidden _) _
                _ _ _ r _ key
                (sym (
                  laws.find_one_lem _ _ message.account_name message.queue_name message.message_id
                    shown1))
                h)

    module _ (s : Store db.Collection) (m : Messages) (shown : laws.Shows s.messages m) (now : ℕ)
        (account queue : String) (n : Option ℕ) (date : ℕ) where
      -- After a dequeue that gave the message with key a, q, i the receipt `receipt`, and any operations
      -- as above, a delete or an update of the message succeeds with no other receipt.
      pub get_messages-receipt :
          (ops : List Operation) (later : ℕ) (r : String) (message : MessageUpdate)
          → Hands db laws a q i until receipt
              (get_messages db now account queue until receipt n date s).0
          → AreAllowed db a q i until receipt ops
              (get_messages db now account queue until receipt n date s).1
          → (message.account_name ≡ a) × (message.queue_name ≡ q) × (message.message_id ≡ i)
          → str_eq receipt r ≡ false
          → let s' = (run db ops (get_messages db now account queue until receipt n date s).1).1 in
            Fails (delete_message db later a q i r s').0
            × Fails (update_message db later message r s').0
      get_messages-receipt ops later r message h k key other =
          let (m', shown', hidden') =
            (Protection.run-AreUnnamed db laws a q i until receipt ops _
              (Protection.handed_out-IsHidden db laws a q i until receipt s m shown now account
                queue n date h)
              k).1 in
          (
            delete_message-Fails _ m' shown' hidden' later r other,
            update_message-Fails _ m' shown' hidden' later message r key other,
          )
