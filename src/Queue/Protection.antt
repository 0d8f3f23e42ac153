-- ===== src/Queue/Protection.antt =====
-- src/queue/persistence/LokiQueueMetadataStore.ts: runs of operations around a message that was handed
-- out.
use mathlib.Core.List.{map}
use mathlib.Core.Path.{subst}
use azurite.Prelude.{ℕ, ◌≡◌, refl, sym, true, false, String, Option, some, List, [], ◌∷◌, str_eq}
use azurite.Errors.{Result, ok, err}
use azurite.Methods.{after, ◌>>◌, pure}
use azurite.Queue.Hidden.{IsHidden, without_all-IsHidden}
use azurite.Queue.Keys.{map-All, put_all_named}
use azurite.Queue.Messages.{
  Message, MessageDb, MessageDbLaws, Messages, names, without_all, All, put_all,
}
use azurite.Queue.Operations.{
  Operation, insert, peek, get, delete, update, clear, apply, run, IsAllowed, AreAllowed,
}
use azurite.Queue.Store.{
  Store, MessageUpdate, hand_out, at_least_one, clear_expired_messages, find_message, find_visible,
  get_messages, delete_message, update_message,
}
use azurite.Queue.Visibility
use azurite.Queue.Visibility.{Keeps, Unnamed, Holds}

handed_held :
    (P : Message → Type 0) (until : ℕ) (receipt : String) (m : Messages) (xs : List Message)
    → All P xs
    → (a q i : String) (y : Message) → names (map (hand_out until receipt) xs) a q i ≡ true
    → put_all m (map (hand_out until receipt) xs) a q i ≡ some y
    → (y.time_next_visible ≡ until) × (y.pop_receipt ≡ receipt)
unfolding hand_out
handed_held P until receipt m xs h a q i y named e =
    let marked =
      map-All P (λ x. (x.time_next_visible ≡ until) × (x.pop_receipt ≡ receipt))
        (hand_out until receipt) xs (λ x p. (refl, refl)) h in
    let (x, held, at) = put_all_named _ m _ a q i marked named in
    let same : x ≡ y = cc (at, e) in
    subst (λ z. (z.time_next_visible ≡ until) × (z.pop_receipt ≡ receipt)) same held.0

module _ (db : MessageDb) (laws : MessageDbLaws db) where
  module _ (a q i : String) (until : ℕ) (receipt : String) where
    module _ (s : Store db.Collection) (m : Messages) (shown : laws.Shows s.messages m)
        (hidden : IsHidden a q i until receipt m) where
      delete_message-Keeps :
          (now : ℕ) (account queue id r : String)
          → Keeps db laws a q i until receipt
              ((delete_message db now account queue id r >> pure []) s)
      unfolding delete_message clear_expired_messages find_message
      delete_message-Keeps now account queue id r =
          Visibility.check_queue_exist-next db laws
            (λ out. Keeps db laws a q i until receipt (after out λ u. pure [])) account queue s _
            (λ e. ((m, shown, hidden), tt))
            (let shown1 = Visibility.stored_cleared db laws m now account queue s shown in
              Visibility.delete_found-Keeps db laws a q i until receipt _ _ shown1
                (without_all-IsHidden a q i until receipt m hidden _) _ account queue id r
                (sym (laws.find_one_lem _ _ account queue id shown1)))

      update_message-Keeps :
          (now : ℕ) (message : MessageUpdate) (r : String)
          → str_eq receipt r ≡ false
          → Keeps db laws a q i until receipt ((update_message db now message r >> pure []) s)
      unfolding update_message clear_expired_messages find_message
      update_message-Keeps now message r h =
          Visibility.check_queue_exist-next db laws
            (λ out. Keeps db laws a q i until receipt (after out λ u. pure [])) message.account_name
            message.queue_name s _ (λ e. ((m, shown, hidden), tt))
            (let shown1 =
                Visibility.stored_cleared db laws m now message.account_name message.queue_name s
                  shown in
              Visibility.update_found-Keeps db laws a q i until receipt _ _ shown1
                (without_all-IsHidden a q i until receipt m hidden _) _ message r
                (sym (
                  laws.find_one_lem _ _ message.account_name message.queue_name message.message_id
                    shown1))
                h)

      apply-Keeps :
          (op : Operation)
          → IsAllowed db a q i until receipt op s
          → Keeps db laws a q i until receipt (apply db op s)
      unfolding apply
      apply-Keeps (insert x) h =
          Visibility.insert_message-Keeps db laws a q i until receipt s m shown hidden x h.0 h.1
      apply-Keeps (peek now account queue n date) h =
          Visibility.peek_messages-Keeps db laws a q i until receipt s m shown hidden now account
            queue n date h
      apply-Keeps (get now account queue time r n date) h =
          Visibility.get_messages-Keeps db laws a q i until receipt s m shown hidden now account
            queue time r n date h
      apply-Keeps (delete now account queue id r) h = delete_message-Keeps now account queue id r
      apply-Keeps (update now message r) h = update_message-Keeps now message r h
      apply-Keeps (clear account queue) h =
          Visibility.clear_messages-Keeps db laws a q i until receipt s m shown hidden account queue

    -- None of the results has the message.
    abbrev pub AreUnnamed : List (Result (List Message)) → Type 0
    AreUnnamed [] = Unit
    AreUnnamed (r ∷ rs) = Unnamed db laws a q i until receipt r × AreUnnamed rs

    pub run-AreUnnamed :
        (ops : List Operation) (s : Store db.Collection)
        → Holds db laws (IsHidden a q i until receipt) s
        → AreAllowed db a q i until receipt ops s
        → AreUnnamed (run db ops s).0
          × Holds db laws (IsHidden a q i until receipt) (run db ops s).1
    unfolding run
    run-AreUnnamed [] s h k = (tt, h)
    run-AreUnnamed (op ∷ ops) s (m, shown, hidden) k =
        let (next, unnamed) = apply-Keeps s m shown hidden op k.0 in
        let (rest, end) = run-AreUnnamed ops _ next k.1 in ((unnamed, rest), end)

    abbrev pub Hands : Result (List Message) → Type 0
    Hands (ok xs) = names xs a q i ≡ true
    Hands (err e) = ⊥

    module _ (s : Store db.Collection) (m : Messages) (shown : laws.Shows s.messages m) (now : ℕ)
        (account queue : String) (n : Option ℕ) (date : ℕ) where
      pub handed_out-IsHidden :
          Hands (get_messages db now account queue until receipt n date s).0
          → Holds db laws
              (IsHidden a q i until receipt)
              (get_messages db now account queue until receipt n date s).1
      unfolding get_messages clear_expired_messages find_visible
      handed_out-IsHidden =
          Visibility.check_queue_exist-next db laws
            (λ out. Hands out.0 → Holds db laws (IsHidden a q i until receipt) out.1) account queue
            s _ (λ e h. absurd h)
            λ named.
              let m1 = without_all m (db.expired s.messages account queue now) in
              let shown1 = Visibility.stored_cleared db laws m now account queue s shown in
              let found = (laws.visible_lem _ m1 account queue date (at_least_one n) shown1).0 in
              let stored =
                map-All _ _ (hand_out until receipt) _
                  (λ x p. Visibility.handed_out_stored m1 until receipt x p.0) found in
              (
                _,
                laws.update-Shows _ m1 _ shown1 stored,
                λ y e. handed_held _ until receipt m1 _ found a q i y named e,
              )

      -- getMessages hides the messages that it hands out: if it gave the message with key a, q, i until
      -- the time `until`, and operations in any order follow, of which no dequeue or peek has a date of
      -- `until` or later, no update presents the receipt it was given, and no insert takes its key or that
      -- of a stored message, then none of them gives this message to its caller.
      pub get_messages-AreUnnamed :
          (ops : List Operation)
          → Hands (get_messages db now account queue until receipt n date s).0
          → AreAllowed db a q i until receipt ops
              (get_messages db now account queue until receipt n date s).1
          → AreUnnamed (run db ops (get_messages db now account queue until receipt n date s).1).0
      get_messages-AreUnnamed ops h k = (run-AreUnnamed ops _ (handed_out-IsHidden h) k).0
