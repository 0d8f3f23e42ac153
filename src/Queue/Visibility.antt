-- ===== src/Queue/Visibility.antt =====
-- src/queue/persistence/LokiQueueMetadataStore.ts: no operation hands a hidden message out.
use azurite.Prelude.{
  ℕ, ◌≡◌, ◌<◌, refl, sym, ◌∙◌, true, false, Bool-cases, inl, inr, String, Option, none, some, List,
  [], ◌∷◌, str_eq, defined,
}
use azurite.Errors.{Result, ok, err}
use azurite.Methods.{Method, after, ◌>>◌, pure}
use azurite.Queue.Hidden.{
  IsHidden, without_all-IsHidden, without_queue-IsHidden, put_other-IsHidden, visible-names,
}
use azurite.Queue.Keys.{
  has_id_eq, stored_at, weaken-All, map-All, names-map-hand_out, put_all_other,
}
use azurite.Queue.Messages.{
  Message, MessageDb, MessageDbLaws, Messages, has_id, names, put_all, without_all, IsStored,
}
use azurite.Queue.Store.{
  Store, MessageUpdate, has_queue, hand_out, at_least_one, one_if_unset, updated, check_queue_exist,
  clear_expired_messages, insert_message, find_visible, peek_messages, get_messages, check_receipt,
  clear_messages,
}

pub handed_out_stored :
    (m : Messages) (time : ℕ) (r : String) (x : Message)
    → IsStored m x
    → let y = hand_out time r x in defined (m y.account_name y.queue_name y.message_id) ≡ true
unfolding hand_out
handed_out_stored m time r x h = rw h

updated_stored :
    (m : Messages) (message : MessageUpdate) (doc : Message)
    → IsStored m doc
    → let y = updated message doc in defined (m y.account_name y.queue_name y.message_id) ≡ true
unfolding updated
updated_stored m message doc h = rw h

updated_other :
    (message : MessageUpdate) (doc : Message) (a q i : String)
    → has_id doc a q i ≡ false
    → has_id (updated message doc) a q i ≡ false
unfolding updated has_id
updated_other message doc a q i h = h

module _ (db : MessageDb) (laws : MessageDbLaws db) where
  abbrev pub Holds : (Messages → Type 0) → Store db.Collection → Type 0
  Holds P s = (m : Messages) × laws.Shows s.messages m × P m

  -- A method that starts with checkQueueExist, and what it then does.
  pub check_queue_exist-next :
      {A : Type 0} (P : Result A × Store db.Collection → Type 0) (account queue : String)
      (s : Store db.Collection) (next : Method (Store db.Collection) A)
      → ((e : _) → P (err e, s))
      → P (next s)
      → P ((check_queue_exist db account queue >> next) s)
  unfolding check_queue_exist
  check_queue_exist-next P account queue s next h k =
      elim (Bool-cases (has_queue s.queues account queue)) [ inl e ↦ rw e k | inr e ↦ rw e (h _) ]

  pub stored_cleared :
      (m : Messages) (now : ℕ) (account queue : String) (s : Store db.Collection)
      → laws.Shows s.messages m
      → laws.Shows
          (db.remove s.messages (db.expired s.messages account queue now))
          (without_all m (db.expired s.messages account queue now))
  stored_cleared m now account queue s h =
      laws.remove-Shows s.messages m _ h (
        weaken-All _ (IsStored m) _ (λ x p. p.0)
          (laws.expired_lem s.messages m account queue now h))

  module _ (a q i : String) (until : ℕ) (receipt : String) where
    abbrev pub Unnamed : Result (List Message) → Type 0
    Unnamed (ok xs) = names xs a q i ≡ false
    Unnamed (err e) = Unit

    -- The message stays hidden, and is not among those handed out.
    abbrev pub Keeps : Result (List Message) × Store db.Collection → Type 0
    Keeps (result, s) = Holds (IsHidden a q i until receipt) s × Unnamed result

    module _ (s : Store db.Collection) (m : Messages) (shown : laws.Shows s.messages m)
        (hidden : IsHidden a q i until receipt m) where
      pub peek_messages-Keeps :
          (now : ℕ) (account queue : String) (n : Option ℕ) (date : ℕ)
          → date < until
          → Keeps (peek_messages db now account queue n date s)
      unfolding peek_messages clear_expired_messages find_visible
      peek_messages-Keeps now account queue n date h =
          check_queue_exist-next Keeps account queue s _ (λ e. ((m, shown, hidden), tt))
            (let m1 = without_all m (db.expired s.messages account queue now) in
              let shown1 = stored_cleared m now account queue s shown in
              let hidden1 = without_all-IsHidden a q i until receipt m hidden _ in
              (
                (m1, shown1, hidden1),
                visible-names a q i until receipt m1 hidden1 _ date account queue h
                    (laws.visible_lem _ m1 account queue date (one_if_unset n) shown1).0,
              ))

      pub get_messages-Keeps :
          (now : ℕ) (account queue : String) (time : ℕ) (r : String) (n : Option ℕ) (date : ℕ)
          → date < until
          → Keeps (get_messages db now account queue time r n date s)
      unfolding get_messages clear_expired_messages find_visible
      get_messages-Keeps now account queue time r n date h =
          check_queue_exist-next Keeps account queue s _ (λ e. ((m, shown, hidden), tt))
            (let m1 = without_all m (db.expired s.messages account queue now) in
              let shown1 = stored_cleared m now account queue s shown in
              let hidden1 = without_all-IsHidden a q i until receipt m hidden _ in
              let found = (laws.visible_lem _ m1 account queue date (at_least_one n) shown1).0 in
              let unnamed =
                visible-names a q i until receipt m1 hidden1 _ date account queue h found in
              let other = names-map-hand_out time r _ a q i ∙ unnamed in
              (
                (
                  _,
                  laws.update-Shows _ m1 _ shown1 (
                      map-All _ _ (hand_out time r) _ (λ x p. handed_out_stored m1 time r x p.0)
                        found),
                  λ x e. hidden1 x (sym (put_all_other m1 _ a q i other) ∙ e),
                ),
                other,
              ))

      -- A message that is found is stored, under its own key.
      found-IsStored : (doc : Message) (a' q' i' : String) → m a' q' i' ≡ some doc → IsStored m doc
      found-IsStored doc a' q' i' e =
          let (x, y, z) =
            has_id_eq doc a' q' i' (laws.stored_has_id s.messages m a' q' i' doc shown e) in
          (λ j. m (x j) (y j) (z j)) ∙ e

      remove-Keeps :
          (doc : Message) (a' q' i' : String)
          → m a' q' i' ≡ some doc
          → Keeps (ok [], record s { messages = db.remove s.messages (doc ∷ []) })
      unfolding names
      remove-Keeps doc a' q' i' e = (
        (
          _,
          laws.remove-Shows s.messages m (doc ∷ []) shown (found-IsStored doc a' q' i' e, tt),
          without_all-IsHidden a q i until receipt m hidden (doc ∷ []),
        ),
        refl,
      )

      pub insert_message-Keeps :
          (x : Message)
          → has_id x a q i ≡ false
          → db.find_one s.messages x.account_name x.queue_name x.message_id ≡ none
          → Keeps ((insert_message db x >> pure []) s)
      unfolding insert_message names
      insert_message-Keeps x h e =
          check_queue_exist-next (λ out. Keeps (after out λ u. pure [])) x.account_name x.queue_name
            s _ (λ e'. ((m, shown, hidden), tt))
            (
              (
                _,
                laws.insert-Shows s.messages m x shown
                    (sym (laws.find_one_lem s.messages m _ _ _ shown) ∙ e),
                put_other-IsHidden a q i until receipt m hidden x h,
              ),
              refl,
            )

      -- A message with another receipt than the hidden one's is another message.
      other_receipt :
          (doc : Message) (a' q' i' r : String)
          → m a' q' i' ≡ some doc
          → str_eq doc.pop_receipt r ≡ true
          → str_eq receipt r ≡ false
          → has_id doc a q i ≡ false
      other_receipt doc a' q' i' r e same other = elim (Bool-cases (has_id doc a q i)) [
        | inl k ↦
            let held = (hidden doc (stored_at m doc a q i k (found-IsStored doc a' q' i' e))).1 in
            cc (held, same, other)
        | inr k ↦ k
      ]

      pub delete_found-Keeps :
          (o : Option Message) (a' q' i' r : String)
          → m a' q' i' ≡ o
          → Keeps (
              after
                (after
                  (check_receipt db o r s)
                  λ doc s1. (ok tt, record s1 { messages = db.remove s1.messages (doc ∷ []) }))
                λ u s2. (ok [], s2))
      unfolding check_receipt
      delete_found-Keeps none a' q' i' r e = ((m, shown, hidden), tt)
      delete_found-Keeps (some doc) a' q' i' r e = elim (Bool-cases (str_eq doc.pop_receipt r)) [
        | inl k ↦ rw k (remove-Keeps doc a' q' i' e)
        | inr k ↦ rw k ((m, shown, hidden), tt)
      ]

      pub update_found-Keeps :
          (o : Option Message) (message : MessageUpdate) (r : String)
          → m message.account_name message.queue_name message.message_id ≡ o
          → str_eq receipt r ≡ false
          → Keeps (
              after
                (after (check_receipt db o r s) λ doc s1. (
                  ok tt,
                  record s1 { messages = db.update s1.messages (updated message doc ∷ []) },
                ))
                λ u s2. (ok [], s2))
      unfolding check_receipt names put_all
      update_found-Keeps none message r e h = ((m, shown, hidden), tt)
      update_found-Keeps (some doc) message r e h = elim (Bool-cases (str_eq doc.pop_receipt r)) [
        | inl k ↦
            let kept = other_receipt doc _ _ _ r e k h in
            let stored = updated_stored m message doc (found-IsStored doc _ _ _ e) in
            rw k (
              (
                _,
                laws.update-Shows s.messages m _ shown (stored, tt),
                put_other-IsHidden a q i until receipt m hidden (updated message doc)
                    (updated_other message doc a q i kept),
              ),
              refl,
            )
        | inr k ↦ rw k ((m, shown, hidden), tt)
      ]

      pub clear_messages-Keeps :
          (account queue : String) → Keeps ((clear_messages db account queue >> pure []) s)
      unfolding clear_messages names
      clear_messages-Keeps account queue =
          check_queue_exist-next (λ out. Keeps (after out λ u. pure [])) account queue s _
            (λ e. ((m, shown, hidden), tt))
            (
              (
                _,
                laws.find_and_remove-Shows s.messages m account queue shown,
                without_queue-IsHidden a q i until receipt m hidden account queue,
              ),
              refl,
            )
