-- ===== src/Queue/Handlers.antt =====
-- src/queue/handlers/MessagesHandler.ts and MessageIdHandler.ts: the checks of a request on messages,
-- and the call of the store. `start` is context.startTime; the id, the pop receipt and the chunk that
-- holds the text come from outside, and a text is given by its size in UTF-8. The parser reads the
-- query parameters as numbers (parseFloat); here they are integers, as the service documents them. The
-- start time lies so far before the last date of JavaScript that a time it is compared with is a date.
use azurite.Prelude.{
  ℕ, ◌+◌, ◌*◌, ◌-◌, Bool, false, String, Option, none, some, List, ◌||◌, if◌then◌else◌, ltb, not,
}
use azurite.Prelude.Int.{ℤ, pos, negsuc, pos_part, ltb_ℤ, eq_ℤ}
use azurite.Errors.{
  Result, ok, err, throw_if, invalid_query_parameter_value, out_of_range_query_parameter,
  invalid_xml_document, request_body_too_large,
}
use azurite.Methods.{Method, ◌>>=◌, ◌>>◌, pure, of_result}
use azurite.Queue.Messages.{ExtentChunk, Message, MessageDb}
use azurite.Queue.Store.{Store, insert_message, peek_messages, get_messages, update_message}

-- NEVER_EXPIRE_DATE, 9999-12-31T23:59:59.999Z.
abbrev pub never_expire_date : ℕ
never_expire_date = 253402300799999

-- Seconds: the longest visibility timeout, and the default time to live.
abbrev pub seven_days : ℕ
seven_days = 604800

-- `value < min || value > max`
unfoldable pub out_of_range : ℕ → ℕ → ℤ → Bool
out_of_range low high value = ltb_ℤ value (pos low) || ltb_ℤ (pos high) value

-- The time after a visibility timeout in seconds, with the default and the least one.
unfoldable pub visible_time : ℕ → ℕ → ℕ → Option ℤ → Result ℕ
unfolding out_of_range
visible_time start default low none = ok (start + default * 1000)
visible_time start default low (some timeout) =
    if out_of_range low seven_days timeout
    then err out_of_range_query_parameter
    else ok (start + pos_part timeout * 1000)

unfoldable pub number_of_messages : Option ℤ → Result ℕ
unfolding out_of_range
number_of_messages none = ok 1
number_of_messages (some n) =
    if out_of_range 1 32 n then err out_of_range_query_parameter else ok (pos_part n)

-- `visibilitytimeout !== undefined && visibilitytimeout >= messageTimeToLive`
unfoldable pub not_below : Option ℤ → ℤ → Bool
not_below none ttl = false
not_below (some timeout) ttl = not (ltb_ℤ timeout ttl)

unfoldable pub expiration : ℕ → Option ℤ → Option ℤ → Result ℕ
unfolding not_below
expiration start timeout none = ok (start + seven_days * 1000)
expiration start timeout (some ttl) =
    if eq_ℤ ttl (negsuc 0)
    then ok never_expire_date
    else if ltb_ℤ ttl (pos 1)
    then err invalid_query_parameter_value
    else if not_below timeout ttl
    then err invalid_query_parameter_value
    else if ltb (never_expire_date - start) (pos_part ttl * 1000)
    then ok never_expire_date
    else ok (start + pos_part ttl * 1000)

unfoldable pub check_text : Option ℕ → Result (Unit {0})
check_text none = err invalid_xml_document
check_text (some size) = throw_if (ltb 65536 size) request_body_too_large

unfoldable pub check_new_text : Option ℕ → Result (Unit {0})
check_new_text none = ok tt
check_new_text (some size) = throw_if (ltb 65536 size) request_body_too_large

module _ (db : MessageDb) (start : ℕ) (account queue : String) where
  unfoldable pub enqueue :
      String
      → String
      → Option ℕ
      → Option ℤ
      → Option ℤ
      → ExtentChunk
      → Method (Store db.Collection) Message
  unfolding check_text visible_time expiration insert_message
  enqueue id receipt text timeout ttl chunk = do
    of_result (check_text text)
    visible ← of_result (visible_time start 0 0 timeout)
    expires ← of_result (expiration start timeout ttl)
    let message : Message = record {
      account_name = account;
      queue_name = queue;
      message_id = id;
      pop_receipt = receipt;
      time_next_visible = visible;
      persistency = chunk;
      insertion_time = start;
      expiration_time = expires;
      dequeue_count = 0;
    }
    insert_message db message
    pure message

  unfoldable pub dequeue :
      ℕ → String → Option ℤ → Option ℤ → Method (Store db.Collection) (List Message)
  unfolding visible_time number_of_messages
  dequeue now receipt timeout n = do
    visible ← of_result (visible_time start 30 1 timeout)
    number ← of_result (number_of_messages n)
    get_messages db now account queue visible receipt (some number) start

  -- peek of the handler.
  unfoldable pub peek_front : ℕ → Option ℤ → Method (Store db.Collection) (List Message)
  unfolding number_of_messages
  peek_front now n = do
    number ← of_result (number_of_messages n)
    peek_messages db now account queue (some number) start

  -- update of MessageIdHandler: the old and the new receipt, and a chunk if the text changes.
  unfoldable pub update_text :
      ℕ
      → String
      → String
      → String
      → Option ℕ
      → Option ℤ
      → Option ExtentChunk
      → Method (Store db.Collection) ℕ
  unfolding check_new_text visible_time
  update_text now id receipt new_receipt text timeout chunk = do
    of_result (check_new_text text)
    visible ← of_result (visible_time start 30 0 timeout)
    update_message db now
        (record {
          account_name = account;
          queue_name = queue;
          message_id = id;
          pop_receipt = new_receipt;
          time_next_visible = visible;
          persistency = chunk;
        })
        receipt
    pure visible
