-- ===== src/Errors.antt =====
-- The errors that the modelled code throws, and the result of code that may throw.
-- src/blob/errors/StorageErrorFactory.ts and src/table and src/queue: one constructor
-- for each factory method that is called; the status code, the message and the request id are left
-- out. `range_error` is a JavaScript RangeError, `plain_error` an Error, `type_error` what reading a
-- property of undefined throws.
-- `out_of_fuel` has no counterpart in the source.
use azurite.Prelude.{Bool, true, false}

pub data Error : Type 0 where
  range_error type_error plain_error : Error
  invalid_lease_duration invalid_lease_break_period : Error
  lease_already_present lease_not_present_with_lease_operation : Error
  lease_id_mismatch_with_lease_operation : Error
  lease_is_breaking_and_cannot_be_acquired lease_is_breaking_and_cannot_be_changed : Error
  lease_is_broken_and_cannot_be_renewed : Error
  blob_lease_lost blob_lease_id_missing blob_lease_id_mismatch_with_blob_operation : Error
  container_lease_lost container_lease_id_missing : Error
  container_lease_id_mismatch_with_container_operation : Error
  condition_not_met not_modified unsatisfiable_condition : Error
  multiple_condition_headers_not_supported sequence_number_condition_not_met : Error
  blob_not_found blob_snapshots_present container_not_found : Error
  invalid_header_value invalid_query_parameter_value : Error
  table_not_exist entity_already_exist entity_not_found precondition_failed : Error
  queue_not_found message_not_found pop_receipt_mismatch out_of_range_query_parameter : Error
  invalid_xml_document request_body_too_large : Error
  properties_need_value invalid_input batch_duplicate_row_key not_implemented : Error
  out_of_fuel : Error

pub data Result {ℓ} (A : Type ℓ) : Type ℓ where
  ok : A → Result A
  err : Error → Result A

-- `if (b) throw e;`
abbrev pub throw_if : Bool → Error → Result (Unit {0})
throw_if true e = err e
throw_if false e = ok tt

infixl 5 ◌>>◌ ◌>>=◌
-- What a method does after a call that may throw.
abbrev pub ◌>>=◌ {ℓ κ} : {A : Type ℓ} {B : Type κ} → Result A → (A → Result B) → Result B
err thrown >>= next = err thrown
ok returned >>= next = next returned

-- After a call that returns nothing.
abbrev pub ◌>>◌ {ℓ} : {B : Type ℓ} → Result (Unit {0}) → Result B → Result B
check >> rest = check >>= λ _. rest

-- The result is a value that satisfies P.
abbrev pub Returns {ℓ} : {A : Type ℓ} → (A → Type 0) → Result A → Type 0
Returns P (ok a) = P a
Returns P (err e) = ⊥

-- An error of the service's protocol, and no failure of the program.
abbrev pub IsServiceError : Error → Type 0
IsServiceError range_error = ⊥
IsServiceError type_error = ⊥
IsServiceError plain_error = ⊥
IsServiceError out_of_fuel = ⊥
IsServiceError _ = Unit

-- The result is a value that satisfies P, or an error of the protocol.
abbrev pub Answers {ℓ} : {A : Type ℓ} → (A → Type 0) → Result A → Type 0
Answers P (ok a) = P a
Answers P (err e) = IsServiceError e

-- A chain answers if each step does.
pub bind-Answers {ℓ κ} :
    {A : Type ℓ} {B : Type κ} (P : A → Type 0) (Q : B → Type 0) (r : Result A) (f : A → Result B)
    → Answers P r
    → ((a : A) → P a → Answers Q (f a))
    → Answers Q (r >>= f)
bind-Answers P Q (ok a) f h k = k a h
bind-Answers P Q (err e) f h k = h

pub bind_of_Returns {ℓ κ} :
    {A : Type ℓ} {B : Type κ} (P : A → Type 0) (Q : B → Type 0) (r : Result A) (f : A → Result B)
    → Returns P r
    → ((a : A) → P a → Answers Q (f a))
    → Answers Q (r >>= f)
bind_of_Returns P Q (ok a) f h k = k a h
bind_of_Returns P Q (err e) f h k = absurd h

pub bind-Returns {ℓ κ} :
    {A : Type ℓ} {B : Type κ} (P : A → Type 0) (Q : B → Type 0) (r : Result A) (f : A → Result B)
    → Returns P r
    → ((a : A) → P a → Returns Q (f a))
    → Returns Q (r >>= f)
bind-Returns P Q (ok a) f h k = k a h
bind-Returns P Q (err e) f h k = absurd h

pub throw_if-Answers :
    (b : Bool) (e : Error) → IsServiceError e → Answers (λ _. Unit {0}) (throw_if b e)
throw_if-Answers true e h = h
throw_if-Answers false e h = tt

-- The result is a value that satisfies P, or an error that satisfies E.
abbrev pub Ensures {ℓ} : {A : Type ℓ} → (Error → Type 0) → (A → Type 0) → Result A → Type 0
Ensures E P (ok a) = P a
Ensures E P (err e) = E e

pub bind-Ensures {ℓ κ} :
    {A : Type ℓ} {B : Type κ} (E : Error → Type 0) (P : A → Type 0) (Q : B → Type 0) (r : Result A)
    (f : A → Result B)
    → Ensures E P r
    → ((a : A) → P a → Ensures E Q (f a))
    → Ensures E Q (r >>= f)
bind-Ensures E P Q (ok a) f h k = k a h
bind-Ensures E P Q (err e) f h k = h

pub throw_if-Ensures {ℓ} :
    {A : Type ℓ} (E : Error → Type 0) (P : A → Type 0) (b : Bool) (e : Error) (r : Result A)
    → E e
    → Ensures E P r
    → Ensures E P (throw_if b e >> r)
throw_if-Ensures E P true e r h k = h
throw_if-Ensures E P false e r h k = k
