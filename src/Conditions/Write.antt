-- ===== src/Conditions/Write.antt =====
-- src/blob/conditions/WriteConditionalHeadersValidator.ts.
use azurite.Prelude.{
  ℕ, ◌+◌, Bool, true, false, not, ◌&&◌, Option, none, some, List, ◌∷◌, if◌then◌else◌, ◌==◌, ltb,
  leb, defined,
}
use azurite.Dates.{before, not_before}
use azurite.Errors.{
  Result, ok, err, plain_error, condition_not_met, multiple_condition_headers_not_supported,
  sequence_number_condition_not_met, ◌>>=◌, ◌>>◌, throw_if,
}
use azurite.Conditions.Model.{
  Text, text_eq, ModifiedAccessConditions, ConditionalHeaders, conditional_headers, Resource,
  ConditionResource, condition_resource,
}
use azurite.Conditions.Read.{nonempty, starred, check_tags}

-- `list && list.length > 1`
abbrev pub several : Option (List Text) → Bool
several (some (x ∷ y ∷ ts)) = true
several _ = false

-- A header counts 1 if it is there.
abbrev pub one_if : Bool → ℕ
one_if true = 1
one_if false = 0

unfoldable pub validate_combinations : ConditionalHeaders → Result (Unit {0})
validate_combinations h =
    let if_match : ℕ = one_if (nonempty h.if_match) in
    let if_modified_since : ℕ = one_if (defined h.if_modified_since) in
    let if_none_match : ℕ = one_if (nonempty h.if_none_match) in
    let if_unmodified_since : ℕ = one_if (defined h.if_unmodified_since) in
    let sum : ℕ = if_match + if_modified_since + if_none_match + if_unmodified_since in
    do
      throw_if (several h.if_match) multiple_condition_headers_not_supported
      throw_if (several h.if_none_match) multiple_condition_headers_not_supported
      throw_if (ltb 2 sum) multiple_condition_headers_not_supported
      throw_if (sum == 2 && if_none_match + if_modified_since == 1)
          multiple_condition_headers_not_supported

-- `list[0] === etag`
abbrev pub first_is : Option (List Text) → Text → Bool
first_is (some (t ∷ ts)) etag = text_eq t etag
first_is _ etag = false

-- The branches that return for a nonexistent resource come to nothing.
write_absent : ConditionalHeaders → Result (Unit {0})
write_absent h =
    if nonempty h.if_none_match
    then ok tt
    else if nonempty h.if_match
    then throw_if (not (starred h.if_match)) condition_not_met
    else ok tt

write_since : (Text → Result Bool) → ConditionalHeaders → ConditionResource → Result (Unit {0})
write_since tags_match h r = elim h.if_modified_since [
  | some d ↦ throw_if (not_before d r.last_modified) condition_not_met
  | none ↦ elim h.if_unmodified_since [
    | some d ↦ throw_if (before d r.last_modified) condition_not_met
    | none ↦ check_tags tags_match h.if_tags
  ]
]

write_existing : (Text → Result Bool) → ConditionalHeaders → ConditionResource → Result (Unit {0})
write_existing tags_match h r =
    if nonempty h.if_none_match
    then if starred h.if_none_match
      then ok tt
      else throw_if (first_is h.if_none_match r.etag) condition_not_met
    else if nonempty h.if_match
    then throw_if (not (starred h.if_match) && not (first_is h.if_match r.etag)) condition_not_met
    else write_since tags_match h r

unfoldable pub write_validate :
    (Text → Result Bool) → ConditionalHeaders → ConditionResource → Result (Unit {0})
unfolding validate_combinations write_absent write_existing write_since
write_validate tags_match h r = do
  validate_combinations h
  if not r.exist then write_absent h else write_existing tags_match h r

-- validateWriteConditions
unfoldable pub validate_write_conditions :
    (Text → Result Bool) → ModifiedAccessConditions → Option Resource → Result (Unit {0})
validate_write_conditions tags_match c model = do
  r ← condition_resource model
  write_validate tags_match (conditional_headers c) r

pub record SequenceNumberAccessConditions : Type 0 where
  pub if_sequence_number_less_than_or_equal_to : Option ℕ
  pub if_sequence_number_less_than : Option ℕ
  pub if_sequence_number_equal_to : Option ℕ

abbrev holds : (ℕ → Bool) → Option ℕ → Bool
holds test none = false
holds test (some n) = test n

-- validateSequenceNumberWriteConditions; the model is its blobSequenceNumber, if it has one.
unfoldable pub validate_sequence_number :
    Option SequenceNumberAccessConditions → Option (Option ℕ) → Result (Unit {0})
validate_sequence_number none model = ok tt
validate_sequence_number (some c) none = ok tt
validate_sequence_number (some c) (some none) = err plain_error
validate_sequence_number (some c) (some (some n)) = do
  throw_if (holds (λ k. ltb k n) c.if_sequence_number_less_than_or_equal_to)
      sequence_number_condition_not_met
  throw_if (holds (λ k. leb k n) c.if_sequence_number_less_than) sequence_number_condition_not_met
  throw_if (holds (λ k. not (k == n)) c.if_sequence_number_equal_to)
      sequence_number_condition_not_met
