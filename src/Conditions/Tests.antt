-- ===== src/Conditions/Tests.antt =====
-- The validators on the headers of small requests.
use azurite.Prelude.{◌≡◌, ◌↔◌, refl, Bool, true, false, none, some, [], ◌∷◌}
use azurite.Prelude.Int.{pos}
use azurite.Dates.{date}
use azurite.Errors.{Result, ok, err, condition_not_met, unsatisfiable_condition, not_modified}
use azurite.Conditions.Model.{
  Text, text_eq, includes, split_comma, strip_quotes, condition_resource, conditional_headers,
  ModifiedAccessConditions, ConditionalHeaders, Resource, ConditionResource,
}
use azurite.Conditions.Read.{starred, check_tags, read_validate, validate_read_conditions}
use azurite.Conditions.Write.{
  write_validate, validate_write_conditions, SequenceNumberAccessConditions,
}
use azurite.Conditions.Laws.{Matches, Unmodified, Fresh, read_validate_iff, write_validate-tags}

-- A query that finds every resource, and one that finds none.
abbrev all : Text → Result Bool
all t = ok true

abbrev nothing : Text → Result Bool
nothing t = ok false

abbrev no_headers : ModifiedAccessConditions
no_headers = record {
  if_match = none;
  if_none_match = none;
  if_modified_since = none;
  if_unmodified_since = none;
  if_tags = none;
}

-- The blob whose etag is 0x8 in quotes, written 5.5 s after the epoch.
abbrev blob : Resource
blob = record {
  is_committed = true;
  etag = b'"' ∷ b'0' ∷ b'x' ∷ b'8' ∷ b'"' ∷ [];
  last_modified = date (pos 5500);
}

abbrev e8 : Text
e8 = b'0' ∷ b'x' ∷ b'8' ∷ []

e8_is_no_star : text_eq e8 (b'*' ∷ []) ≡ false
unfolding text_eq
e8_is_no_star = refl

abbrev found : ConditionResource
found = record { exist = true; etag = e8; last_modified = date (pos 5000) }

abbrev plain : ConditionalHeaders
plain = record {
  if_modified_since = none;
  if_unmodified_since = none;
  if_match = none;
  if_none_match = none;
  if_tags = none;
}

abbrev if_match_e8 : ConditionalHeaders
if_match_e8 = record plain { if_match = some (e8 ∷ []) }

abbrev if_none_match_e8 : ConditionalHeaders
if_none_match_e8 = record plain { if_none_match = some (e8 ∷ []) }

-- The milliseconds of the date of the blob do not count.
same_second :
    validate_read_conditions all
      (record no_headers { if_modified_since = some (date (pos 5999)) })
      (some blob)
    ≡ err not_modified
unfolding validate_read_conditions condition_resource conditional_headers read_validate text_eq
    includes strip_quotes
same_second = refl

star_read :
    validate_read_conditions all (record no_headers { if_none_match = some (b'*' ∷ []) }) none
    ≡ err unsatisfiable_condition
unfolding validate_read_conditions condition_resource conditional_headers read_validate text_eq
    includes strip_quotes
star_read = refl

quoted_match :
    validate_write_conditions all
      (record no_headers { if_match = some (b'"' ∷ b'0' ∷ b'x' ∷ b'8' ∷ b'"' ∷ []) })
      (some blob)
    ≡ ok tt
unfolding validate_write_conditions condition_resource conditional_headers write_validate text_eq
    split_comma strip_quotes
quoted_match = refl

tags_refused :
    write_validate nothing (record plain { if_tags = some (b'a' ∷ []) }) found
    ≡ err condition_not_met
unfolding write_validate check_tags
tags_refused = refl

read_validate_iff_example : (read_validate all if_none_match_e8 found ≡ ok tt) ↔ (
    Matches none e8
    × Unmodified none (date (pos 5000))
    × Fresh (some (e8 ∷ [])) none found
    × (starred (some (e8 ∷ [])) ≡ false)
    × (check_tags all none ≡ ok tt))
read_validate_iff_example = read_validate_iff all if_none_match_e8 found refl

write_validate-tags_example :
    write_validate all (record if_match_e8 { if_tags = some (b'a' ∷ []) }) found
    ≡ write_validate nothing (record if_match_e8 { if_tags = some (b'a' ∷ []) }) found
write_validate-tags_example =
    write_validate-tags all (record if_match_e8 { if_tags = some (b'a' ∷ []) }) found nothing refl

abbrev at_most_7 : SequenceNumberAccessConditions
at_most_7 = record {
  if_sequence_number_less_than_or_equal_to = some 7;
  if_sequence_number_less_than = none;
  if_sequence_number_equal_to = some 4;
}
