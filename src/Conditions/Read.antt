-- ===== src/Conditions/Read.antt =====
-- src/blob/conditions/ReadConditionalHeadersValidator.ts.
use azurite.Prelude.{
  Bool, true, false, not, ◌||◌, ◌&&◌, Option, none, some, List, [], ◌∷◌, if◌then◌else◌,
}
use azurite.Dates.{before, not_before}
use azurite.Errors.{
  Result, ok, condition_not_met, not_modified, unsatisfiable_condition, ◌>>=◌, ◌>>◌, throw_if,
}
use azurite.Conditions.Model.{
  Text, text_eq, includes, ModifiedAccessConditions, ConditionalHeaders, conditional_headers,
  Resource, ConditionResource, condition_resource,
}

-- `list && list.length > 0`
abbrev pub nonempty : Option (List Text) → Bool
nonempty (some (x ∷ xs)) = true
nonempty _ = false

-- `list[0] === "*"`
abbrev pub first_is_star : List Text → Bool
first_is_star [] = false
first_is_star (t ∷ ts) = text_eq t (b'*' ∷ [])

abbrev pub starred : Option (List Text) → Bool
starred none = false
starred (some ts) = first_is_star ts

-- `header ? test(header) : undefined`
abbrev pub pass {ℓ} : {A : Type ℓ} → (A → Bool) → Option A → Option Bool
pass test none = none
pass test (some a) = some (test a)

abbrev pub is_false : Option Bool → Bool
is_false (some false) = true
is_false _ = false

abbrev pub is_true : Option Bool → Bool
is_true (some true) = true
is_true _ = false

-- `tags_match` is the where clause of generateQueryBlobWithTagsWhereFunction run on the resource:
-- whether it keeps the resource, or the error of a clause that does not parse.
unfoldable pub check_tags : (Text → Result Bool) → Option Text → Result (Unit {0})
check_tags tags_match none = ok tt
check_tags tags_match (some []) = ok tt
check_tags tags_match (some (c ∷ cs)) = do
  found ← tags_match (c ∷ cs)
  throw_if (not found) condition_not_met

read_absent : ConditionalHeaders → Result (Unit {0})
read_absent h = do
  throw_if (nonempty h.if_match) condition_not_met
  throw_if (starred h.if_none_match) unsatisfiable_condition
  ok tt

read_existing : (Text → Result Bool) → ConditionalHeaders → ConditionResource → Result (Unit {0})
read_existing tags_match h r =
    let if_match_pass : Option Bool =
      pass (λ ts. includes ts r.etag || first_is_star ts) h.if_match in
    let if_unmodified_since_pass : Option Bool =
      pass (λ d. not_before d r.last_modified) h.if_unmodified_since in
    let if_none_match_pass : Option Bool = pass (λ ts. not (includes ts r.etag)) h.if_none_match in
    let is_modified_since_pass : Option Bool =
      pass (λ d. before d r.last_modified) h.if_modified_since in
    do
      throw_if (starred h.if_none_match) unsatisfiable_condition
      throw_if (is_false if_match_pass) condition_not_met
      throw_if (is_false if_unmodified_since_pass) condition_not_met
      throw_if (is_false if_none_match_pass && not (is_true is_modified_since_pass)) not_modified
      throw_if (is_false is_modified_since_pass && not (is_true if_none_match_pass)) not_modified
      check_tags tags_match h.if_tags

unfoldable pub read_validate :
    (Text → Result Bool) → ConditionalHeaders → ConditionResource → Result (Unit {0})
unfolding read_absent read_existing
read_validate tags_match h r = if not r.exist then read_absent h else read_existing tags_match h r

-- validateReadConditions
unfoldable pub validate_read_conditions :
    (Text → Result Bool) → ModifiedAccessConditions → Option Resource → Result (Unit {0})
validate_read_conditions tags_match c model = do
  r ← condition_resource model
  read_validate tags_match (conditional_headers c) r
