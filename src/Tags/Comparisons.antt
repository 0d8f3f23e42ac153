-- ===== src/Tags/Comparisons.antt =====
-- src/blob/persistence/QueryInterpreter/QueryParser.ts: the comparisons that QueryParser has met, by
-- tag, and its state.
use azurite.Prelude.{
  ℕ, ◌+◌, Bool, true, false, not, ◌&&◌, ◌||◌, Option, none, some, List, [], ◌∷◌, ◌++◌,
  if◌then◌else◌, ltb, defined,
}
use azurite.Errors.{
  Result, ok, plain_error, type_error, invalid_query_parameter_value, throw_if, ◌>>◌,
}
use azurite.Conditions.Model.{Text, text_eq}
use azurite.Tags.Tokens.{container_key}

pub data ComparisonType : Type 0 where
  equal greater less not_equal : ComparisonType

pub record ComparisonNode : Type 0 where
  pub key : Text
  pub existed_comparison : List ComparisonType

-- The fields of the parser that change, and what is left of the query.
pub record ParserState : Type 0 where
  pub rest : Text
  pub comparison_nodes : List ComparisonNode
  pub comparison_count : ℕ

-- `this.comparisonNodes[key]` where it is a property of the record's own.
unfoldable pub existing : List ComparisonNode → Text → Option (List ComparisonType)
existing [] key = none
existing (n ∷ ns) key = if text_eq n.key key then some n.existed_comparison else existing ns key

abbrev pub conflicts : ComparisonType → ComparisonType → Bool
conflicts equal e = true
conflicts greater greater = true
conflicts greater equal = true
conflicts less less = true
conflicts less equal = true
conflicts _ e = false

unfoldable pub any_conflict : ComparisonType → List ComparisonType → Bool
any_conflict c [] = false
any_conflict c (e ∷ es) = conflicts c e || any_conflict c es

abbrev pub is_not_equal : ComparisonType → Bool
is_not_equal not_equal = true
is_not_equal _ = false

-- `existedComparison.push(…)`, or a new node at the end.
unfoldable pub push_comparison : List ComparisonNode → Text → ComparisonType → List ComparisonNode
push_comparison [] key c = record { key = key; existed_comparison = c ∷ [] } ∷ []
push_comparison (n ∷ ns) key c =
    let pushed = push_comparison ns key c in
    if text_eq n.key key
    then record n { existed_comparison = n.existed_comparison ++ c ∷ [] } ∷ ns
    else n ∷ pushed

module _ (header : Bool) (inherited_key : Text → Bool) where
  -- validateWithPreviousComparison; a name that Object.prototype has is found in the record, and is
  -- no ComparisonNode.
  unfoldable pub validate_with_previous :
      List ComparisonNode → Text → ComparisonType → Result (Unit {0})
  validate_with_previous nodes key c =
      if header || is_not_equal c then ok tt else elim (existing nodes key) [
        | some es ↦ throw_if (any_conflict c es) plain_error
        | none ↦ throw_if (inherited_key key) type_error
      ]

  -- appendComparisonNode
  unfoldable pub append_comparison : ParserState → Text → ComparisonType → Result ParserState
  append_comparison st key c =
      let known = defined (existing st.comparison_nodes key) in
      let count : ℕ =
        if not (text_eq key container_key) && not known
        then st.comparison_count + 1
        else st.comparison_count in
      if header then ok st else do
        throw_if (ltb 10 count) invalid_query_parameter_value
        throw_if (not known && inherited_key key) type_error
        ok (record st {
          comparison_nodes = push_comparison st.comparison_nodes key c;
          comparison_count = count;
        })

  unfoldable pub record_comparison : ParserState → Text → ComparisonType → Result ParserState
  unfolding validate_with_previous append_comparison
  record_comparison st key c = do
    validate_with_previous st.comparison_nodes key c
    append_comparison st key c
