-- ===== src/Tags/Parser.antt =====
-- QueryParser of src/blob/persistence/QueryInterpreter/QueryParser.ts: a recursive descent parser.
use azurite.Prelude.{
  ℕ, zero, suc, ◌+◌, ◌*◌, Bool, true, false, not, ◌&&◌, none, some, [], ◌∷◌, ◌==◌, length,
}
use azurite.Errors.{Result, ok, err, out_of_fuel, throw_if, ◌>>=◌, ◌>>◌}
use azurite.Conditions.Model.{Text}
use azurite.Tags.Model.{
  Operator, equals, greater_than_equal, less_than_equal, not_equals, greater_than, less_than,
  QueryNode, or_node, and_node, compare_node, expression_node, key_node, constant_node,
}
use azurite.Tags.Scanner.{skip_whitespace, consume, consume_one_of, operators}
use azurite.Tags.Tokens.{query_error, visit_key, visit_value}
use azurite.Tags.Comparisons.{
  ComparisonType, equal, greater, less, not_equal, ParserState, record_comparison,
}

abbrev pub Parsed : Type 0
Parsed = Result (QueryNode × ParserState)

abbrev pub at_rest : ParserState → Text → ParserState
at_rest st rest = record st { rest = rest }

abbrev pub comparison_type : Operator → ComparisonType
comparison_type equals = equal
comparison_type not_equals = not_equal
comparison_type greater_than_equal = greater
comparison_type greater_than = greater
comparison_type less_than_equal = less
comparison_type less_than = less

abbrev pub is_not_equals : Operator → Bool
is_not_equals not_equals = true
is_not_equals _ = false

module _ (header : Bool) (inherited_key : Text → Bool) where
  -- visitBinary
  unfoldable pub visit_binary : ParserState → Parsed
  visit_binary st = do
    (left, rest) ← visit_key header st.rest
    let rest' = skip_whitespace rest
    elim (consume_one_of operators rest') as (λ _. Parsed) [
      | none ↦ ok (key_node left, at_rest st rest')
      | some (operator, after) ↦ do
        (right, rest2) ← visit_value header after
        throw_if (is_not_equals operator && not header) (query_error header)
        st' ←
            record_comparison header inherited_key (at_rest st rest2) left
              (comparison_type operator)
        ok (compare_node operator (key_node left) (constant_node right), st')
    ]

  -- visitOr, visitAnd, visitUnary and visitExpressionGroup; visitExpression is visitOr.
  unfoldable mutual
    pub visit_or : ℕ → ParserState → Parsed
    visit_or zero st = err out_of_fuel
    visit_or (suc f) st = do
      (left, st1) ← visit_and f st
      let rest = skip_whitespace st1.rest
      elim (consume (b'o' ∷ b'r' ∷ []) rest) as (λ _. Parsed) [
        | none ↦ ok (left, at_rest st1 rest)
        | some after ↦ do
          throw_if (not header) (query_error header)
          (right, st2) ← visit_or f (at_rest st1 after)
          ok (or_node left right, st2)
      ]

    pub visit_and : ℕ → ParserState → Parsed
    visit_and zero st = err out_of_fuel
    visit_and (suc f) st = do
      (left, st1) ← visit_unary f st
      let rest = skip_whitespace st1.rest
      elim (consume (b'a' ∷ b'n' ∷ b'd' ∷ []) rest) as (λ _. Parsed) [
        | none ↦ ok (left, at_rest st1 rest)
        | some after ↦ do
          (right, st2) ← visit_and f (at_rest st1 after)
          ok (and_node left right, st2)
      ]

    pub visit_unary : ℕ → ParserState → Parsed
    visit_unary zero st = err out_of_fuel
    visit_unary (suc f) st = visit_expression_group f (at_rest st (skip_whitespace st.rest))

    pub visit_expression_group : ℕ → ParserState → Parsed
    visit_expression_group zero st = err out_of_fuel
    visit_expression_group (suc f) st =
        let rest = skip_whitespace st.rest in
        elim (consume (b'(' ∷ []) rest) as (λ _. Parsed) [
          | none ↦ visit_binary (at_rest st rest)
          | some inside ↦ do
            (child, st1) ← visit_or f (at_rest st inside)
            elim (consume (b')' ∷ []) (skip_whitespace st1.rest)) as (λ _. Parsed) [
              | none ↦ err (query_error header)
              | some after ↦ ok (expression_node child, at_rest st1 after)
            ]
        ]

  -- visitQuery. Each character costs at most four calls, and each group that is opened four.
  unfoldable pub parse_query : Text → Result QueryNode
  unfolding visit_or visit_binary
  parse_query query = do
    (tree, st) ←
        visit_or (4 * length query + 4)
          (record { rest = query; comparison_nodes = []; comparison_count = 0 })
    throw_if (not (length (skip_whitespace st.rest) == 0)) (query_error header)
    ok tree
