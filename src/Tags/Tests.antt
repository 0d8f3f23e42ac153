-- ===== src/Tags/Tests.antt =====
-- Tag queries on small texts.
use azurite.Prelude.{◌≡◌, refl, Bool, true, false, Option, none, some, List, [], ◌∷◌, ℕ}
use azurite.Errors.{ok, err, Ensures, plain_error}
use azurite.Conditions.Model.{Text, text_eq}
use azurite.Tags.Model.{
  QueryNode, equals, greater_than, less_than, or_node, and_node, compare_node, key_node,
  expression_node, constant_node,
}
use azurite.Tags.Scanner.{
  skip_whitespace, is_space, peek_is, to_lower, consume, consume_one_of, take_while, take_string,
  undouble,
}
use azurite.Tags.Tokens.{
  is_key_char, is_value_char, all_chars, is_identifier_char, validate_key, validate_value,
  string_content, visit_key, visit_value,
}
use azurite.Tags.Comparisons.{existing, any_conflict, push_comparison, record_comparison}
use azurite.Tags.Parser.{visit_binary, visit_or, parse_query}
use azurite.Tags.Evaluate.{evaluate}
use azurite.Tags.Query.{FilterBlob, count_identifier_references, query_matches}
use azurite.Tags.Consumed.{IsQueryError}
use azurite.Tags.Meaning.{IsTree}
use azurite.Tags.Ranges.{IsRange, comparisons}
use azurite.Tags.Visits.{IsConjunction}
use azurite.Tags.Sound.{parse_query-Ensures, where_clause-Ensures}
use azurite.Tags.Answers.{Decides, query_matches-Decides}
use azurite.Tags.Printer.{print}
use azurite.Tags.RoundTrip.{parse_query-print}

abbrev a : Text
a = b'a' ∷ []

abbrev b : Text
b = b'b' ∷ []

abbrev one : Text
one = b'1' ∷ []

abbrev five : Text
five = b'5' ∷ []

-- a>'1'
abbrev above_one : List ℕ
above_one = b'a' ∷ b'>' ∷ b'\'' ∷ b'1' ∷ b'\'' ∷ []

-- a>'1' and a<'5'
abbrev range_query : Text
range_query =
    b'a' ∷ b'>' ∷ b'\'' ∷ b'1' ∷ b'\'' ∷ b' ' ∷ b'a' ∷ b'n' ∷ b'd' ∷ b' ' ∷ b'a' ∷ b'<' ∷ b'\''
    ∷ b'5' ∷ b'\'' ∷ []

-- a>'1' and a>'5'
abbrev twice_query : Text
twice_query =
    b'a' ∷ b'>' ∷ b'\'' ∷ b'1' ∷ b'\'' ∷ b' ' ∷ b'a' ∷ b'n' ∷ b'd' ∷ b' ' ∷ b'a' ∷ b'>' ∷ b'\''
    ∷ b'5' ∷ b'\'' ∷ []

-- a and b
abbrev names_query : Text
names_query = b'a' ∷ b' ' ∷ b'a' ∷ b'n' ∷ b'd' ∷ b' ' ∷ b'b' ∷ []

abbrev no_key : Text → Bool
no_key k = false

abbrev no_text : Text → Option Text
no_text k = none

abbrev untagged : FilterBlob
untagged = record { container_name = none; tags = none }

abbrev tagged : FilterBlob
tagged = record { container_name = none; tags = some ((a, b'3' ∷ []) ∷ []) }

abbrev above : QueryNode
above = compare_node greater_than (key_node a) (constant_node one)

abbrev below : QueryNode
below = compare_node less_than (key_node a) (constant_node five)

-- a = '1' or (b and a>'1') and a<'5'
abbrev deep_tree : QueryNode
deep_tree =
    or_node (compare_node equals (key_node a) (constant_node one))
      (and_node (expression_node (and_node (key_node b) above)) below)

range_parsed : parse_query false no_key range_query ≡ ok (and_node above below)
unfolding parse_query visit_or visit_binary visit_key visit_value validate_key validate_value
    string_content take_while take_string undouble skip_whitespace is_space peek_is to_lower consume
    consume_one_of is_identifier_char all_chars is_key_char is_value_char record_comparison existing
    any_conflict push_comparison text_eq
range_parsed = refl

twice_refused : parse_query false no_key twice_query ≡ err plain_error
unfolding parse_query visit_or visit_binary visit_key visit_value validate_key validate_value
    string_content take_while take_string undouble skip_whitespace is_space peek_is to_lower consume
    consume_one_of is_identifier_char all_chars is_key_char is_value_char record_comparison existing
    any_conflict push_comparison text_eq
twice_refused = refl

-- Two names without a comparison find every blob.
names_alone : query_matches no_text true untagged names_query ≡ ok true
unfolding query_matches evaluate count_identifier_references parse_query visit_or visit_binary
    visit_key visit_value validate_key validate_value string_content take_while take_string undouble
    skip_whitespace is_space peek_is to_lower consume consume_one_of is_identifier_char all_chars
    is_key_char is_value_char record_comparison
names_alone = refl

parse_query-Ensures_example :
    Ensures (IsQueryError true) IsTree (parse_query true no_key range_query)
parse_query-Ensures_example = parse_query-Ensures true no_key range_query

where_clause-Ensures_example :
    Ensures
      (IsQueryError false)
      (λ t. IsConjunction t × ((k : Text) → IsRange (comparisons t k)))
      (parse_query false no_key range_query)
where_clause-Ensures_example = where_clause-Ensures no_key range_query

query_matches-Decides_example :
    Ensures
      (IsQueryError true)
      (Decides no_text true tagged range_query)
      (query_matches no_text true tagged range_query)
query_matches-Decides_example = query_matches-Decides no_text true tagged range_query

parse_query-print_example : parse_query true no_key (print deep_tree []) ≡ ok deep_tree
unfolding all_chars is_key_char is_value_char
parse_query-print_example =
    parse_query-print no_key deep_tree
      (((refl, refl), refl), (((refl, refl), ((refl, refl), refl)), ((refl, refl), refl)))
