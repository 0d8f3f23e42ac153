-- ===== src/Tags/Consumed.antt =====
-- How much of a query the steps of the parser of src/blob/persistence/QueryInterpreter consume, and
-- which errors they throw.
use azurite.Prelude.{
  ℕ, ◌+◌, ◌≤◌, ◌<◌, ◌≡◌, Bool, true, false, not, ◌&&◌, some, List, [], ◌∷◌, arith, length,
  Option-cases, inl, inr, ◌==◌,
}
use azurite.Errors.{
  Error, Result, Ensures, invalid_header_value, invalid_query_parameter_value, plain_error,
  type_error,
}
use azurite.Conditions.Model.{Text}
use azurite.Tags.Model.{Operator}
use azurite.Tags.Scanner.{
  skip_whitespace, peek_is, consume, symbol, consume_one_of, take_while, take_string,
}
use azurite.Tags.Tokens.{
  query_error, is_identifier_char, validate_key, validate_value, string_content, visit_string_key,
  visit_key, visit_value,
}

pub length-skip_whitespace : (cs : Text) → length (skip_whitespace cs) ≤ length cs
unfolding skip_whitespace
length-skip_whitespace [] = omega arith
length-skip_whitespace (c ∷ cs) = ground (arith, length-skip_whitespace cs)

consume-le :
    (word cs : Text) {rest : Text}
    → consume word cs ≡ some rest
    → length rest + length word ≤ length cs
unfolding consume
consume-le [] cs e = ground arith
consume-le (w ∷ ws) [] e = ground arith
consume-le (w ∷ ws) (c ∷ cs) {rest} e = ground (arith, consume-le ws cs {rest = rest})

pub consume-lt :
    (w : ℕ) (ws cs : Text) {rest : Text} → consume (w ∷ ws) cs ≡ some rest → length rest < length cs
consume-lt w ws cs {rest} e = omega (arith, consume-le (w ∷ ws) cs {rest = rest} e)

symbol-le :
    (o : Operator) (cs : Text) {rest : Text}
    → consume (symbol o) cs ≡ some rest
    → length rest ≤ length cs
symbol-le o cs {rest} e = omega (arith, consume-le (symbol o) cs {rest = rest} e)

pub consume_one_of-le :
    (os : List Operator) (cs : Text) {o : Operator} {rest : Text}
    → consume_one_of os cs ≡ some (o, rest)
    → length rest ≤ length cs
unfolding consume_one_of
consume_one_of-le [] cs e = ground arith
consume_one_of-le (p ∷ os) cs {o = o} {rest = rest} e =
    ground (arith, symbol-le p cs {rest = rest}, consume_one_of-le os cs {o = o} {rest = rest})

length-take_while : (test : ℕ → Bool) (cs : Text) → length (take_while test cs).1 ≤ length cs
unfolding take_while
length-take_while test [] = omega arith
length-take_while test (c ∷ cs) = ground (arith, length-take_while test cs)

length-take_string :
    (quote : ℕ) (escaping : Bool) (cs : Text) → length (take_string quote escaping cs).1 ≤ length cs
unfolding take_string
length-take_string quote escaping [] = omega arith
length-take_string quote escaping (c ∷ cs) =
    ground (arith, length-take_string quote (not escaping && c == quote && peek_is quote cs) cs)

-- The errors of a query: in a where clause also the plain Error of a tag that is compared twice, and
-- the TypeError of a name that Object.prototype has.
abbrev pub IsQueryError : Bool → Error → Type 0
IsQueryError true invalid_header_value = Unit
IsQueryError false invalid_query_parameter_value = Unit
IsQueryError false plain_error = Unit
IsQueryError false type_error = Unit
IsQueryError header e = ⊥

-- The step fails as a query does, or leaves at most n characters.
abbrev pub Leaves {ℓ} : {A : Type ℓ} → Bool → ℕ → Result (A × Text) → Type 0
Leaves header n r = Ensures (IsQueryError header) (λ p. length p.1 ≤ n) r

module _ (header : Bool) where
  pub query_error-IsQueryError : IsQueryError header (query_error header)
  query_error-IsQueryError = elim header as (λ b. IsQueryError b (query_error b)) [
    | true ↦ tt
    | false ↦ tt
  ]

  validate_key-Ensures :
      (key : Text) → Ensures (IsQueryError header) (λ _. Unit {0}) (validate_key header key)
  unfolding validate_key
  validate_key-Ensures key = ground (arith, query_error-IsQueryError)

  validate_value-Ensures :
      (v : Text) → Ensures (IsQueryError header) (λ _. Unit {0}) (validate_value header v)
  unfolding validate_value
  validate_value-Ensures v = ground (arith, query_error-IsQueryError)

  string_content-Leaves : (cs : Text) → Leaves header (length cs) (string_content header cs)
  unfolding string_content
  string_content-Leaves [] = query_error-IsQueryError
  string_content-Leaves (c ∷ cs) =
      elim (Option-cases (consume (c ∷ []) (take_string c false cs).1)) [
        | inl e ↦ ground (arith, query_error-IsQueryError)
        | inr (rest, e) ↦ ground (
          arith,
          consume-lt c [] (take_string c false cs).1 {rest = rest} e,
          length-take_string c false cs,
        )
      ]

  pub visit_key-Leaves : (cs : Text) → Leaves header (length cs) (visit_key header cs)
  unfolding visit_key visit_string_key
  visit_key-Leaves cs = ground (
    arith,
    string_content-Leaves cs,
    validate_key-Ensures (take_while is_identifier_char cs).0,
    query_error-IsQueryError,
    length-take_while is_identifier_char cs,
  )

  pub visit_value-Leaves : (cs : Text) → Leaves header (length cs) (visit_value header cs)
  unfolding visit_value
  visit_value-Leaves cs = ground (
    arith,
    string_content-Leaves (skip_whitespace cs),
    query_error-IsQueryError,
    length-skip_whitespace cs,
  )
