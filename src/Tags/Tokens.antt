-- ===== src/Tags/Tokens.antt =====
-- src/blob/persistence/QueryInterpreter/QueryParser.ts: keys and values of a tag query. `header`
-- says whether a condition header is named, as it is for x-ms-if-tags and is not for Find Blobs by
-- Tags.
use azurite.Prelude.{
  ℕ, Bool, true, false, not, ◌&&◌, ◌||◌, none, some, [], ◌∷◌, if◌then◌else◌, ltb, leb, ◌==◌, length,
}
use azurite.Errors.{
  Error, Result, ok, err, invalid_header_value, invalid_query_parameter_value, throw_if, ◌>>=◌,
  ◌>>◌,
}
use azurite.Conditions.Model.{Text, text_eq}
use azurite.Tags.Scanner.{
  skip_whitespace, is_space, peek_is, consume, take_while, take_string, undouble,
}

-- The error of ParserContext.throw.
abbrev pub query_error : Bool → Error
query_error true = invalid_header_value
query_error false = invalid_query_parameter_value

-- "@container"
abbrev pub container_key : Text
container_key = b'@' ∷ b'c' ∷ b'o' ∷ b'n' ∷ b't' ∷ b'a' ∷ b'i' ∷ b'n' ∷ b'e' ∷ b'r' ∷ []

abbrev pub starts_with_at : Text → Bool
starts_with_at [] = false
starts_with_at (c ∷ cs) = c == b'@'

unfoldable pub is_key_char : ℕ → Bool
is_key_char c =
    (leb 97 c && leb c 122) || (leb 65 c && leb c 90) || (leb 48 c && leb c 57) || c == b'_'

-- A character of a surrogate pair is refused by its first half already.
unfoldable pub is_value_char : ℕ → Bool
is_value_char c =
    (leb 97 c && leb c 122)
    || (leb 65 c && leb c 90)
    || (leb 48 c && leb c 57)
    || c == b' '
    || c == b'+'
    || c == b'-'
    || c == b'.'
    || c == b'/'
    || c == b':'
    || c == b'='
    || c == b'_'

unfoldable pub all_chars : (ℕ → Bool) → Text → Bool
all_chars test [] = true
all_chars test (c ∷ cs) = test c && all_chars test cs

unfoldable pub is_identifier_char : ℕ → Bool
is_identifier_char c = not (is_space c) && not (c == b'=') && not (c == b'>') && not (c == b'<')

module _ (header : Bool) where
  unfoldable pub validate_key : Text → Result (Unit {0})
  validate_key key =
      if starts_with_at key
      then throw_if (header || not (text_eq key container_key)) (query_error header)
      else do
        throw_if (not header && (length key == 0 || ltb 128 (length key))) (query_error header)
        throw_if (not (all_chars is_key_char key)) (query_error header)

  unfoldable pub validate_value : Text → Result (Unit {0})
  validate_value value = do
    throw_if (not header && ltb 256 (length value)) (query_error header)
    throw_if (not (all_chars is_value_char value)) (query_error header)

  -- visitString without the validation: openCharacter is the first character.
  unfoldable pub string_content : Text → Result (Text × Text)
  string_content [] = err (query_error header)
  string_content (c ∷ cs) =
      let (content, rest) = take_string c false cs in
      elim (consume (c ∷ []) rest) [
        | none ↦ err (query_error header)
        | some left ↦ ok (undouble c content, left)
      ]

  -- visitString(true)
  unfoldable pub visit_string_key : Text → Result (Text × Text)
  unfolding string_content validate_key
  visit_string_key cs = do (name, rest) ← string_content cs; validate_key name; ok (name, rest)

  -- visitKey, whose node is a KeyNode of the text.
  unfoldable pub visit_key : Text → Result (Text × Text)
  unfolding visit_string_key validate_key
  visit_key cs =
      let (identifier, rest) = take_while is_identifier_char cs in
      if peek_is b'"' cs then visit_string_key cs else do
        throw_if (length identifier == 0) (query_error header)
        validate_key identifier
        ok (identifier, rest)

  -- visitValue, whose node is a ConstantNode of the text.
  unfoldable pub visit_value : Text → Result (Text × Text)
  unfolding string_content validate_value
  visit_value cs =
      let rest = skip_whitespace cs in
      if not (peek_is b'\'' rest)
      then err (query_error header)
      else do (value, left) ← string_content rest; validate_value value; ok (value, left)
