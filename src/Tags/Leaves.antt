-- ===== src/Tags/Leaves.antt =====
-- QueryParser on a name and on a comparison in a condition header
-- (src/blob/persistence/QueryInterpreter/QueryParser.ts).
use azurite.Prelude.{ℕ, ◌≡◌, refl, Bool, true, false, none, [], ◌∷◌, ◌++◌, arith}
use azurite.Errors.{ok}
use azurite.Conditions.Model.{Text}
use azurite.Tags.Model.{
  Operator, equals, greater_than_equal, less_than_equal, not_equals, greater_than, less_than,
  compare_node, key_node, constant_node,
}
use azurite.Tags.Scanner.{
  is_space, skip_whitespace, peek_is, consume, to_lower, symbol, consume_one_of, operators,
}
use azurite.Tags.Tokens.{
  all_chars, is_identifier_char, validate_key, validate_value, string_content, visit_key,
  visit_value,
}
use azurite.Tags.Comparisons.{
  ParserState, validate_with_previous, append_comparison, record_comparison,
}
use azurite.Tags.Parser.{at_rest, visit_binary}
use azurite.Tags.Printer.{IsKey, IsValue}
use azurite.Tags.Characters.{key_char, take_key, take_value, undouble_value, consume_symbol}

pub skip_twice : (cs : Text) → skip_whitespace (skip_whitespace cs) ≡ skip_whitespace cs
unfolding skip_whitespace
skip_twice [] = refl
skip_twice (c ∷ cs) = ground (arith, skip_twice cs)

pub skip_key : (k rest : Text) → IsKey k → skip_whitespace (k ++ rest) ≡ k ++ rest
unfolding skip_whitespace all_chars
skip_key [] rest v = ground arith
skip_key (c ∷ cs) rest v = ground (arith, key_char c)

pub consume_key : (k rest : Text) → IsKey k → consume (b'(' ∷ []) (k ++ rest) ≡ none
unfolding consume all_chars
consume_key [] rest v = ground arith
consume_key (c ∷ cs) rest v = ground (arith, key_char c)

skip_symbol : (o : Operator) (rest : Text) → skip_whitespace (symbol o ++ rest) ≡ symbol o ++ rest
unfolding skip_whitespace is_space
skip_symbol equals rest = refl
skip_symbol greater_than_equal rest = refl
skip_symbol less_than_equal rest = refl
skip_symbol not_equals rest = refl
skip_symbol greater_than rest = refl
skip_symbol less_than rest = refl

validate_key-lem : (k : Text) → IsKey k → validate_key true k ≡ ok tt
unfolding validate_key all_chars
validate_key-lem [] v = ground arith
validate_key-lem (c ∷ cs) v = ground (arith, key_char c)

peek_key : (k rest : Text) → IsKey k → peek_is b'"' (k ++ rest) ≡ false
unfolding peek_is all_chars
peek_key [] rest v = ground arith
peek_key (c ∷ cs) rest v = ground (arith, key_char c)

visit_key-lem :
    (k : Text) (c : ℕ) (cs : Text)
    → IsKey k
    → is_identifier_char c ≡ false
    → visit_key true (k ++ c ∷ cs) ≡ ok (k, c ∷ cs)
unfolding visit_key
visit_key-lem k c cs v e =
    rw (take_key k c cs v.1 e, peek_key k (c ∷ cs) v, v.0, validate_key-lem k v) refl

visit_key_before_symbol :
    (k : Text) (o : Operator) (rest : Text)
    → IsKey k
    → visit_key true (k ++ (symbol o ++ rest)) ≡ ok (k, symbol o ++ rest)
unfolding is_identifier_char is_space
visit_key_before_symbol k equals rest v = visit_key-lem k b'=' rest v refl
visit_key_before_symbol k greater_than_equal rest v = visit_key-lem k b'>' (b'=' ∷ rest) v refl
visit_key_before_symbol k less_than_equal rest v = visit_key-lem k b'<' (b'=' ∷ rest) v refl
visit_key_before_symbol k not_equals rest v = visit_key-lem k b'<' (b'>' ∷ rest) v refl
visit_key_before_symbol k greater_than rest v = visit_key-lem k b'>' rest v refl
visit_key_before_symbol k less_than rest v = visit_key-lem k b'<' rest v refl

visit_value-lem :
    (v rest : Text)
    → IsValue v
    → peek_is b'\'' rest ≡ false
    → visit_value true (b'\'' ∷ (v ++ b'\'' ∷ rest)) ≡ ok (v, rest)
unfolding visit_value string_content validate_value skip_whitespace is_space peek_is consume
    to_lower
visit_value-lem v rest a e = ground (arith, take_value v rest a e, undouble_value v a, a)

pub visit_name :
    (inherited_key : Text → Bool) (st : ParserState) (k rest : Text)
    → IsKey k
    → consume_one_of operators (skip_whitespace rest) ≡ none
    → st.rest ≡ k ++ b' ' ∷ rest
    → visit_binary true inherited_key st ≡ ok (key_node k, at_rest st (skip_whitespace rest))
unfolding visit_binary skip_whitespace is_space is_identifier_char
visit_name inherited_key st k rest v e h = ground (arith, h, visit_key-lem k b' ' rest v refl, e)

pub visit_comparison :
    (inherited_key : Text → Bool) (st : ParserState) (k : Text) (o : Operator) (v rest : Text)
    → IsKey k
    → IsValue v
    → peek_is b'\'' rest ≡ false
    → st.rest ≡ k ++ (symbol o ++ b'\'' ∷ (v ++ b'\'' ∷ rest))
    → visit_binary true inherited_key st
      ≡ ok (compare_node o (key_node k) (constant_node v), at_rest st rest)
unfolding visit_binary record_comparison validate_with_previous append_comparison
visit_comparison inherited_key st k o v rest a b e h =
    rw (h, visit_key_before_symbol k o (b'\'' ∷ (v ++ b'\'' ∷ rest)) a)
      (ground (
        arith,
        skip_symbol o (b'\'' ∷ (v ++ b'\'' ∷ rest)),
        consume_symbol o (v ++ b'\'' ∷ rest),
        visit_value-lem v rest b e,
      ))
