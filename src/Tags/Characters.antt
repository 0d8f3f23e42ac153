-- ===== src/Tags/Characters.antt =====
-- The characters of keys and values in the scanner of
-- src/blob/persistence/QueryInterpreter/QueryParser.ts.
use azurite.Prelude.{ℕ, ◌≡◌, refl, true, false, some, [], ◌∷◌, ◌++◌, arith, ◌==◌}
use azurite.Conditions.Model.{Text}
use azurite.Tags.Model.{
  Operator, equals, greater_than_equal, less_than_equal, not_equals, greater_than, less_than,
}
use azurite.Tags.Scanner.{
  is_space, peek_is, consume, to_lower, symbol, consume_one_of, operators, take_while, take_string,
  undouble,
}
use azurite.Tags.Tokens.{all_chars, is_identifier_char, is_key_char, is_value_char}

pub key_char :
    (c : ℕ)
    → is_key_char c ≡ true
    → (is_space c ≡ false)
      × (is_identifier_char c ≡ true)
      × (c == b'"' ≡ false)
      × (to_lower c == b'(' ≡ false)
      × (c == b'@' ≡ false)
unfolding is_key_char is_space is_identifier_char to_lower
key_char c e = ground arith

value_char : (c : ℕ) → is_value_char c ≡ true → c == b'\'' ≡ false
unfolding is_value_char
value_char c e = ground arith

pub take_key :
    (k : Text) (c : ℕ) (cs : Text)
    → all_chars is_key_char k ≡ true
    → is_identifier_char c ≡ false
    → take_while is_identifier_char (k ++ c ∷ cs) ≡ (k, c ∷ cs)
unfolding take_while all_chars
take_key [] c cs a e = ground arith
take_key (x ∷ xs) c cs a e = ground (arith, take_key xs c cs, key_char x)

pub take_value :
    (v rest : Text)
    → all_chars is_value_char v ≡ true
    → peek_is b'\'' rest ≡ false
    → take_string b'\'' false (v ++ b'\'' ∷ rest) ≡ (v, b'\'' ∷ rest)
unfolding take_string all_chars
take_value [] rest a e = ground arith
take_value (x ∷ xs) rest a e = ground (arith, take_value xs rest, value_char x)

pub undouble_value : (v : Text) → all_chars is_value_char v ≡ true → undouble b'\'' v ≡ v
unfolding undouble all_chars
undouble_value [] a = refl
undouble_value (c ∷ []) a = refl
undouble_value (c ∷ d ∷ cs) a = ground (arith, undouble_value (d ∷ cs), value_char c)

pub consume_symbol :
    (o : Operator) (rest : Text)
    → consume_one_of operators (symbol o ++ b'\'' ∷ rest) ≡ some (o, b'\'' ∷ rest)
unfolding consume_one_of consume
consume_symbol equals rest = refl
consume_symbol greater_than_equal rest = refl
consume_symbol less_than_equal rest = refl
consume_symbol not_equals rest = refl
consume_symbol greater_than rest = refl
consume_symbol less_than rest = refl
