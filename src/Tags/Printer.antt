-- ===== src/Tags/Printer.antt =====
-- The queries of a condition header (the grammar at the top of
-- src/blob/persistence/QueryInterpreter/QueryParser.ts), written out from their trees.
use azurite.Prelude.{◌≡◌, true, false, ◌∷◌, ◌++◌, length, ◌==◌}
use azurite.Conditions.Model.{Text}
use azurite.Tags.Model.{
  QueryNode, or_node, and_node, compare_node, expression_node, key_node, constant_node,
}
use azurite.Tags.Scanner.{symbol}
use azurite.Tags.Tokens.{all_chars, is_key_char, is_value_char}

abbrev pub IsKey : Text → Type 0
IsKey k = (length k == 0 ≡ false) × (all_chars is_key_char k ≡ true)

abbrev pub IsValue : Text → Type 0
IsValue v = all_chars is_value_char v ≡ true

-- EXPRESSION, AND and UNARY of the grammar.
pub data Level : Type 0 where
  any conjunction unary : Level

-- The trees of a level: or and and group to the right, and an or below an and is in parentheses.
abbrev pub IsTreeAt : Level → QueryNode → Type 0
IsTreeAt any (or_node l r) = IsTreeAt conjunction l × IsTreeAt any r
IsTreeAt level (or_node l r) = ⊥
IsTreeAt unary (and_node l r) = ⊥
IsTreeAt level (and_node l r) = IsTreeAt unary l × IsTreeAt conjunction r
IsTreeAt level (expression_node c) = IsTreeAt any c
IsTreeAt level (key_node k) = IsKey k
IsTreeAt level (compare_node o (key_node k) (constant_node v)) = IsKey k × IsValue v
IsTreeAt level (compare_node o l r) = ⊥
IsTreeAt level (constant_node v) = ⊥

-- The text of a query in front of a rest. A name that stands alone is followed by a blank, since a
-- closing parenthesis would count as part of it.
unfoldable pub print : QueryNode → Text → Text
print (or_node l r) rest = print l (b' ' ∷ b'o' ∷ b'r' ∷ b' ' ∷ print r rest)
print (and_node l r) rest = print l (b' ' ∷ b'a' ∷ b'n' ∷ b'd' ∷ b' ' ∷ print r rest)
print (expression_node c) rest = b'(' ∷ print c (b')' ∷ rest)
print (key_node k) rest = k ++ b' ' ∷ rest
print (compare_node o (key_node k) (constant_node v)) rest =
    k ++ (symbol o ++ b'\'' ∷ (v ++ b'\'' ∷ rest))
print (compare_node o l r) rest = rest
print (constant_node v) rest = rest
