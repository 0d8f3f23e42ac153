-- ===== src/Tags/RoundTrip.antt =====
-- QueryParser (src/blob/persistence/QueryInterpreter/QueryParser.ts) reads a query of a condition
-- header back from its text.
use azurite.Prelude.{◌+◌, ◌*◌, ◌≤◌, ◌≡◌, refl, Bool, true, not, [], ◌∷◌, ◌++◌, arith, length, ◌==◌}
use azurite.Errors.{ok, err, Returns, throw_if, ◌>>=◌, ◌>>◌}
use azurite.Conditions.Model.{Text}
use azurite.Tags.Model.{
  QueryNode, or_node, and_node, compare_node, expression_node, key_node, constant_node,
}
use azurite.Tags.Scanner.{skip_whitespace, peek_is, consume, symbol, consume_one_of}
use azurite.Tags.Tokens.{query_error}
use azurite.Tags.Parser.{Parsed, visit_or, parse_query}
use azurite.Tags.Printer.{Level, any, conjunction, unary, IsTreeAt, print}
use azurite.Tags.Reading.{
  size, Reads, IsRead, conjunction_of_unary, any_of_conjunction, or_Reads, and_Reads, group-Reads,
  name-Reads, comparison-Reads,
}

module _ (inherited_key : Text → Bool) where
  of_unary :
      (level : Level) (t : QueryNode) → Reads inherited_key unary t → Reads inherited_key level t
  of_unary unary t u = u
  of_unary conjunction t u = conjunction_of_unary inherited_key t u
  of_unary any t u = any_of_conjunction inherited_key t (conjunction_of_unary inherited_key t u)

  reads : (level : Level) (t : QueryNode) → IsTreeAt level t → Reads inherited_key level t
  reads any (or_node l r) v = or_Reads inherited_key l r (reads conjunction l v.0) (reads any r v.1)
  reads conjunction (or_node l r) v = absurd v
  reads unary (or_node l r) v = absurd v
  reads any (and_node l r) v =
      any_of_conjunction inherited_key (and_node l r)
        (and_Reads inherited_key l r (reads unary l v.0) (reads conjunction r v.1))
  reads conjunction (and_node l r) v =
      and_Reads inherited_key l r (reads unary l v.0) (reads conjunction r v.1)
  reads unary (and_node l r) v = absurd v
  reads level (expression_node c) v =
      of_unary level (expression_node c) (group-Reads inherited_key c (reads any c v))
  reads level (key_node k) v = of_unary level (key_node k) (name-Reads inherited_key k v)
  reads level (compare_node o (key_node k) (constant_node x)) v =
      of_unary level (compare_node o (key_node k) (constant_node x))
        (comparison-Reads inherited_key o k x v.0 v.1)
  reads level t v = absurd v

longer : (k xs : Text) → length xs ≤ length (k ++ xs)
longer [] xs = omega arith
longer (c ∷ cs) xs = omega (arith, longer cs xs)

-- The text is as long as the tree is large.
size-le :
    (level : Level) (t : QueryNode) (rest : Text)
    → IsTreeAt level t
    → size t + length rest ≤ length (print t rest)
unfolding size print
size-le any (or_node l r) rest v = omega (
  arith,
  size-le conjunction l (b' ' ∷ b'o' ∷ b'r' ∷ b' ' ∷ print r rest) v.0,
  size-le any r rest v.1,
)
size-le any (and_node l r) rest v = omega (
  arith,
  size-le unary l (b' ' ∷ b'a' ∷ b'n' ∷ b'd' ∷ b' ' ∷ print r rest) v.0,
  size-le conjunction r rest v.1,
)
size-le conjunction (and_node l r) rest v = omega (
  arith,
  size-le unary l (b' ' ∷ b'a' ∷ b'n' ∷ b'd' ∷ b' ' ∷ print r rest) v.0,
  size-le conjunction r rest v.1,
)
size-le level (expression_node c) rest v = omega (arith, size-le any c (b')' ∷ rest) v)
size-le level (key_node k) rest v = omega (arith, longer k (b' ' ∷ rest))
size-le level (compare_node o (key_node k) (constant_node x)) rest v = omega (
  arith,
  longer k (symbol o ++ b'\'' ∷ (x ++ b'\'' ∷ rest)),
  longer (symbol o) (b'\'' ∷ (x ++ b'\'' ∷ rest)),
  longer x (b'\'' ∷ rest),
)
size-le level t rest v = absurd v

the_tree :
    (inherited_key : Text → Bool) (t : QueryNode) (r : Parsed)
    → Returns (IsRead inherited_key t []) r
    → (do
      (tree, st) ← r
      throw_if (not (length (skip_whitespace st.rest) == 0)) (query_error true)
      ok tree)
      ≡ ok t
unfolding skip_whitespace
the_tree inherited_key t (ok (n, st)) p = ground (arith, p)
the_tree inherited_key t (err e) p = absurd p

-- Take a tree of the grammar of a condition header, whose names are not empty and whose names and
-- values have only the characters that are allowed there. Reading its text gives the tree again: and
-- binds more tightly than or, both group to the right, and parentheses are kept.
pub parse_query-print :
    (inherited_key : Text → Bool) (t : QueryNode)
    → IsTreeAt any t
    → parse_query true inherited_key (print t []) ≡ ok t
unfolding parse_query peek_is consume_one_of consume skip_whitespace
parse_query-print inherited_key t v =
    let query = print t [] in
    the_tree inherited_key t (visit_or true inherited_key (4 * length query + 4) _) (
      reads inherited_key any t v [] (((refl, refl), refl), refl) (4 * length query + 4)
        (omega (arith, size-le any t [] v))
        (record { rest = query; comparison_nodes = []; comparison_count = 0 }) refl)
