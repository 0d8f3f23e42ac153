-- ===== src/Tags/Reading.antt =====
-- What QueryParser (src/blob/persistence/QueryInterpreter/QueryParser.ts) reads at each level of the
-- grammar in a condition header.
use azurite.Prelude.{
  ℕ, zero, suc, ◌+◌, ◌*◌, ◌≤◌, ◌≡◌, refl, sym, ◌∙◌, ap, Bool, true, false, none, [], ◌∷◌, ◌++◌,
  arith,
}
use mathlib.Core.Path.{subst}
use azurite.Errors.{Returns, bind-Returns}
use azurite.Conditions.Model.{Text}
use azurite.Tags.Model.{
  Operator, QueryNode, or_node, and_node, compare_node, expression_node, key_node, constant_node,
}
use azurite.Tags.Scanner.{
  is_space, skip_whitespace, peek_is, consume, to_lower, symbol, consume_one_of, operators,
}
use azurite.Tags.Comparisons.{ParserState}
use azurite.Tags.Parser.{
  Parsed, at_rest, visit_binary, visit_or, visit_and, visit_unary, visit_expression_group,
}
use azurite.Tags.Printer.{IsKey, IsValue, Level, any, conjunction, unary, print}
use azurite.Tags.Leaves.{skip_twice, skip_key, consume_key, visit_name, visit_comparison}

abbrev pub or_word : Text
or_word = b'o' ∷ b'r' ∷ []

abbrev pub and_word : Text
and_word = b'a' ∷ b'n' ∷ b'd' ∷ []

-- A quarter of the calls that a tree takes.
unfoldable pub size : QueryNode → ℕ
size (or_node l r) = size l + size r
size (and_node l r) = size l + size r
size (expression_node c) = suc (size c)
size _ = 1

pub size-pos : (t : QueryNode) → 1 ≤ size t
unfolding size
size-pos (or_node l r) = omega (arith, size-pos l)
size-pos (and_node l r) = omega (arith, size-pos l)
size-pos (expression_node c) = omega (arith, size-pos c)
size-pos (compare_node o l r) = omega arith
size-pos (key_node k) = omega arith
size-pos (constant_node v) = omega arith

abbrev pub offset : Level → ℕ
offset any = 0
offset conjunction = 1
offset unary = 2

abbrev pub EndsUnary : Text → Type 0
EndsUnary rest =
    (peek_is b'\'' rest ≡ false) × (consume_one_of operators (skip_whitespace rest) ≡ none)

abbrev pub EndsConjunction : Text → Type 0
EndsConjunction rest = EndsUnary rest × (consume and_word (skip_whitespace rest) ≡ none)

-- What may follow the text of a level.
abbrev pub Follows : Level → Text → Type 0
Follows unary rest = EndsUnary rest
Follows conjunction rest = EndsConjunction rest
Follows any rest = EndsConjunction rest × (consume or_word (skip_whitespace rest) ≡ none)

module _ (inherited_key : Text → Bool) where
  abbrev pub visit : Level → ℕ → ParserState → Parsed
  visit any = visit_or true inherited_key
  visit conjunction = visit_and true inherited_key
  visit unary = visit_unary true inherited_key

  abbrev pub IsRead : QueryNode → Text → QueryNode × ParserState → Type 0
  IsRead t rest r = (r.0 ≡ t) × (skip_whitespace r.1.rest ≡ skip_whitespace rest)

  abbrev pub Reads : Level → QueryNode → Type 0
  Reads level t =
      (rest : Text)
      → Follows level rest
      → (f : ℕ) → 4 * size t ≤ f + offset level
      → (st : ParserState) → skip_whitespace st.rest ≡ skip_whitespace (print t rest)
      → Returns (IsRead t rest) (visit level f st)

  pub conjunction_of_unary : (t : QueryNode) → Reads unary t → Reads conjunction t
  unfolding visit_and
  conjunction_of_unary t u rest v zero enough st h = absurd (omega (arith, enough, size-pos t))
  conjunction_of_unary t u rest v (suc f) enough st h =
      bind-Returns (IsRead t rest) (IsRead t rest) (visit_unary true inherited_key f st) _
        (u rest v.0 f (omega (arith, enough)) st h)
        λ (n, st1) p. rw (p.1, v.1) (p.0, skip_twice st1.rest ∙ p.1)

  pub any_of_conjunction : (t : QueryNode) → Reads conjunction t → Reads any t
  unfolding visit_or
  any_of_conjunction t u rest v zero enough st h = absurd (omega (arith, enough, size-pos t))
  any_of_conjunction t u rest v (suc f) enough st h =
      bind-Returns (IsRead t rest) (IsRead t rest) (visit_and true inherited_key f st) _
        (u rest v.0 f (omega (arith, enough)) st h)
        λ (n, st1) p. rw (p.1, v.1) (p.0, skip_twice st1.rest ∙ p.1)

  pub or_Reads : (l r : QueryNode) → Reads conjunction l → Reads any r → Reads any (or_node l r)
  unfolding visit_or size print skip_whitespace is_space consume to_lower consume_one_of peek_is
  or_Reads l r u w rest v zero enough st h = absurd (omega (arith, enough, size-pos l))
  or_Reads l r u w rest v (suc f) enough st h =
      let after = b' ' ∷ print r rest in
      let middle = b' ' ∷ b'o' ∷ b'r' ∷ after in
      bind-Returns (IsRead l middle) (IsRead (or_node l r) rest) (visit_and true inherited_key f st)
        _ (u middle ((refl, refl), refl) f (omega (arith, enough, size-pos r)) st h)
        λ (n, st1) p. rw p.1 (
          bind-Returns (IsRead r rest) (IsRead (or_node l r) rest)
            (visit_or true inherited_key f (at_rest st1 after)) _
            (w rest v f (omega (arith, enough, size-pos l)) (at_rest st1 after) refl)
            λ (m, st2) q. (ap (λ x. or_node x m) p.0 ∙ ap (λ y. or_node l y) q.0, q.1))

  pub and_Reads :
      (l r : QueryNode) → Reads unary l → Reads conjunction r → Reads conjunction (and_node l r)
  unfolding visit_and size print skip_whitespace is_space consume to_lower consume_one_of peek_is
  and_Reads l r u w rest v zero enough st h = absurd (omega (arith, enough, size-pos l, size-pos r))
  and_Reads l r u w rest v (suc f) enough st h =
      let after = b' ' ∷ print r rest in
      let middle = b' ' ∷ b'a' ∷ b'n' ∷ b'd' ∷ after in
      bind-Returns (IsRead l middle) (IsRead (and_node l r) rest)
        (visit_unary true inherited_key f st) _
        (u middle (refl, refl) f (omega (arith, enough, size-pos r)) st h)
        λ (n, st1) p. rw p.1 (
          bind-Returns (IsRead r rest) (IsRead (and_node l r) rest)
            (visit_and true inherited_key f (at_rest st1 after)) _
            (w rest v f (omega (arith, enough, size-pos l)) (at_rest st1 after) refl)
            λ (m, st2) q. (ap (λ x. and_node x m) p.0 ∙ ap (λ y. and_node l y) q.0, q.1))

  unary_reads :
      (t : QueryNode) (rest : Text) (f : ℕ) (st : ParserState) (x : Text)
      → skip_whitespace st.rest ≡ x
      → Returns (IsRead t rest) (visit_expression_group true inherited_key f (at_rest st x))
      → Returns (IsRead t rest) (visit_unary true inherited_key (suc f) st)
  unfolding visit_unary
  unary_reads t rest f st x h =
      subst
        (λ y. Returns (IsRead t rest) (visit_expression_group true inherited_key f (at_rest st y)))
        (sym h)

  pub group-Reads : (c : QueryNode) → Reads any c → Reads unary (expression_node c)
  unfolding visit_expression_group size print skip_whitespace is_space consume to_lower
      consume_one_of peek_is
  group-Reads c u rest v zero enough st h = absurd (omega (arith, enough, size-pos c))
  group-Reads c u rest v (suc zero) enough st h = absurd (omega (arith, enough, size-pos c))
  group-Reads c u rest v (suc (suc f)) enough st h =
      let after = b')' ∷ rest in
      unary_reads (expression_node c) rest (suc f) st (b'(' ∷ print c after) h (
        bind-Returns (IsRead c after) (IsRead (expression_node c) rest)
          (visit_or true inherited_key f (at_rest st (print c after))) _
          (u after (((refl, refl), refl), refl) f (omega (arith, enough))
            (at_rest st (print c after)) refl)
          λ (n, st1) p. rw p.1 (ap expression_node p.0, refl))

  leaf_reads :
      (t : QueryNode) (k xs rest : Text) (f : ℕ) (st : ParserState)
      → IsKey k
      → skip_whitespace st.rest ≡ skip_whitespace (k ++ xs)
      → Returns (IsRead t rest) (visit_binary true inherited_key (at_rest st (k ++ xs)))
      → Returns (IsRead t rest) (visit_unary true inherited_key (suc (suc f)) st)
  unfolding visit_expression_group
  leaf_reads t k xs rest f st v h b =
      unary_reads t rest (suc f) st (k ++ xs) (h ∙ skip_key k xs v)
        (rw (visit_expression_group, skip_key k xs v, consume_key k xs v) (rw (skip_key k xs v) b))

  pub name-Reads : (k : Text) → IsKey k → Reads unary (key_node k)
  unfolding size print
  name-Reads k v rest w zero enough st h = absurd (omega (arith, enough))
  name-Reads k v rest w (suc zero) enough st h = absurd (omega (arith, enough))
  name-Reads k v rest w (suc (suc f)) enough st h =
      leaf_reads (key_node k) k (b' ' ∷ rest) rest f st v h (
        rw (visit_name inherited_key (at_rest st (k ++ b' ' ∷ rest)) k rest v w.1 refl)
          (refl, skip_twice rest))

  pub comparison-Reads :
      (o : Operator) (k v : Text)
      → IsKey k
      → IsValue v
      → Reads unary (compare_node o (key_node k) (constant_node v))
  unfolding size print
  comparison-Reads o k v a b rest w zero enough st h = absurd (omega (arith, enough))
  comparison-Reads o k v a b rest w (suc zero) enough st h = absurd (omega (arith, enough))
  comparison-Reads o k v a b rest w (suc (suc f)) enough st h =
      let xs = symbol o ++ b'\'' ∷ (v ++ b'\'' ∷ rest) in
      leaf_reads (compare_node o (key_node k) (constant_node v)) k xs rest f st a h (
        rw (visit_comparison inherited_key (at_rest st (k ++ xs)) k o v rest a b w.0 refl)
          (refl, refl))
