-- ===== src/Tags/Visits.antt =====
-- The calls of QueryParser (src/blob/persistence/QueryInterpreter/QueryParser.ts) below visitUnary, and
-- what each call leaves and notes.
use azurite.Prelude.{
  ℕ, ◌≤◌, ◌≡◌, Bool, true, false, not, ◌&&◌, Option-cases, Bool-cases, inl, inr, List, arith,
  length,
}
use azurite.Errors.{Error, ok, Ensures, bind-Ensures, throw_if, ◌>>=◌, ◌>>◌}
use azurite.Conditions.Model.{Text}
use azurite.Tags.Model.{
  Operator, QueryNode, or_node, and_node, compare_node, expression_node, key_node, constant_node,
}
use azurite.Tags.Scanner.{skip_whitespace, consume_one_of, operators}
use azurite.Tags.Tokens.{query_error, visit_key, visit_value}
use azurite.Tags.Comparisons.{ComparisonNode, ParserState, record_comparison}
use azurite.Tags.Parser.{Parsed, at_rest, comparison_type, is_not_equals, visit_binary}
use azurite.Tags.Meaning.{IsTree}
use azurite.Tags.Consumed.{
  IsQueryError, length-skip_whitespace, consume_one_of-le, visit_key-Leaves, visit_value-Leaves,
  query_error-IsQueryError,
}
use azurite.Tags.Ranges.{
  comparisons, Noted, Noted-nothing, Noted-then, Recorded, record_comparison-Ensures,
}

-- No or, and no <>.
abbrev pub IsConjunction : QueryNode → Type 0
IsConjunction (or_node l r) = ⊥
IsConjunction (and_node l r) = IsConjunction l × IsConjunction r
IsConjunction (compare_node operator l r) = is_not_equals operator ≡ false
IsConjunction (expression_node c) = IsConjunction c
IsConjunction (key_node k) = Unit
IsConjunction (constant_node v) = Unit

-- In a where clause: what the parser has noted is what the tree compares.
abbrev pub Noting : Bool → QueryNode → List ComparisonNode → List ComparisonNode → Type 0
Noting true t ns ns' = Unit
Noting false t ns ns' = IsConjunction t × Noted (comparisons t) ns ns'

pub record Visited (header : Bool) (ns : List ComparisonNode) (n : ℕ) (r : QueryNode × ParserState)
    : Type 0 where
  pub shorter : length r.1.rest ≤ n
  pub tree : IsTree r.0
  pub noting : Noting header r.0 ns r.1.comparison_nodes

abbrev pub Visits : Bool → ParserState → Parsed → Type 0
Visits header st p =
    Ensures (IsQueryError header) (Visited header st.comparison_nodes (length st.rest)) p

module _ (header : Bool) (inherited_key : Text → Bool) where
  abbrev E : Error → Type 0
  E = IsQueryError header

  key-Noting : (k : Text) (ns : List ComparisonNode) → Noting header (key_node k) ns ns
  key-Noting k ns = elim header as (λ b. Noting b (key_node k) ns ns) [
    | true ↦ tt
    | false ↦ unfold comparisons in (tt, Noted-nothing ns)
  ]

  compare-Noting :
      (o : Operator) (k v : Text) (st st' : ParserState)
      → is_not_equals o && not header ≡ false
      → Recorded inherited_key header st k (comparison_type o) st'
      → Noting header
          (compare_node o (key_node k) (constant_node v))
          st.comparison_nodes
          st'.comparison_nodes
  compare-Noting o k v st st' =
      elim header
        as (λ b.
          is_not_equals o && not b ≡ false
          → Recorded inherited_key b st k (comparison_type o) st'
          → Noting b (compare_node o (key_node k) (constant_node v)) st.comparison_nodes
              st'.comparison_nodes) [
                | true ↦ λ e r. tt
                | false ↦ λ e r. unfold comparisons in (ground arith, r (ground arith))
              ]

  pub and_Noting :
      (l r : QueryNode) (ns ms ks : List ComparisonNode)
      → Noting header l ns ms
      → Noting header r ms ks
      → Noting header (and_node l r) ns ks
  and_Noting l r ns ms ks =
      elim header as (λ b. Noting b l ns ms → Noting b r ms ks → Noting b (and_node l r) ns ks) [
        | true ↦ λ p q. tt
        | false ↦ λ p q.
            unfold comparisons in
            ((p.0, q.0), Noted-then (comparisons l) (comparisons r) ns ms ks p.1 q.1)
      ]

  pub or_Noting :
      (t : QueryNode) (ns ks : List ComparisonNode) → not header ≡ false → Noting header t ns ks
  or_Noting t ns ks = elim header as (λ b. not b ≡ false → Noting b t ns ks) [
    | true ↦ λ e. tt
    | false ↦ λ e. cc e
  ]

  visit_compare :
      (st : ParserState) (left rest2 : Text) (o : Operator)
      → length rest2 ≤ length st.rest
      → (right : Text × Text) → length right.1 ≤ length rest2
      → Visits header st (do
        throw_if (is_not_equals o && not header) (query_error header)
        st' ← record_comparison header inherited_key (at_rest st right.1) left (comparison_type o)
        ok (compare_node o (key_node left) (constant_node right.0), st'))
  visit_compare st left rest2 o h right k = elim (Bool-cases (is_not_equals o && not header)) [
    | inl b ↦ rw b (query_error-IsQueryError header)
    | inr b ↦ rw b (
        bind-Ensures E
          (λ st'.
            (st'.rest ≡ right.1)
            × Recorded inherited_key header (at_rest st right.1) left (comparison_type o) st')
          (Visited header st.comparison_nodes (length st.rest))
          (record_comparison header inherited_key (at_rest st right.1) left (comparison_type o)) _
          (record_comparison-Ensures inherited_key header (at_rest st right.1) left
            (comparison_type o))
          λ st' p. record {
            shorter = rw p.0 (omega arith);
            tree = tt;
            noting = compare-Noting o left right.0 (at_rest st right.1) st' b p.1;
          })
  ]

  pub visit_binary-Visits :
      (st : ParserState) → Visits header st (visit_binary header inherited_key st)
  unfolding visit_binary
  visit_binary-Visits st =
      bind-Ensures E (λ p. length p.1 ≤ length st.rest)
        (Visited header st.comparison_nodes (length st.rest)) (visit_key header st.rest) _
        (visit_key-Leaves header st.rest)
        λ k p. elim (Option-cases (consume_one_of operators (skip_whitespace k.1))) [
          | inl e ↦ rw e (record {
            shorter = omega (arith, length-skip_whitespace k.1);
            tree = tt;
            noting = key-Noting k.0 st.comparison_nodes;
          })
          | inr ((o, after), e) ↦ rw e (
              bind-Ensures E (λ q. length q.1 ≤ length after)
                (Visited header st.comparison_nodes (length st.rest)) (visit_value header after) _
                (visit_value-Leaves header after)
                (visit_compare st k.0 after o (
                  omega (
                    arith,
                    length-skip_whitespace k.1,
                    consume_one_of-le operators (skip_whitespace k.1) e,
                  ))))
        ]
