-- ===== src/Tags/Enough.antt =====
-- The fuel of the calls of QueryParser (src/blob/persistence/QueryInterpreter/QueryParser.ts), and what
-- they give on it.
use azurite.Prelude.{
  ℕ, zero, suc, ◌+◌, ◌*◌, ◌≤◌, ◌<◌, Bool, true, false, not, Option-cases, Bool-cases, inl, inr,
  List, [], ◌∷◌, arith, length,
}
use azurite.Errors.{ok, err, bind-Ensures}
use azurite.Conditions.Model.{Text}
use azurite.Tags.Model.{QueryNode, or_node, expression_node}
use azurite.Tags.Scanner.{skip_whitespace, consume}
use azurite.Tags.Comparisons.{ComparisonNode, ParserState}
use azurite.Tags.Parser.{Parsed, at_rest, visit_or, visit_and, visit_unary, visit_expression_group}
use azurite.Tags.Consumed.{
  IsQueryError, length-skip_whitespace, consume-lt, query_error-IsQueryError,
}
use azurite.Tags.Ranges.{comparisons}
use azurite.Tags.Visits.{Noting, Visited, Visits, and_Noting, or_Noting, visit_binary-Visits}

module _ (header : Bool) (inherited_key : Text → Bool) where
  -- Enough fuel for a call is more than four times what is left and its level.
  abbrev pub Total : (ℕ → ParserState → Parsed) → ℕ → ℕ → Type 0
  Total visit level f =
      (st : ParserState) → 4 * length st.rest + level < f → Visits header st (visit f st)

  abbrev or_word : Text
  or_word = b'o' ∷ b'r' ∷ []

  abbrev and_word : Text
  and_word = b'a' ∷ b'n' ∷ b'd' ∷ []

  or_step :
      (f : ℕ)
      → Total (visit_or header inherited_key) 3 f
      → Total (visit_and header inherited_key) 2 f
      → Total (visit_or header inherited_key) 3 (suc f)
  unfolding visit_or
  or_step f ors ands st enough =
      let Q = Visited header st.comparison_nodes (length st.rest) in
      bind-Ensures (IsQueryError header) Q Q (visit_and header inherited_key f st) _
        (ands st (omega arith))
        λ (left, st1) v. elim (Option-cases (consume or_word (skip_whitespace st1.rest))) [
          | inl e ↦ rw e (record {
            shorter = omega (arith, v.shorter, length-skip_whitespace st1.rest);
            tree = v.tree;
            noting = v.noting;
          })
          | inr (after, e) ↦
              let less : length after < length st.rest = omega (
                arith,
                v.shorter,
                length-skip_whitespace st1.rest,
                consume-lt b'o' (b'r' ∷ []) (skip_whitespace st1.rest) e,
              ) in
              rw e (elim (Bool-cases (not header)) [
                | inl b ↦ rw b (query_error-IsQueryError header)
                | inr b ↦ rw b (
                    bind-Ensures (IsQueryError header)
                      (Visited header st1.comparison_nodes (length after)) Q
                      (visit_or header inherited_key f (at_rest st1 after)) _
                      (ors (at_rest st1 after) (omega (arith, less, enough)))
                      λ (right, st2) w. record {
                        shorter = omega (arith, w.shorter, less);
                        tree = (v.tree, w.tree);
                        noting =
                            or_Noting header inherited_key (or_node left right) st.comparison_nodes
                              st2.comparison_nodes b;
                      })
              ])
        ]

  and_step :
      (f : ℕ)
      → Total (visit_and header inherited_key) 2 f
      → Total (visit_unary header inherited_key) 1 f
      → Total (visit_and header inherited_key) 2 (suc f)
  unfolding visit_and
  and_step f ands unaries st enough =
      let Q = Visited header st.comparison_nodes (length st.rest) in
      bind-Ensures (IsQueryError header) Q Q (visit_unary header inherited_key f st) _
        (unaries st (omega arith))
        λ (left, st1) v. elim (Option-cases (consume and_word (skip_whitespace st1.rest))) [
          | inl e ↦ rw e (record {
            shorter = omega (arith, v.shorter, length-skip_whitespace st1.rest);
            tree = v.tree;
            noting = v.noting;
          })
          | inr (after, e) ↦
              let less : length after < length st.rest = omega (
                arith,
                v.shorter,
                length-skip_whitespace st1.rest,
                consume-lt b'a' (b'n' ∷ b'd' ∷ []) (skip_whitespace st1.rest) e,
              ) in
              rw e (
                bind-Ensures (IsQueryError header)
                  (Visited header st1.comparison_nodes (length after)) Q
                  (visit_and header inherited_key f (at_rest st1 after)) _
                  (ands (at_rest st1 after) (omega (arith, less, enough)))
                  λ (right, st2) w. record {
                    shorter = omega (arith, w.shorter, less);
                    tree = (v.tree, w.tree);
                    noting =
                        and_Noting header inherited_key left right st.comparison_nodes
                          st1.comparison_nodes st2.comparison_nodes v.noting w.noting;
                  })
        ]

  weaken :
      (st : ParserState) (rest : Text) (p : Parsed)
      → length rest ≤ length st.rest
      → Visits header (at_rest st rest) p
      → Visits header st p
  weaken st rest (err e) h v = v
  weaken st rest (ok r) h v = record {
    shorter = omega (arith, v.shorter, h);
    tree = v.tree;
    noting = v.noting;
  }

  group-Noting :
      (t : QueryNode) (ns ms : List ComparisonNode)
      → Noting header t ns ms
      → Noting header (expression_node t) ns ms
  group-Noting t ns ms =
      elim header as (λ b. Noting b t ns ms → Noting b (expression_node t) ns ms) [
        | true ↦ λ p. tt
        | false ↦ λ p. unfold comparisons in p
      ]

  group_step :
      (f : ℕ)
      → Total (visit_or header inherited_key) 3 f
      → Total (visit_expression_group header inherited_key) 0 (suc f)
  unfolding visit_expression_group
  group_step f ors st enough =
      let rest = skip_whitespace st.rest in
      let Q = Visited header st.comparison_nodes (length st.rest) in
      elim (Option-cases (consume (b'(' ∷ []) rest)) [
        | inl e ↦
            rw (e, visit_expression_group)
              (weaken st rest _ (length-skip_whitespace st.rest)
                (visit_binary-Visits header inherited_key (at_rest st rest)))
        | inr (inside, e) ↦
            let less : length inside < length st.rest =
              omega (arith, length-skip_whitespace st.rest, consume-lt b'(' [] rest e) in
            rw (e, visit_expression_group)
              (bind-Ensures (IsQueryError header)
                (Visited header st.comparison_nodes (length inside)) Q
                (visit_or header inherited_key f (at_rest st inside)) _
                (ors (at_rest st inside) (omega (arith, less, enough)))
                λ (child, st1) v.
                  elim (Option-cases (consume (b')' ∷ []) (skip_whitespace st1.rest))) [
                    | inl c ↦ rw c (query_error-IsQueryError header)
                    | inr (after, c) ↦ rw c (record {
                      shorter = omega (
                        arith,
                        v.shorter,
                        less,
                        length-skip_whitespace st1.rest,
                        consume-lt b')' [] (skip_whitespace st1.rest) c,
                      );
                      tree = v.tree;
                      noting = group-Noting child st.comparison_nodes st1.comparison_nodes v.noting;
                    })
                  ])
      ]

  pub enough_fuel :
      (f : ℕ)
      → Total (visit_or header inherited_key) 3 f
        × Total (visit_and header inherited_key) 2 f
        × Total (visit_unary header inherited_key) 1 f
        × Total (visit_expression_group header inherited_key) 0 f
  unfolding visit_unary
  enough_fuel zero = (
    λ st h. absurd (omega (arith, h)),
    λ st h. absurd (omega (arith, h)),
    λ st h. absurd (omega (arith, h)),
    λ st h. absurd (omega (arith, h)),
  )
  enough_fuel (suc f) =
      let (ors, ands, unaries, groups) = enough_fuel f in
      (
        or_step f ors ands,
        and_step f ands unaries,
        λ st h. weaken st (skip_whitespace st.rest) _ (length-skip_whitespace st.rest) (
            groups (at_rest st (skip_whitespace st.rest))
              (omega (arith, h, length-skip_whitespace st.rest))),
        group_step f ors,
      )
