-- ===== src/Tags/Sound.antt =====
-- The parser of src/blob/persistence/QueryInterpreter/QueryParser.ts on every query: it ends, fails as
-- a query may fail, and builds a tree of comparisons of a tag with a text.
use azurite.Prelude.{◌+◌, ◌*◌, ◌≡◌, refl, Bool, true, false, not, List, [], arith, length, ◌==◌}
use mathlib.Core.Path.{subst}
use azurite.Errors.{Error, Result, ok, err, Ensures, bind-Ensures, throw_if-Ensures}
use azurite.Conditions.Model.{Text}
use azurite.Tags.Model.{QueryNode}
use azurite.Tags.Scanner.{skip_whitespace}
use azurite.Tags.Tokens.{query_error}
use azurite.Tags.Comparisons.{ComparisonNode, ParserState, existing}
use azurite.Tags.Parser.{visit_or, parse_query}
use azurite.Tags.Meaning.{IsTree}
use azurite.Tags.Consumed.{IsQueryError, query_error-IsQueryError}
use azurite.Tags.Ranges.{IsRange, comparisons}
use azurite.Tags.Visits.{IsConjunction, Noting, Visited}
use azurite.Tags.Enough.{enough_fuel}

parsed_ranges :
    (header : Bool) (t : QueryNode) (ns : List ComparisonNode)
    → Noting header t [] ns
    → header ≡ false
    → IsConjunction t × ((k : Text) → IsRange (comparisons t k))
unfolding existing
parsed_ranges true t ns v e = cc e
parsed_ranges false t ns v e = (v.0, λ k. subst IsRange (v.1.added k) (v.1.ranges (λ k'. tt) k))

-- What the parser gives.
abbrev IsParsed : Bool → QueryNode → Type 0
IsParsed header t =
    IsTree t × (header ≡ false → IsConjunction t × ((k : Text) → IsRange (comparisons t k)))

query_outcome :
    (header : Bool) (inherited_key : Text → Bool) (query : Text)
    → Ensures (IsQueryError header) (IsParsed header) (parse_query header inherited_key query)
unfolding parse_query
query_outcome header inherited_key query =
    let start : ParserState = record {
      rest = query;
      comparison_nodes = [];
      comparison_count = 0;
    } in
    bind-Ensures (IsQueryError header) (Visited header [] (length query)) _
      (visit_or header inherited_key (4 * length query + 4) start) _
      ((enough_fuel header inherited_key (4 * length query + 4)).0 start (omega arith))
      λ (t, st) v.
        throw_if-Ensures (IsQueryError header) (IsParsed header)
          (not (length (skip_whitespace st.rest) == 0)) (query_error header) (ok t)
          (query_error-IsQueryError header)
          (v.tree, parsed_ranges header t st.comparison_nodes v.noting)

weaken-Ensures :
    (E : Error → Type 0) (P Q : QueryNode → Type 0) (r : Result QueryNode)
    → ((t : QueryNode) → P t → Q t)
    → Ensures E P r
    → Ensures E Q r
weaken-Ensures E P Q (ok t) h p = h t p
weaken-Ensures E P Q (err e) h p = p

-- Whatever the query, in a condition header or in a where clause, parsing it ends: it fails in no
-- other way than a query may, or gives a tree in which every comparison is of a tag with a text.
pub parse_query-Ensures :
    (header : Bool) (inherited_key : Text → Bool) (query : Text)
    → Ensures (IsQueryError header) IsTree (parse_query header inherited_key query)
parse_query-Ensures header inherited_key query =
    weaken-Ensures (IsQueryError header) (IsParsed header) IsTree _ (λ t p. p.0)
      (query_outcome header inherited_key query)

-- Parsing a where clause fails as a query may, or gives a tree without or and without <> that
-- compares a tag at most once for equality, and if it does not, at most once from below and at most
-- once from above.
pub where_clause-Ensures :
    (inherited_key : Text → Bool) (query : Text)
    → Ensures
        (IsQueryError false)
        (λ t. IsConjunction t × ((k : Text) → IsRange (comparisons t k)))
        (parse_query false inherited_key query)
where_clause-Ensures inherited_key query =
    weaken-Ensures (IsQueryError false) (IsParsed false)
      (λ t. IsConjunction t × ((k : Text) → IsRange (comparisons t k))) _ (λ t p. p.1 refl)
      (query_outcome false inherited_key query)
