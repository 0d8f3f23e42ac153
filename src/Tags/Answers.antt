-- ===== src/Tags/Answers.antt =====
-- A whole query of src/blob/persistence/QueryInterpreter/QueryInterpreter.ts: it is parsed, and its
-- tree is evaluated on a blob.
use azurite.Prelude.{◌≡◌, ◌↔◌, refl, Bool, true, not, ◌==◌, Option, List, arith, defined}
use azurite.Errors.{
  Result, ok, err, Ensures, bind-Ensures, throw_if-Ensures, Answers, Returns, invalid_header_value,
}
use azurite.Conditions.Model.{Text}
use azurite.Lease.Stored.{IsQuery}
use azurite.Tags.Model.{QueryNode, TagContent}
use azurite.Tags.Tokens.{query_error}
use azurite.Tags.Parser.{parse_query}
use azurite.Tags.Evaluate.{evaluate, is_nil}
use azurite.Tags.Query.{
  FilterBlob, tag_context, count_identifier_references, checked_tree, query_matches, query_blob,
}
use azurite.Tags.Meaning.{IsTree, Holds, Answer, evaluate-Holds}
use azurite.Tags.Consumed.{IsQueryError, query_error-IsQueryError}
use azurite.Tags.Sound.{parse_query-Ensures}

module _ (inherited_text : Text → Option Text) (header : Bool) where
  -- The tree that a query has been parsed to.
  abbrev IsTreeOf : Text → QueryNode → Type 0
  IsTreeOf query t =
      (parse_query header (λ key. defined (inherited_text key)) query ≡ ok t) × IsTree t

  kept_tree :
      (query : Text) (r : Result QueryNode)
      → parse_query header (λ key. defined (inherited_text key)) query ≡ r
      → Ensures (IsQueryError header) IsTree r
      → Ensures (IsQueryError header) (IsTreeOf query) r
  kept_tree query (ok t) e v = (e, v)
  kept_tree query (err x) e v = v

  pub checked_tree-Ensures :
      (query : Text)
      → Ensures (IsQueryError header) (IsTreeOf query) (checked_tree inherited_text header query)
  unfolding checked_tree
  checked_tree-Ensures query =
      bind-Ensures (IsQueryError header) (IsTreeOf query) (IsTreeOf query)
        (parse_query header (λ key. defined (inherited_text key)) query) _
        (kept_tree query _ refl
          (parse_query-Ensures header (λ key. defined (inherited_text key)) query))
        λ t p.
          throw_if-Ensures (IsQueryError header) (IsTreeOf query)
            (count_identifier_references t == 0) (query_error header) (ok t)
            (query_error-IsQueryError header) p

  -- The query parses to a tree that holds of a blob's tags just when the contents are not empty.
  abbrev IsFoundBy : FilterBlob → Text → List TagContent → Type 0
  IsFoundBy blob query cs =
      (t : QueryNode) × (parse_query header (λ key. defined (inherited_text key)) query ≡ ok t)
      × Answer (Holds (tag_context inherited_text blob) t) cs

  -- The query parses to a tree, and the blob is found exactly when the tree holds of its tags.
  abbrev pub Decides : FilterBlob → Text → Bool → Type 0
  Decides blob query b =
      (t : QueryNode) × (parse_query header (λ key. defined (inherited_text key)) query ≡ ok t)
      × ((b ≡ true) ↔ Holds (tag_context inherited_text blob) t)

  found :
      (blob : FilterBlob) (query : Text) (t : QueryNode)
      → parse_query header (λ key. defined (inherited_text key)) query ≡ ok t
      → (r : Result (List TagContent))
      → Returns (Answer (Holds (tag_context inherited_text blob) t)) r
      → Ensures (IsQueryError header) (IsFoundBy blob query) r
  found blob query t e (ok cs) a = (t, e, a)
  found blob query t e (err x) a = absurd a

  decided :
      (blob : FilterBlob) (query : Text) (cs : List TagContent)
      → IsFoundBy blob query cs
      → Decides blob query (not (is_nil cs))
  decided blob query cs (t, e, a) = (t, e, (ground (arith, a)))

  -- A query on a blob fails as a query may, or it parses to a tree and finds the blob exactly when
  -- the tree holds of the blob's tags and container.
  pub query_matches-Decides :
      (blob : FilterBlob) (query : Text)
      → Ensures
          (IsQueryError header)
          (Decides blob query)
          (query_matches inherited_text header blob query)
  unfolding query_matches query_blob
  query_matches-Decides blob query =
      bind-Ensures (IsQueryError header) (IsFoundBy blob query) (Decides blob query) _ _
        (bind-Ensures (IsQueryError header) (IsTreeOf query) (IsFoundBy blob query)
          (checked_tree inherited_text header query) _ (checked_tree-Ensures query)
          λ t p.
            found blob query t p.0 (evaluate (tag_context inherited_text blob) t)
              (evaluate-Holds (tag_context inherited_text blob) t p.1))
        λ cs p. decided blob query cs p

header-Answers :
    (P : Bool → Type 0) (r : Result Bool)
    → Ensures (IsQueryError true) P r
    → Answers (λ _. Unit {0}) r
header-Answers P (ok b) p = tt
header-Answers P (err invalid_header_value) p = tt
header-Answers P (err e) p = absurd p

-- Condition headers fail with errors of the protocol only, as the lease operations expect.
pub query_matches-IsQuery :
    (inherited_text : Text → Option Text) (blob : FilterBlob)
    → IsQuery (query_matches inherited_text true blob)
query_matches-IsQuery inherited_text blob query =
    header-Answers (Decides inherited_text true blob query) _
      (query_matches-Decides inherited_text true blob query)
