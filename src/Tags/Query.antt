-- ===== src/Tags/Query.antt =====
-- src/blob/persistence/QueryInterpreter/QueryInterpreter.ts: a where clause or an x-ms-if-tags
-- condition, from its text to its answer on a blob.
use azurite.Prelude.{
  ℕ, ◌==◌, ◌&&◌, Bool, not, Option, none, some, List, [], ◌∷◌, if◌then◌else◌, defined,
}
use azurite.Errors.{Result, ok, throw_if, ◌>>=◌, ◌>>◌}
use azurite.Conditions.Model.{Text, text_eq}
use azurite.Tags.Model.{
  QueryNode, or_node, and_node, compare_node, expression_node, TagValue, undefined, text, inherited,
  TagContent,
}
use azurite.Tags.Tokens.{query_error, container_key}
use azurite.Tags.Parser.{parse_query}
use azurite.Tags.Evaluate.{evaluate, is_nil}

-- What executeQuery reads of a blob; a tag set in JSON counts as the tags that it names.
pub record FilterBlob : Type 0 where
  pub container_name : Option Text
  pub tags : Option (List (Text × Text))

-- "__proto__", which a string cannot be assigned to.
abbrev pub proto_key : Text
proto_key = b'_' ∷ b'_' ∷ b'p' ∷ b'r' ∷ b'o' ∷ b't' ∷ b'o' ∷ b'_' ∷ b'_' ∷ []

-- The last assignment of the loop over blobTagSet to `key`, over what `key` was before.
unfoldable pub assigned : TagValue → List (Text × Text) → Text → TagValue
assigned before [] key = before
assigned before ((k, v) ∷ tags) key =
    assigned (if text_eq k key && not (text_eq k proto_key) then text v else before) tags key

-- `inherited_text` is what Object.prototype has, as texts.
abbrev pub unset : (Text → Option Text) → Text → TagValue
unset inherited_text key = elim (inherited_text key) [ none ↦ undefined | some s ↦ inherited s ]

abbrev pub tag_set : Option (List (Text × Text)) → List (Text × Text)
tag_set none = []
tag_set (some tags) = tags

abbrev pub name_value : Option Text → TagValue
name_value none = undefined
name_value (some s) = text s

-- The object `tags` of executeQuery.
unfoldable pub tag_context : (Text → Option Text) → FilterBlob → Text → TagValue
unfolding assigned
tag_context inherited_text blob key =
    if text_eq key container_key
    then name_value blob.container_name
    else assigned (unset inherited_text key) (tag_set blob.tags) key

unfoldable pub count_identifier_references : QueryNode → ℕ
count_identifier_references (or_node left right) = 1
count_identifier_references (and_node left right) = 1
count_identifier_references (compare_node operator left right) = 1
count_identifier_references (expression_node child) = count_identifier_references child
count_identifier_references _ = 0

module _ (inherited_text : Text → Option Text) (header : Bool) where
  unfoldable pub checked_tree : Text → Result QueryNode
  checked_tree query = do
    tree ← parse_query header (λ key. defined (inherited_text key)) query
    throw_if (count_identifier_references tree == 0) (query_error header)
    ok tree

  -- generateQueryBlobWithTagsWhereFunction and the function that it returns, on one blob.
  unfoldable pub query_blob : Option Text → FilterBlob → Result (List TagContent)
  unfolding checked_tree tag_context
  query_blob none blob = ok []
  query_blob (some query) blob = do
    tree ← checked_tree query
    evaluate (tag_context inherited_text blob) tree

  -- `validateFunction(resource.blobItemWithTags).length !== 0`
  unfoldable pub query_matches : FilterBlob → Text → Result Bool
  unfolding query_blob
  query_matches blob query = do contents ← query_blob (some query) blob; ok (not (is_nil contents))
