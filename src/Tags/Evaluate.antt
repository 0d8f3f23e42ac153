-- ===== src/Tags/Evaluate.antt =====
-- src/blob/persistence/QueryInterpreter/QueryNodes: the evaluation of a tag query's tree.
use azurite.Prelude.{
  Bool, true, false, not, ◌&&◌, ◌||◌, Option, none, some, List, [], ◌∷◌, ◌++◌, if◌then◌else◌, ltb,
  ◌==◌,
}
use azurite.Errors.{Result, ok, err, type_error, ◌>>=◌}
use azurite.Conditions.Model.{Text, text_eq}
use azurite.Tags.Model.{
  Operator, equals, greater_than_equal, less_than_equal, not_equals, greater_than, less_than,
  QueryNode, or_node, and_node, compare_node, expression_node, key_node, constant_node, TagValue,
  undefined, text, inherited, TagContent,
}

-- `<` on strings: by UTF-16 code units.
unfoldable pub text_lt : Text → Text → Bool
text_lt [] [] = false
text_lt [] (y ∷ ys) = true
text_lt (x ∷ xs) [] = false
text_lt (x ∷ xs) (y ∷ ys) = ltb x y || (x == y && text_lt xs ys)

-- `===`. Of two inherited values, which are one property of one object if their texts are the same.
unfoldable pub strict_eq : TagValue → TagValue → Bool
strict_eq undefined undefined = true
strict_eq (text s) (text t) = text_eq s t
strict_eq (inherited s) (inherited t) = text_eq s t
strict_eq _ _ = false

abbrev pub text_of : TagValue → Option Text
text_of undefined = none
text_of (text s) = some s
text_of (inherited s) = some s

-- The test of a comparison node; all but === want both values.
unfoldable pub compare : Operator → TagValue → TagValue → Bool
unfolding strict_eq text_lt
compare equals v w = strict_eq v w
compare operator v w = elim (text_of v) [
  | none ↦ false
  | some s ↦ elim (text_of w) [
    | none ↦ false
    | some t ↦ elim operator [
      | equals ↦ strict_eq v w
      | not_equals ↦ not (strict_eq v w)
      | greater_than_equal ↦ not (text_lt s t)
      | greater_than ↦ text_lt t s
      | less_than_equal ↦ not (text_lt t s)
      | less_than ↦ text_lt s t
    ]
  ]
]

-- `contents[0]`, of which a property is read.
abbrev pub head : List TagContent → Result TagContent
head [] = err type_error
head (c ∷ cs) = ok c

abbrev pub pick_side : Option Text → List TagContent → List TagContent → List TagContent
pick_side none left right = right
pick_side (some k) left right = left

abbrev pub is_nil {ℓ} : {A : Type ℓ} → List A → Bool
is_nil [] = true
is_nil (x ∷ xs) = false

unfoldable pub evaluate : (Text → TagValue) → QueryNode → Result (List TagContent)
unfolding compare
evaluate context (or_node left right) = do
  l ← evaluate context left
  r ← evaluate context right
  ok (if not (is_nil l) || not (is_nil r) then l ++ r else [])
evaluate context (and_node left right) = do
  l ← evaluate context left
  r ← evaluate context right
  ok (if not (is_nil l) && not (is_nil r) then l ++ r else [])
evaluate context (compare_node operator left right) = do
  l ← evaluate context left
  r ← evaluate context right
  v ← head l
  w ← head r
  ok (if compare operator v.value w.value then pick_side v.key l r else [])
evaluate context (expression_node child) = evaluate context child
evaluate context (key_node identifier) =
    ok (record { key = some identifier; value = context identifier } ∷ [])
evaluate context (constant_node value) = ok (record { key = none; value = text value } ∷ [])
