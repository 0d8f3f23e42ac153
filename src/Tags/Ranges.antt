-- ===== src/Tags/Ranges.antt =====
-- The comparisons that a where clause may make of one tag
-- (src/blob/persistence/QueryInterpreter/QueryParser.ts).
use azurite.Prelude.{
  ℕ, ◌+◌, ◌≡◌, refl, sym, ap, ◌∙◌, Bool, true, false, not, ◌&&◌, Option, none, some, List, [], ◌∷◌,
  ◌++◌, arith, if◌then◌else◌, ltb, defined, Bool-cases, inl, inr,
}
use mathlib.Core.List.{append_assoc, append-nil}
use azurite.Errors.{Error, ok, Ensures, throw_if, invalid_query_parameter_value, type_error, ◌>>◌}
use azurite.Conditions.Model.{Text, text_eq}
use azurite.Conditions.Laws.{text_eq_iff}
use azurite.Tags.Model.{QueryNode, or_node, and_node, compare_node, expression_node, key_node}
use azurite.Tags.Tokens.{container_key}
use azurite.Tags.Comparisons.{
  ComparisonType, equal, greater, less, not_equal, ComparisonNode, ParserState, existing,
  any_conflict, is_not_equal, push_comparison, validate_with_previous, append_comparison,
  record_comparison,
}
use azurite.Tags.Parser.{comparison_type}
use azurite.Tags.Consumed.{IsQueryError}

-- One equality, or at most one lower and one upper bound.
abbrev pub IsRange : List ComparisonType → Type 0
IsRange [] = Unit
IsRange (equal ∷ []) = Unit
IsRange (greater ∷ []) = Unit
IsRange (less ∷ []) = Unit
IsRange (greater ∷ less ∷ []) = Unit
IsRange (less ∷ greater ∷ []) = Unit
IsRange _ = ⊥

abbrev or_nil : Option (List ComparisonType) → List ComparisonType
or_nil none = []
or_nil (some es) = es

-- What the parser has noted of a tag.
abbrev pub noted : List ComparisonNode → Text → List ComparisonType
noted ns key = or_nil (existing ns key)

-- The comparisons of a tag in a tree, from left to right.
unfoldable pub comparisons : QueryNode → Text → List ComparisonType
comparisons (or_node l r) key = comparisons l key ++ comparisons r key
comparisons (and_node l r) key = comparisons l key ++ comparisons r key
comparisons (compare_node operator (key_node k) r) key =
    if text_eq k key then comparison_type operator ∷ [] else []
comparisons (compare_node operator l r) key = []
comparisons (expression_node c) key = comparisons c key
comparisons _ key = []

noted-push :
    (ns : List ComparisonNode) (key : Text) (c : ComparisonType) (k : Text)
    → noted (push_comparison ns key c) k ≡ noted ns k ++ (if text_eq key k then c ∷ [] else [])
unfolding push_comparison existing
noted-push [] key c k = ground arith
noted-push (n ∷ ns) key c k = ground (
  arith,
  noted-push ns key c k,
  text_eq_iff n.key key,
  text_eq_iff n.key k,
  text_eq_iff key k,
  append-nil n.existed_comparison,
  append-nil (noted ns k),
)

extend_range :
    (es : List ComparisonType) (c : ComparisonType)
    → IsRange es
    → any_conflict c es ≡ false
    → is_not_equal c ≡ false
    → IsRange (es ++ c ∷ [])
unfolding any_conflict
extend_range [] c v n q = ground arith
extend_range (equal ∷ []) c v n q = ground arith
extend_range (greater ∷ []) c v n q = ground arith
extend_range (less ∷ []) c v n q = ground arith
extend_range (not_equal ∷ []) c v n q = elim v [ ]
extend_range (equal ∷ e ∷ []) c v n q = elim v [ ]
extend_range (not_equal ∷ e ∷ []) c v n q = elim v [ ]
extend_range (greater ∷ equal ∷ []) c v n q = elim v [ ]
extend_range (greater ∷ greater ∷ []) c v n q = elim v [ ]
extend_range (greater ∷ not_equal ∷ []) c v n q = elim v [ ]
extend_range (greater ∷ less ∷ []) c v n q = ground arith
extend_range (less ∷ equal ∷ []) c v n q = elim v [ ]
extend_range (less ∷ less ∷ []) c v n q = elim v [ ]
extend_range (less ∷ not_equal ∷ []) c v n q = elim v [ ]
extend_range (less ∷ greater ∷ []) c v n q = ground arith
extend_range (_ ∷ _ ∷ _ ∷ _) c v n q = ground arith

abbrev pub AllRanges : List ComparisonNode → Type 0
AllRanges ns = (k : Text) → IsRange (noted ns k)

-- From `ns` to `ns'` the parser has noted just the comparisons `cs`, and none that does not make a
-- range with the others of its tag.
pub record Noted (cs : Text → List ComparisonType) (ns ns' : List ComparisonNode) : Type 0 where
  pub added : (k : Text) → noted ns' k ≡ noted ns k ++ cs k
  pub ranges : AllRanges ns → AllRanges ns'

pub Noted-nothing : (ns : List ComparisonNode) → Noted (λ k. []) ns ns
Noted-nothing ns = record { added = λ k. sym (append-nil (noted ns k)); ranges = λ v. v }

pub Noted-then :
    (cs ds : Text → List ComparisonType) (l m n : List ComparisonNode)
    → Noted cs l m
    → Noted ds m n
    → Noted (λ k. cs k ++ ds k) l n
Noted-then cs ds l m n p q = record {
  added =
      λ k. q.added k ∙ ap (λ es. es ++ ds k) (p.added k) ∙ append_assoc (noted l k) (cs k) (ds k);
  ranges = λ v. q.ranges (p.ranges v);
}

-- One comparison of the tag `key`.
abbrev pub only : Text → ComparisonType → Text → List ComparisonType
only key c k = if text_eq key k then c ∷ [] else []

module _ (inherited_key : Text → Bool) where
  push_range :
      (ns : List ComparisonNode) (key : Text) (c : ComparisonType) (k : Text)
      → is_not_equal c ≡ false
      → validate_with_previous false inherited_key ns key c ≡ ok tt
      → IsRange (noted ns k)
      → IsRange (noted (push_comparison ns key c) k)
  unfolding validate_with_previous any_conflict
  push_range ns key c k n e v = elim (Bool-cases (text_eq key k)) [
    | inl h ↦
        let h' : key ≡ k = (text_eq_iff key k).0 h in
        rw (noted-push ns key c k, h) (extend_range (noted ns k) c v (rw (← h') (ground arith)) n)
    | inr h ↦ rw (noted-push ns key c k, h, append-nil (noted ns k)) v
  ]

  push-Noted :
      (ns : List ComparisonNode) (key : Text) (c : ComparisonType)
      → is_not_equal c ≡ false
      → validate_with_previous false inherited_key ns key c ≡ ok tt
      → Noted (only key c) ns (push_comparison ns key c)
  push-Noted ns key c n e = record {
    added = λ k. noted-push ns key c k;
    ranges = λ v k. push_range ns key c k n e (v k);
  }

  -- What recording a comparison does to a state.
  abbrev pub Recorded : Bool → ParserState → Text → ComparisonType → ParserState → Type 0
  Recorded true st key c st' = Unit
  Recorded false st key c st' =
      is_not_equal c ≡ false → Noted (only key c) st.comparison_nodes st'.comparison_nodes

  validate-Ensures :
      (header : Bool) (ns : List ComparisonNode) (key : Text) (c : ComparisonType)
      → Ensures
          (IsQueryError header)
          (λ _. Unit {0})
          (validate_with_previous header inherited_key ns key c)
  unfolding validate_with_previous
  validate-Ensures true ns key c = tt
  validate-Ensures false ns key c = ground arith

  two_checks :
      (E : Error → Type 0) (P : ParserState → Type 0) (b d : Bool) (e f : Error) (st : ParserState)
      → E e
      → E f
      → P st
      → Ensures E P (do throw_if b e; throw_if d f; ok st)
  two_checks E P true d e f st h k p = h
  two_checks E P false true e f st h k p = k
  two_checks E P false false e f st h k p = p

  append-Ensures :
      (header : Bool) (st : ParserState) (key : Text) (c : ComparisonType)
      → validate_with_previous header inherited_key st.comparison_nodes key c ≡ ok tt
      → Ensures
          (IsQueryError header)
          (λ st'. (st'.rest ≡ st.rest) × Recorded header st key c st')
          (append_comparison header inherited_key st key c)
  unfolding append_comparison
  append-Ensures true st key c e = (refl, tt)
  append-Ensures false st key c e =
      let known = defined (existing st.comparison_nodes key) in
      let count : ℕ =
        if not (text_eq key container_key) && not known
        then st.comparison_count + 1
        else st.comparison_count in
      two_checks (IsQueryError false) (λ st'. (st'.rest ≡ st.rest) × Recorded false st key c st')
        (ltb 10 count) (not known && inherited_key key) invalid_query_parameter_value type_error
        (record st {
          comparison_nodes = push_comparison st.comparison_nodes key c;
          comparison_count = count;
        })
        tt tt (refl, λ q. push-Noted st.comparison_nodes key c q e)

  pub record_comparison-Ensures :
      (header : Bool) (st : ParserState) (key : Text) (c : ComparisonType)
      → Ensures
          (IsQueryError header)
          (λ st'. (st'.rest ≡ st.rest) × Recorded header st key c st')
          (record_comparison header inherited_key st key c)
  unfolding record_comparison
  record_comparison-Ensures header st key c =
      ground
        (arith, validate-Ensures header st.comparison_nodes key c, append-Ensures header st key c)
