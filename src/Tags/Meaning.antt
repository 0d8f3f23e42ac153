-- ===== src/Tags/Meaning.antt =====
-- What a tag query means, and that the evaluation of its tree answers just that.
use azurite.Prelude.{
  ◌≡◌, ◌≢◌, ◌↔◌, ◌⊎◌, inl, inr, refl, Bool, true, false, not, ◌||◌, ◌&&◌, List, [], ◌∷◌, ◌++◌,
  arith, if◌then◌else◌,
}
use azurite.Errors.{Returns, bind-Returns}
use azurite.Conditions.Model.{Text}
use azurite.Conditions.Laws.{text_eq_iff}
use azurite.Tags.Model.{
  Operator, equals, greater_than_equal, less_than_equal, not_equals, greater_than, less_than,
  QueryNode, or_node, and_node, compare_node, expression_node, key_node, constant_node, TagValue,
  undefined, text, inherited, TagContent,
}
use azurite.Tags.Evaluate.{text_lt, strict_eq, compare, is_nil, evaluate}

-- The trees that the parser builds: a comparison has a key on its left and a constant on its right.
abbrev pub IsTree : QueryNode → Type 0
IsTree (or_node l r) = IsTree l × IsTree r
IsTree (and_node l r) = IsTree l × IsTree r
IsTree (compare_node operator (key_node k) (constant_node v)) = Unit
IsTree (compare_node operator l r) = ⊥
IsTree (expression_node c) = IsTree c
IsTree (key_node k) = Unit
IsTree (constant_node v) = ⊥

-- A value that has a text `s` with `test s`.
abbrev pub Texts : (Text → Bool) → TagValue → Type 0
Texts test undefined = ⊥
Texts test (text s) = test s ≡ true
Texts test (inherited s) = test s ≡ true

abbrev pub Satisfies : Operator → TagValue → Text → Type 0
Satisfies equals v t = v ≡ text t
Satisfies not_equals v t = (v ≢ undefined) × (v ≢ text t)
Satisfies less_than v t = Texts (λ s. text_lt s t) v
Satisfies greater_than v t = Texts (λ s. text_lt t s) v
Satisfies less_than_equal v t = Texts (λ s. not (text_lt t s)) v
Satisfies greater_than_equal v t = Texts (λ s. not (text_lt s t)) v

-- A name alone holds of every blob.
abbrev pub Holds : (Text → TagValue) → QueryNode → Type 0
Holds context (or_node l r) = Holds context l ⊎ Holds context r
Holds context (and_node l r) = Holds context l × Holds context r
Holds context (compare_node operator (key_node k) (constant_node t)) =
    Satisfies operator (context k) t
Holds context (compare_node operator l r) = ⊥
Holds context (expression_node c) = Holds context c
Holds context (key_node k) = Unit
Holds context (constant_node v) = Unit

compare-Satisfies :
    (operator : Operator) (v : TagValue) (t : Text)
    → (compare operator v (text t) ≡ true) ↔ Satisfies operator v t
unfolding compare strict_eq
compare-Satisfies equals undefined t = ground arith
compare-Satisfies equals (text s) t = ground (arith, text_eq_iff s t)
compare-Satisfies equals (inherited s) t = ground arith
compare-Satisfies not_equals undefined t = ground arith
compare-Satisfies not_equals (text s) t = ground (arith, text_eq_iff s t)
compare-Satisfies not_equals (inherited s) t = ground arith
compare-Satisfies less_than undefined t = ground arith
compare-Satisfies less_than (text s) t = ground arith
compare-Satisfies less_than (inherited s) t = ground arith
compare-Satisfies greater_than undefined t = ground arith
compare-Satisfies greater_than (text s) t = ground arith
compare-Satisfies greater_than (inherited s) t = ground arith
compare-Satisfies less_than_equal undefined t = ground arith
compare-Satisfies less_than_equal (text s) t = ground arith
compare-Satisfies less_than_equal (inherited s) t = ground arith
compare-Satisfies greater_than_equal undefined t = ground arith
compare-Satisfies greater_than_equal (text s) t = ground arith
compare-Satisfies greater_than_equal (inherited s) t = ground arith

-- The contents answer P: there are some exactly when P.
abbrev pub Answer : Type 0 → List TagContent → Type 0
Answer P cs = (is_nil cs ≡ false) ↔ P

or-Answer :
    {P Q : Type 0} (l r : List TagContent)
    → Answer P l
    → Answer Q r
    → Answer (P ⊎ Q) (if not (is_nil l) || not (is_nil r) then l ++ r else [])
or-Answer [] [] (p, p') (q, q') = (λ e. cc e, λ s. elim s [ inl x ↦ p' x | inr y ↦ q' y ])
or-Answer (x ∷ xs) r (p, p') (q, q') = (λ e. inl (p refl), λ s. refl)
or-Answer [] (y ∷ ys) (p, p') (q, q') = (λ e. inr (q refl), λ s. refl)

and-Answer :
    {P Q : Type 0} (l r : List TagContent)
    → Answer P l
    → Answer Q r
    → Answer (P × Q) (if not (is_nil l) && not (is_nil r) then l ++ r else [])
and-Answer [] r (p, p') (q, q') = (λ e. cc e, λ s. p' s.0)
and-Answer (x ∷ xs) [] (p, p') (q, q') = (λ e. cc e, λ s. q' s.1)
and-Answer (x ∷ xs) (y ∷ ys) (p, p') (q, q') = (λ e. (p refl, q refl), λ s. refl)

-- The evaluation of a parsed tree never throws, and its contents are not empty exactly when the
-- query holds of the tags.
pub evaluate-Holds :
    (context : Text → TagValue) (t : QueryNode)
    → IsTree t
    → Returns (Answer (Holds context t)) (evaluate context t)
unfolding evaluate
evaluate-Holds context (or_node l r) v =
    bind-Returns (Answer (Holds context l)) _ (evaluate context l) _ (evaluate-Holds context l v.0)
      λ a p.
        bind-Returns (Answer (Holds context r)) _ (evaluate context r) _
          (evaluate-Holds context r v.1) λ b q. or-Answer a b p q
evaluate-Holds context (and_node l r) v =
    bind-Returns (Answer (Holds context l)) _ (evaluate context l) _ (evaluate-Holds context l v.0)
      λ a p.
        bind-Returns (Answer (Holds context r)) _ (evaluate context r) _
          (evaluate-Holds context r v.1) λ b q. and-Answer a b p q
evaluate-Holds context (compare_node operator (key_node k) (constant_node t)) v =
    ground (arith, compare-Satisfies operator (context k) t)
evaluate-Holds context (compare_node operator (or_node _ _) _) v = elim v [ ]
evaluate-Holds context (compare_node operator (and_node _ _) _) v = elim v [ ]
evaluate-Holds context (compare_node operator (compare_node _ _ _) _) v = elim v [ ]
evaluate-Holds context (compare_node operator (expression_node _) _) v = elim v [ ]
evaluate-Holds context (compare_node operator (key_node k) (or_node _ _)) v = elim v [ ]
evaluate-Holds context (compare_node operator (key_node k) (and_node _ _)) v = elim v [ ]
evaluate-Holds context (compare_node operator (key_node k) (compare_node _ _ _)) v = elim v [ ]
evaluate-Holds context (compare_node operator (key_node k) (expression_node _)) v = elim v [ ]
evaluate-Holds context (compare_node operator (key_node k) (key_node _)) v = elim v [ ]
evaluate-Holds context (compare_node operator (constant_node _) _) v = elim v [ ]
evaluate-Holds context (expression_node c) v = evaluate-Holds context c v
evaluate-Holds context (key_node k) v = (λ e. tt, λ u. refl)
evaluate-Holds context (constant_node c) v = absurd v
