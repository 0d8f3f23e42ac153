-- ===== src/Conditions/Laws.antt =====
-- When the validators of src/blob/conditions let a request pass.
use azurite.Prelude.{
  ℕ, ◌≤◌, ◌<◌, ◌≡◌, ◌↔◌, ◌⊎◌, inl, inr, refl, Bool, true, false, not, ◌&&◌, ◌||◌, Option, none,
  some, List, [], ◌∷◌, arith, defined, Bool-cases,
}
use azurite.Dates.{Date, before, not_before}
use azurite.Errors.{Result, ok, err, condition_not_met}
use azurite.Conditions.Model.{Text, text_eq, includes, ConditionalHeaders, ConditionResource}
use azurite.Conditions.Read.{nonempty, first_is_star, starred, check_tags, read_validate}
use azurite.Conditions.Write.{
  several, validate_combinations, write_validate, SequenceNumberAccessConditions,
  validate_sequence_number,
}

pub text_eq_iff : (s t : Text) → (text_eq s t ≡ true) ↔ (s ≡ t)
unfolding text_eq
text_eq_iff [] [] = ground arith
text_eq_iff [] (y ∷ ys) = ground arith
text_eq_iff (x ∷ xs) [] = ground arith
text_eq_iff (x ∷ xs) (y ∷ ys) = ground (arith, text_eq_iff xs ys)

-- The etag stands in the list.
abbrev pub Listed : Text → List Text → Type 0
Listed t [] = ⊥
Listed t (x ∷ xs) = (x ≡ t) ⊎ Listed t xs

includes_iff : (ts : List Text) (t : Text) → (includes ts t ≡ true) ↔ Listed t ts
unfolding includes
includes_iff [] t = ground arith
includes_iff (x ∷ xs) t = ground (arith, includes_iff xs t, text_eq_iff x t)

-- If-Match: absent, "*" in front, or the etag is listed.
abbrev pub Matches : Option (List Text) → Text → Type 0
Matches none etag = Unit
Matches (some ts) etag = Listed etag ts ⊎ (first_is_star ts ≡ true)

-- If-Unmodified-Since: absent, or the resource is not newer.
abbrev pub Unmodified : Option Date → Date → Type 0
Unmodified none modified = Unit
Unmodified (some d) modified = not_before d modified ≡ true

-- If-None-Match and If-Modified-Since: both absent, or one of them holds.
abbrev pub Fresh : Option (List Text) → Option Date → ConditionResource → Type 0
Fresh none none r = Unit
Fresh (some ts) none r = ¬ (Listed r.etag ts)
Fresh none (some d) r = before d r.last_modified ≡ true
Fresh (some ts) (some d) r = (¬ (Listed r.etag ts)) ⊎ (before d r.last_modified ≡ true)

-- The conditions as tests.
abbrev PassesMatch : Option (List Text) → Text → Type 0
PassesMatch none etag = Unit
PassesMatch (some ts) etag = includes ts etag || first_is_star ts ≡ true

abbrev PassesNone : Option (List Text) → Option Date → ConditionResource → Type 0
PassesNone none none r = Unit
PassesNone (some ts) none r = includes ts r.etag ≡ false
PassesNone none (some d) r = before d r.last_modified ≡ true
PassesNone (some ts) (some d) r = not (includes ts r.etag) || before d r.last_modified ≡ true

false_iff : (ts : List Text) (t : Text) → (includes ts t ≡ false) ↔ (¬ (Listed t ts))
false_iff ts t = (
  λ e l. cc (e, (includes_iff ts t).1 l),
  λ n. elim (Bool-cases (includes ts t)) [
    | inl y ↦ absurd (n ((includes_iff ts t).0 y))
    | inr z ↦ z
  ],
)

PassesMatch-Matches : (o : Option (List Text)) (t : Text) → PassesMatch o t ↔ Matches o t
PassesMatch-Matches none t = (λ u. u, λ u. u)
PassesMatch-Matches (some ts) t = ground (arith, includes_iff ts t)

or_iff : {N : Type 0} (b c : Bool) → (b ≡ false) ↔ N → (not b || c ≡ true) ↔ (N ⊎ (c ≡ true))
or_iff true c f = (λ e. inr e, λ s. elim s [ inl n ↦ cc (f.1 n) | inr e ↦ e ])
or_iff false c f = (λ e. inl (f.0 refl), λ s. refl)

PassesNone-Fresh :
    (o : Option (List Text)) (d : Option Date) (r : ConditionResource)
    → PassesNone o d r ↔ Fresh o d r
PassesNone-Fresh none none r = (λ u. u, λ u. u)
PassesNone-Fresh (some ts) none r = false_iff ts r.etag
PassesNone-Fresh none (some d) r = (λ u. u, λ u. u)
PassesNone-Fresh (some ts) (some d) r =
    or_iff (includes ts r.etag) (before d r.last_modified) (false_iff ts r.etag)

module _ (tags_match : Text → Result Bool) (h : ConditionalHeaders) (r : ConditionResource) where
  read_tests :
      r.exist ≡ true
      → (read_validate tags_match h r ≡ ok tt) ↔ (
          PassesMatch h.if_match r.etag
          × Unmodified h.if_unmodified_since r.last_modified
          × PassesNone h.if_none_match h.if_modified_since r
          × (starred h.if_none_match ≡ false)
          × (check_tags tags_match h.if_tags ≡ ok tt))
  unfolding read_validate
  read_tests e = ground arith

  -- A read of a resource that exists passes exactly when If-Match and If-Unmodified-Since hold,
  -- those that are given; If-None-Match or If-Modified-Since holds, if one of the two is given;
  -- If-None-Match does not begin with "*"; and the tag check passes.
  pub read_validate_iff :
      r.exist ≡ true
      → (read_validate tags_match h r ≡ ok tt) ↔ (
          Matches h.if_match r.etag
          × Unmodified h.if_unmodified_since r.last_modified
          × Fresh h.if_none_match h.if_modified_since r
          × (starred h.if_none_match ≡ false)
          × (check_tags tags_match h.if_tags ≡ ok tt))
  read_validate_iff e =
      let (to, from) = read_tests e in
      let (m, m') = PassesMatch-Matches h.if_match r.etag in
      let (f, f') = PassesNone-Fresh h.if_none_match h.if_modified_since r in
      (
        λ p. let t = to p in (m t.0, t.1, f t.2, t.3, t.4),
        λ t. from (m' t.0, t.1, f' t.2, t.3, t.4),
      )

-- The headers of a write are accepted together exactly when each etag list has at most one etag,
-- and no header of If-Match and If-Unmodified-Since comes with one of If-None-Match and
-- If-Modified-Since.
pub validate_combinations_iff :
    (h : ConditionalHeaders)
    → (validate_combinations h ≡ ok tt) ↔ (
        (several h.if_match ≡ false)
        × (several h.if_none_match ≡ false)
        × ((nonempty h.if_match || defined h.if_unmodified_since)
              && (nonempty h.if_none_match || defined h.if_modified_since)
            ≡ false))
unfolding validate_combinations
validate_combinations_iff h = ground arith

module _ (tags_match : Text → Result Bool) (h : ConditionalHeaders) (r : ConditionResource) where
  -- Optimistic concurrency: if a write whose header If-Match lists the one etag e, which is not
  -- "*", passes, then the resource exists and its etag is e.
  pub write_validate-if_match :
      (e : Text)
      → h.if_match ≡ some (e ∷ [])
      → text_eq e (b'*' ∷ []) ≡ false
      → write_validate tags_match h r ≡ ok tt
      → (r.exist ≡ true) × (r.etag ≡ e)
  unfolding write_validate
  write_validate-if_match e m n p = ground (arith, text_eq_iff e r.etag)

  -- A write on an existing resource, whose If-None-Match lists one etag e, not "*", and that gives
  -- neither an etag in If-Match nor If-Unmodified-Since, is refused with ConditionNotMet exactly
  -- when the resource's etag is e.
  pub write_validate-if_none_match :
      (e : Text)
      → h.if_none_match ≡ some (e ∷ [])
      → text_eq e (b'*' ∷ []) ≡ false
      → nonempty h.if_match ≡ false
      → h.if_unmodified_since ≡ none
      → r.exist ≡ true
      → (write_validate tags_match h r ≡ err condition_not_met) ↔ (r.etag ≡ e)
  unfolding write_validate
  write_validate-if_none_match e m n f u x = ground (arith, text_eq_iff e r.etag)

  -- The validator answers a write that gives one of the four headers If-Match,
  -- If-Unmodified-Since, If-None-Match and If-Modified-Since in the same way whatever the tag
  -- query finds.
  pub write_validate-tags :
      (other : Text → Result Bool)
      → nonempty h.if_match
          || defined h.if_unmodified_since
          || (nonempty h.if_none_match || defined h.if_modified_since)
        ≡ true
      → write_validate tags_match h r ≡ write_validate other h r
  unfolding write_validate
  write_validate-tags other p = ground arith

abbrev pub AtMost : ℕ → Option ℕ → Type 0
AtMost n none = Unit
AtMost n (some k) = n ≤ k

abbrev pub Less : ℕ → Option ℕ → Type 0
Less n none = Unit
Less n (some k) = n < k

abbrev pub Equals : ℕ → Option ℕ → Type 0
Equals n none = Unit
Equals n (some k) = n ≡ k

-- On a blob with a sequence number the sequence number conditions pass exactly when each that is
-- given holds of the number.
pub validate_sequence_number_iff :
    (c : SequenceNumberAccessConditions) (n : ℕ)
    → (validate_sequence_number (some c) (some (some n)) ≡ ok tt) ↔ (
        AtMost n c.if_sequence_number_less_than_or_equal_to
        × Less n c.if_sequence_number_less_than
        × Equals n c.if_sequence_number_equal_to)
unfolding validate_sequence_number
validate_sequence_number_iff c n = ground arith
