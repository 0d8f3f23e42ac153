-- ===== src/Listing/Adds.antt =====
-- What a call of add does to a page of src/blob/persistence/PageWithDelimiter.ts.
use azurite.Prelude.{
  ℕ, ◌+◌, ◌≤◌, ◌≡◌, refl, sym, ap, ◌∙◌, ◌⊎◌, inl, inr, false, Option, none, some, List, [], ◌∷◌,
  ◌++◌, arith, if◌then◌else◌, ◌==◌, length, Bool-cases, Option-cases,
}
use mathlib.Core.Path.{subst}
use mathlib.Core.List.{append-nil}
use azurite.Errors.{ok, Returns, plain_error, throw_if, ◌>>◌}
use azurite.Conditions.Model.{Text, includes}
use azurite.Tags.Evaluate.{text_lt}
use azurite.Listing.Page.{
  Page, group, set_add, update_full, push_item, add_item, add_prefix, place, mark, placed, add,
}
use azurite.Prelude.{length-snoc}
use azurite.Listing.Order.{text_lt_antisym, last_name, last_name-append}
use azurite.Listing.Shows.{
  group_of, count, items_of, prefixes_from, items_of-snoc, prefixes_from-snoc, Shows, Added, took,
  refused,
}

module _ {A : Type 0} (delimiter : Option Text) (start : ℕ) (name : A → Text) where
  module _ (max : ℕ) (seen : List A) (p : Page A) (x : A)
      (v : Shows delimiter start name max seen p) (m : Text)
      (last : m ≡ last_name name [] (seen ++ x ∷ [])) where
    at_limit :
        (q : Page A)
        → (q.is_full ≡ (count delimiter start name q == max))
        → (q.is_full ≡ false) ⊎ (count delimiter start name q ≡ max)
    at_limit q e = elim (Bool-cases q.is_full) [
      | inl h ↦ inr (ground (arith, e, h))
      | inr h ↦ inl h
    ]

    kept :
        (q : Page A)
        → q.delimiter ≡ p.delimiter
        → q.prefix_length ≡ p.prefix_length
        → q.max_results ≡ p.max_results
        → (ys : List A) → q.blob_items ≡ items_of delimiter start name ys
        → q.blob_prefixes ≡ prefixes_from delimiter start name [] ys
        → q.latest_marker ≡ last_name name [] ys
        → count delimiter start name q ≤ max
        → q.is_full ≡ (count delimiter start name q == q.max_results)
        → (q.is_exhausted ≡ false) ⊎ (count delimiter start name q ≡ max)
        → Shows delimiter start name max ys q
    kept q d l n ys i g t f u e = record {
      delimiter_kept = d ∙ v.delimiter_kept;
      prefix_kept = l ∙ v.prefix_kept;
      max_kept = n ∙ v.max_kept;
      items = i;
      prefixes = g;
      marker = t;
      few = f;
      full = u ∙ ap (λ k. count delimiter start name q == k) (n ∙ v.max_kept);
      exhausted = e;
    }

    push_item-Added :
        group_of delimiter start name x ≡ none
        → Added delimiter start name max seen x (mark m (push_item p x))
    push_item-Added g = elim (Bool-cases p.is_full) [
      | inl h ↦
          let is_at : count delimiter start name p ≡ max = ground (arith, v.full, h) in
          rw h (
            refused (kept _ refl refl refl seen v.items v.prefixes v.marker v.few refl (inr is_at))
              (ground (arith, is_at, v.max_kept)))
      | inr h ↦
          let q : Page A = update_full (record p { blob_items = p.blob_items ++ x ∷ [] }) in
          let e : q.is_full ≡ (count delimiter start name q == max) =
            ap (λ n. count delimiter start name q == n) v.max_kept in
          rw h (
            took (
              kept _ refl refl refl (seen ++ x ∷ [])
                (rw (items_of-snoc delimiter start name seen x, g) (ap (λ l. l ++ x ∷ []) v.items))
                (rw (prefixes_from-snoc delimiter start name [] seen x, g) v.prefixes) last
                (ground (arith, v.few, v.full, h, length-snoc p.blob_items x)) refl (at_limit q e)))
    ]

    no_item :
        (g : Text)
        → group_of delimiter start name x ≡ some g
        → p.blob_items ≡ items_of delimiter start name (seen ++ x ∷ [])
    no_item g e =
        rw
          (
            items_of-snoc delimiter start name seen x,
            e,
            append-nil (items_of delimiter start name seen),
          )
          v.items

    one_prefix :
        (g : Text)
        → group_of delimiter start name x ≡ some g
        → set_add p.blob_prefixes g ≡ prefixes_from delimiter start name [] (seen ++ x ∷ [])
    one_prefix g e =
        rw (prefixes_from-snoc delimiter start name [] seen x, e)
          (ap (λ gs. set_add gs g) v.prefixes)

    length-set_add : (gs : List Text) (g : Text) → length (set_add gs g) ≤ length gs + 1
    length-set_add gs g = ground (arith, length-snoc gs g)

    add_prefix-Added :
        (g : Text)
        → group_of delimiter start name x ≡ some g
        → p.is_exhausted ≡ false
        → Added delimiter start name max seen x (mark m (add_prefix p g))
    unfolding add_prefix
    add_prefix-Added g e h = elim (Bool-cases p.is_full) [
      | inl f ↦
          let is_at : count delimiter start name p ≡ max = ground (arith, v.full, f) in
          elim (Bool-cases (includes p.blob_prefixes g)) [
            | inl i ↦
                let same : p.blob_prefixes
                    ≡ prefixes_from delimiter start name [] (seen ++ x ∷ []) =
                  rw (← one_prefix g e, i) refl in
                rw (add_prefix, h, f, i)
                  (took (
                    kept _ refl refl refl (seen ++ x ∷ []) (no_item g e) same last v.few refl
                      (inl refl)))
            | inr i ↦
                rw (add_prefix, h, f, i)
                  (refused
                    (kept _ refl refl refl seen v.items v.prefixes v.marker v.few refl (inr is_at))
                    refl)
          ]
      | inr f ↦
          rw (add_prefix, h, f)
            (took (
              kept _ refl refl refl (seen ++ x ∷ []) (no_item g e) (one_prefix g e) last
                (ground (arith, v.few, v.full, f, length-set_add p.blob_prefixes g)) refl
                (inl refl)))
    ]

  next_marker :
      (before after : Text)
      → text_lt after before ≡ false
      → (if text_lt before after then after else before) ≡ after
  next_marker before after h = elim (Bool-cases (text_lt before after)) [
    | inl e ↦ rw e refl
    | inr e ↦ rw e (text_lt_antisym before after e h)
  ]

  add_item-lem : (p : Page A) (x : A) → p.is_exhausted ≡ false → add_item p x ≡ push_item p x
  unfolding add_item
  add_item-lem p x h = ap (λ b. if b then (false, p) else push_item p x) h

  add-lem :
      (p : Page A) (x : A)
      → p.is_exhausted ≡ false
      → text_lt (name x) p.latest_marker ≡ false
      → add p (name x) x ≡ ok (placed p (name x) x)
  unfolding add
  add-lem p x h sorted =
      ap
        (λ b.
          if b
          then ok (false, p)
          else (throw_if (text_lt (name x) p.latest_marker) plain_error
              >> ok (placed p (name x) x)))
        h
      ∙ ap (λ b. throw_if b plain_error >> ok (placed p (name x) x)) sorted

  place-Added :
      (max : ℕ) (seen : List A) (p : Page A) (x : A)
      → Shows delimiter start name max seen p
      → p.is_exhausted ≡ false
      → (m : Text) → m ≡ last_name name [] (seen ++ x ∷ [])
      → (group_of delimiter start name x ≡ none)
        ⊎ ((g : Text) × (group_of delimiter start name x ≡ some g))
      → Added delimiter start name max seen x (mark m (place p (group_of delimiter start name x) x))
  place-Added max seen p x v h m last (inl e) = rw e (
      subst (λ r. Added delimiter start name max seen x (mark m r)) (sym (add_item-lem p x h))
        (push_item-Added max seen p x v m last e))
  place-Added max seen p x v h m last (inr (g, e)) =
      rw e (add_prefix-Added max seen p x v m last g e h)

  add_free-Added :
      (max : ℕ) (seen : List A) (p : Page A) (x : A)
      → Shows delimiter start name max seen p
      → p.is_exhausted ≡ false
      → text_lt (name x) p.latest_marker ≡ false
      → Returns (Added delimiter start name max seen x) (add p (name x) x)
  add_free-Added max seen p x v h sorted =
      let m : Text = if text_lt p.latest_marker (name x) then name x else p.latest_marker in
      let last : m ≡ last_name name [] (seen ++ x ∷ []) =
        next_marker p.latest_marker (name x) sorted
        ∙ sym (last_name-append name [] seen (x ∷ [])) in
      let same : group p.delimiter p.prefix_length (name x) ≡ group_of delimiter start name x =
        ap (λ d. group d p.prefix_length (name x)) v.delimiter_kept
        ∙ ap (λ l. group delimiter l (name x)) v.prefix_kept in
      subst (Returns (Added delimiter start name max seen x)) (sym (add-lem p x h sorted)) (
        subst (λ g. Added delimiter start name max seen x (mark m (place p g x))) (sym same)
          (place-Added max seen p x v h m last (Option-cases (group_of delimiter start name x))))

  -- A document in its order is taken, or the page is exhausted.
  pub add-Added :
      (max : ℕ) (seen : List A) (p : Page A) (x : A)
      → Shows delimiter start name max seen p
      → text_lt (name x) p.latest_marker ≡ false
      → Returns (Added delimiter start name max seen x) (add p (name x) x)
  unfolding add
  add-Added max seen p x v sorted = elim (Bool-cases p.is_exhausted) [
    | inl h ↦
        subst (Returns (Added delimiter start name max seen x))
          (sym (
            ap
              (λ b.
                if b
                then ok (false, p)
                else (throw_if (text_lt (name x) p.latest_marker) plain_error
                    >> ok (placed p (name x) x)))
              h))
          (refused v h)
    | inr h ↦ add_free-Added max seen p x v h sorted
  ]
