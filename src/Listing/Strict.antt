-- ===== src/Listing/Strict.antt =====
-- Documents with names of their own, in order: what lies behind a marker.
use azurite.Prelude.{
  ◌≤◌, ◌≡◌, refl, ap, true, false, List, [], ◌∷◌, ◌++◌, arith, Bool-cases, inl, inr, length,
}
use azurite.Conditions.Model.{Text}
use azurite.Tags.Evaluate.{text_lt}
use azurite.Listing.Order.{IsSortedFrom, last_name}
use azurite.Listing.Blobs.{after}

text_lt_trans : (s t u : Text) → text_lt s t ≡ true → text_lt t u ≡ true → text_lt s u ≡ true
unfolding text_lt
text_lt_trans [] [] u p q = ground (arith, p)
text_lt_trans [] (y ∷ ys) [] p q = ground (arith, q)
text_lt_trans [] (y ∷ ys) (z ∷ zs) p q = refl
text_lt_trans (x ∷ xs) [] u p q = ground (arith, p)
text_lt_trans (x ∷ xs) (y ∷ ys) [] p q = ground (arith, q)
text_lt_trans (x ∷ xs) (y ∷ ys) (z ∷ zs) p q = ground (arith, text_lt_trans xs ys zs, p, q)

text_lt_asym : (s t : Text) → text_lt s t ≡ true → text_lt t s ≡ false
unfolding text_lt
text_lt_asym [] [] p = refl
text_lt_asym [] (y ∷ ys) p = refl
text_lt_asym (x ∷ xs) [] p = ground (arith, p)
text_lt_asym (x ∷ xs) (y ∷ ys) p = ground (arith, text_lt_asym xs ys, p)

text_lt_irrefl : (s : Text) → text_lt s s ≡ false
unfolding text_lt
text_lt_irrefl [] = refl
text_lt_irrefl (x ∷ xs) = ground (arith, text_lt_irrefl xs)

module _ {A : Type 0} (name : A → Text) where
  -- In the order of names, no two alike, behind `m`.
  abbrev pub IsStrictFrom : Text → List A → Type 0
  IsStrictFrom m [] = Unit
  IsStrictFrom m (x ∷ xs) = (text_lt m (name x) ≡ true) × IsStrictFrom (name x) xs

  pub IsStrictFrom-IsSortedFrom :
      (m : Text) (xs : List A) → IsStrictFrom m xs → IsSortedFrom name m xs
  IsStrictFrom-IsSortedFrom m [] v = tt
  IsStrictFrom-IsSortedFrom m (x ∷ xs) v =
      (text_lt_asym m (name x) v.0, IsStrictFrom-IsSortedFrom (name x) xs v.1)

  pub lower :
      (l m : Text) (xs : List A) → text_lt l m ≡ true → IsStrictFrom m xs → IsStrictFrom l xs
  lower l m [] h v = tt
  lower l m (x ∷ xs) h v = (text_lt_trans l m (name x) h v.0, v.1)

  -- All that is behind `m` is found behind it.
  after-all : (m : Text) (xs : List A) → IsStrictFrom m xs → after name m xs ≡ xs
  after-all m [] v = refl
  after-all m (x ∷ xs) v = rw v.0 (ap (λ l. x ∷ l) (after-all m xs (lower m (name x) xs v.0 v.1)))

  pub after-IsStrictFrom :
      (l m : Text) (xs : List A) → IsStrictFrom l xs → IsStrictFrom m (after name m xs)
  after-IsStrictFrom l m [] v = tt
  after-IsStrictFrom l m (x ∷ xs) v = elim (Bool-cases (text_lt m (name x))) [
    | inl h ↦ rw (h, after-all m xs (lower m (name x) xs h v.1)) (h, v.1)
    | inr h ↦ rw h (after-IsStrictFrom (name x) m xs v.1)
  ]

  last_behind :
      (m : Text) (x : A) (xs : List A)
      → IsStrictFrom m (x ∷ xs)
      → text_lt m (last_name name m (x ∷ xs)) ≡ true
  last_behind m x [] v = v.0
  last_behind m x (y ∷ ys) v =
      text_lt_trans m (name x) (last_name name (name x) (y ∷ ys)) v.0
        (last_behind (name x) y ys v.1)

  not_behind_last :
      (m : Text) (xs : List A) → IsStrictFrom m xs → text_lt (last_name name m xs) m ≡ false
  not_behind_last m [] v = text_lt_irrefl m
  not_behind_last m (x ∷ xs) v = text_lt_asym m (last_name name m (x ∷ xs)) (last_behind m x xs v)

  IsStrictFrom-append :
      (m : Text) (xs ys : List A)
      → IsStrictFrom m (xs ++ ys)
      → IsStrictFrom m xs × IsStrictFrom (last_name name m xs) ys
  IsStrictFrom-append m [] ys v = (tt, v)
  IsStrictFrom-append m (x ∷ xs) ys v =
      let (l, r) = IsStrictFrom-append (name x) xs ys v.1 in ((v.0, l), r)

  -- Behind the last name of `xs` is what follows them.
  pub after-last :
      (m : Text) (xs ys : List A)
      → IsStrictFrom m (xs ++ ys)
      → after name (last_name name m xs) (xs ++ ys) ≡ ys
  after-last m [] ys v = after-all m ys v
  after-last m (x ∷ xs) ys v =
      rw (not_behind_last (name x) xs (IsStrictFrom-append (name x) xs ys v.1).0)
        (after-last (name x) xs ys v.1)

  -- A marker behind another one skips what the other one skips.
  pub after-after :
      (m t : Text) (xs : List A)
      → text_lt m t ≡ true
      → after name t (after name m xs) ≡ after name t xs
  after-after m t [] h = refl
  after-after m t (x ∷ xs) h = elim (Bool-cases (text_lt m (name x))) [
    | inl e ↦ rw e (ground (arith, after-after m t xs h))
    | inr e ↦ elim (Bool-cases (text_lt t (name x))) [
      | inl d ↦ ground (arith, text_lt_trans m t (name x) h d, e)
      | inr d ↦ rw (e, d) (after-after m t xs h)
    ]
  ]

  pub last_name-behind :
      (m : Text) (xs ys : List A)
      → IsStrictFrom m (xs ++ ys)
      → 1 ≤ length xs
      → text_lt m (last_name name [] xs) ≡ true
  last_name-behind m [] ys v h = absurd (omega (arith, h))
  last_name-behind m (x ∷ xs) ys v h = last_behind m x xs (IsStrictFrom-append m (x ∷ xs) ys v).0
