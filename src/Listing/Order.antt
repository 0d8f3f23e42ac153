-- ===== src/Listing/Order.antt =====
-- Documents in the order of their names.
use azurite.Prelude.{◌≡◌, refl, false, List, [], ◌∷◌, ◌++◌, arith}
use azurite.Conditions.Model.{Text}
use azurite.Tags.Evaluate.{text_lt}

-- Neither of two equal texts comes first, and of two others one does.
pub text_lt_antisym : (s t : Text) → text_lt s t ≡ false → text_lt t s ≡ false → s ≡ t
unfolding text_lt
text_lt_antisym [] [] p q = refl
text_lt_antisym [] (y ∷ ys) p q = ground arith
text_lt_antisym (x ∷ xs) [] p q = ground arith
text_lt_antisym (x ∷ xs) (y ∷ ys) p q = ground (arith, text_lt_antisym xs ys)

not_before_start : (s : Text) → text_lt s [] ≡ false
unfolding text_lt
not_before_start [] = refl
not_before_start (x ∷ xs) = refl

module _ {ℓ} {A : Type ℓ} (name : A → Text) where
  -- In the order of names, from `m` on.
  abbrev pub IsSortedFrom : Text → List A → Type 0
  IsSortedFrom m [] = Unit
  IsSortedFrom m (x ∷ xs) = (text_lt (name x) m ≡ false) × IsSortedFrom (name x) xs

  -- The last name, or `m` if there is none.
  abbrev pub last_name : Text → List A → Text
  last_name m [] = m
  last_name m (x ∷ xs) = last_name (name x) xs

  pub last_name-append :
      (m : Text) (xs ys : List A) → last_name m (xs ++ ys) ≡ last_name (last_name m xs) ys
  last_name-append m [] ys = refl
  last_name-append m (x ∷ xs) ys = last_name-append (name x) xs ys

  pub IsSortedFrom-append :
      (m : Text) (xs ys : List A)
      → IsSortedFrom m (xs ++ ys)
      → IsSortedFrom m xs × IsSortedFrom (last_name m xs) ys
  IsSortedFrom-append m [] ys v = (tt, v)
  IsSortedFrom-append m (x ∷ xs) ys v =
      let (l, r) = IsSortedFrom-append (name x) xs ys v.1 in ((v.0, l), r)

  pub from_start : (m : Text) (xs : List A) → IsSortedFrom m xs → IsSortedFrom [] xs
  from_start m [] v = tt
  from_start m (x ∷ xs) v = (not_before_start (name x), v.1)
