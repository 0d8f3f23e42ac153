-- ===== src/Listing/Taken.antt =====
-- PageWithDelimiter.processList (src/blob/persistence/PageWithDelimiter.ts) on documents in order.
use azurite.Prelude.{
  ℕ, ◌+◌, ◌≡◌, refl, sym, ap, ◌⊎◌, inl, inr, Bool, true, false, Option, List, [], ◌∷◌, ◌++◌, arith,
  if◌then◌else◌, length,
}
use mathlib.Core.Path.{subst}
use mathlib.Core.List.{append_assoc, append-nil}
use azurite.Errors.{Result, ok, Returns, bind-Returns, ◌>>=◌}
use azurite.Conditions.Model.{Text}
use azurite.Listing.Page.{Page, add, process_list}
use azurite.Listing.Order.{IsSortedFrom, last_name, last_name-append}
use azurite.Listing.Adds.{add-Added}
use azurite.Listing.Shows.{Shows, Added, took, refused}

module _ {A : Type 0} (delimiter : Option Text) (start : ℕ) (name : A → Text) (max : ℕ) where
  abbrev pub Showing : List A → Page A → Type 0
  Showing seen p = Shows delimiter start name max seen p

  -- processList took `taken` and left `left` of `docs`, since the page was exhausted.
  pub record Processed (seen docs : List A) (r : ℕ × Page A) : Type 0 where
    pub taken : List A
    pub left : List A
    pub parts : taken ++ left ≡ docs
    pub counted : r.0 ≡ length taken
    pub shows : Showing (seen ++ taken) r.1
    pub why : (left ≡ []) ⊎ (r.1.is_exhausted ≡ true)

  abbrev Next : ℕ → Page A → List A → Bool → Result (ℕ × Page A)
  Next n p xs true = ok (n, p)
  Next n p xs false = do (m, p2) ← process_list name p xs; ok (n + m, p2)

  after_refused :
      (seen : List A) (x : A) (xs : List A) (p : Page A) (b : Bool)
      → Showing seen p
      → p.is_exhausted ≡ true
      → p.is_exhausted ≡ b
      → Returns (Processed seen (x ∷ xs)) (Next 0 p xs b)
  after_refused seen x xs p true v h e = record {
    taken = [];
    left = x ∷ xs;
    parts = refl;
    counted = refl;
    shows = rw (append-nil seen) v;
    why = inr h;
  }
  after_refused seen x xs p false v h e = ground (arith, h, e)

  after_took :
      (seen : List A) (x : A) (xs : List A) (p : Page A) (b : Bool)
      → Showing (seen ++ x ∷ []) p
      → Returns (Processed (seen ++ x ∷ []) xs) (process_list name p xs)
      → p.is_exhausted ≡ b
      → Returns (Processed seen (x ∷ xs)) (Next 1 p xs b)
  after_took seen x xs p true v h e = record {
    taken = x ∷ [];
    left = xs;
    parts = refl;
    counted = refl;
    shows = v;
    why = inr e;
  }
  after_took seen x xs p false v h e =
      bind-Returns (Processed (seen ++ x ∷ []) xs) (Processed seen (x ∷ xs))
        (process_list name p xs) _ h
        λ (m, p2) t. record {
          taken = x ∷ t.taken;
          left = t.left;
          parts = ap (λ l. x ∷ l) t.parts;
          counted = omega (arith, t.counted);
          shows = rw (← append_assoc seen (x ∷ []) t.taken) t.shows;
          why = t.why;
        }

  after_add :
      (seen : List A) (x : A) (xs : List A) (r : Bool × Page A)
      → ((p : Page A)
          → Showing (seen ++ x ∷ []) p
          → Returns (Processed (seen ++ x ∷ []) xs) (process_list name p xs))
      → Added delimiter start name max seen x r
      → Returns (Processed seen (x ∷ xs)) (Next (if r.0 then 1 else 0) r.1 xs r.1.is_exhausted)
  after_add seen x xs r rest (took {p = p} v) =
      after_took seen x xs p p.is_exhausted v (rest p v) refl
  after_add seen x xs r rest (refused {p = p} v h) =
      after_refused seen x xs p p.is_exhausted v h refl

  pub process_list-Processed :
      (seen docs : List A) (p : Page A)
      → Showing seen p
      → IsSortedFrom name (last_name name [] seen) docs
      → Returns (Processed seen docs) (process_list name p docs)
  unfolding process_list
  process_list-Processed seen [] p v s = record {
    taken = [];
    left = [];
    parts = refl;
    counted = refl;
    shows = rw (append-nil seen) v;
    why = inl refl;
  }
  process_list-Processed seen (x ∷ xs) p v s =
      let sorted =
        subst (λ m. IsSortedFrom name m xs) (sym (last_name-append name [] seen (x ∷ []))) s.1 in
      bind-Returns (Added delimiter start name max seen x) (Processed seen (x ∷ xs))
        (add p (name x) x) _ (add-Added delimiter start name max seen p x v (rw v.marker s.0))
        λ r a.
          after_add seen x xs r (λ p' w. process_list-Processed (seen ++ x ∷ []) xs p' w sorted) a
