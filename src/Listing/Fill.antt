-- ===== src/Listing/Fill.antt =====
-- PageWithDelimiter.fill (src/blob/persistence/PageWithDelimiter.ts) on a reader of a list in order.
use azurite.Prelude.{
  ℕ, zero, suc, ◌+◌, ◌≤◌, ◌<◌, ◌≡◌, refl, sym, ap, ◌∙◌, ◌⊎◌, inl, inr, true, false, Option, List,
  [], ◌∷◌, ◌++◌, arith, ltb, length, Bool-cases, take, drop,
}
use mathlib.Core.Path.{subst}
use mathlib.Core.List.{append_assoc, append-nil}
use azurite.Errors.{Returns, bind-Returns}
use azurite.Conditions.Model.{Text}
use azurite.Listing.Page.{Page, process_list, fill_loop}
use azurite.Prelude.{length-append, take-drop, length-take}
use azurite.Listing.Order.{IsSortedFrom, last_name, last_name-append, IsSortedFrom-append}
use azurite.Listing.Taken.{Showing, Processed, process_list-Processed}

take-le : {A : Type 0} (n : ℕ) (xs : List A) → length (take n xs) ≤ n
take-le zero xs = omega arith
take-le (suc n) [] = omega arith
take-le (suc n) (x ∷ xs) = omega (arith, take-le n xs)

drop-append : {A : Type 0} (xs ys : List A) → drop (length xs) (xs ++ ys) ≡ ys
drop-append [] ys = refl
drop-append (x ∷ xs) ys = drop-append xs ys

take-nil : {A : Type 0} (n : ℕ) (xs : List A) → 0 < n → take n xs ≡ [] → xs ≡ []
take-nil zero xs h e = absurd (omega (arith, h))
take-nil (suc n) [] h e = refl
take-nil (suc n) (x ∷ xs) h e = ground (arith, e)

module _ {A : Type 0} (delimiter : Option Text) (start : ℕ) (name : A → Text) (max : ℕ)
    (pos : 0 < max) (all : List A) (reader : ℕ → List A)
    (reads : (n : ℕ) → reader n ≡ take max (drop n all)) where
  abbrev pub Shown : List A → Page A → Type 0
  Shown = Showing delimiter start name max

  -- Where the loop ends: the page shows `seen`, and what is left is told from the last call of
  -- processList.
  pub record Ended (r : ℕ × (List A × Page A)) : Type 0 where
    pub seen : List A
    pub rest : List A
    pub whole : seen ++ rest ≡ all
    pub shows : Shown seen r.1.1
    pub told :
        ((rest ≡ []) × (ltb r.0 (length r.1.0) ≡ false))
        ⊎ ((1 ≤ length rest) × (ltb r.0 (length r.1.0) ≡ true) × (r.1.1.is_exhausted ≡ true))

  resplit :
      (seen rest taken left : List A)
      → seen ++ rest ≡ all
      → taken ++ left ≡ take max rest
      → (seen ++ taken) ++ (left ++ drop max rest) ≡ all
  resplit seen rest taken left w t =
      append_assoc seen taken (left ++ drop max rest)
      ∙ ap (λ l. seen ++ l)
          (sym (append_assoc taken left (drop max rest))
            ∙ ap (λ l. l ++ drop max rest) t
            ∙ take-drop max rest)
      ∙ w

  -- The loop stops after it took `taken` of `docs`.
  stopped :
      (seen rest docs taken left : List A) (n : ℕ) (p : Page A)
      → seen ++ rest ≡ all
      → docs ≡ take max rest
      → taken ++ left ≡ docs
      → n ≡ length taken
      → n < max
      → Shown (seen ++ taken) p
      → (left ≡ []) ⊎ (p.is_exhausted ≡ true)
      → Ended (n, (docs, p))
  stopped seen rest docs taken [] n p w d t c h v y =
      let same : taken ≡ docs = sym (append-nil taken) ∙ t in
      let all_read : taken ≡ rest = elim (length-take max rest) [
        | inl e ↦ absurd (omega (arith, e, ap length same, ap length d, c, h))
        | inr e ↦
            same
            ∙ d
            ∙ sym (append-nil (take max rest))
            ∙ ap (λ l. take max rest ++ l) (sym e)
            ∙ take-drop max rest
      ] in
      record {
        seen = seen ++ taken;
        rest = [];
        whole = append-nil (seen ++ taken) ∙ ap (λ l. seen ++ l) all_read ∙ w;
        shows = v;
        told = inl (refl, ground (arith, c, ap length same));
      }
  stopped seen rest docs taken (y ∷ ys) n p w d t c h v why = record {
    seen = seen ++ taken;
    rest = (y ∷ ys) ++ drop max rest;
    whole = resplit seen rest taken (y ∷ ys) w (t ∙ d);
    shows = v;
    told = inr (
      omega arith,
      ground (arith, c, ap length t, length-append taken (y ∷ ys)),
      ground (arith, why),
    );
  }

  -- All that was read was taken, so the page has just `max` of it.
  all_taken :
      (rest taken left : List A)
      → taken ++ left ≡ take max rest
      → max ≤ length taken
      → (left ≡ []) × (length taken ≡ max)
  all_taken rest taken [] t h =
      (refl, omega (arith, h, ap length t, length-append taken [], take-le max rest))
  all_taken rest taken (y ∷ ys) t h =
      absurd (omega (arith, h, ap length t, length-append taken (y ∷ ys), take-le max rest))

  next_read :
      (seen rest : List A) (offset : ℕ)
      → seen ++ rest ≡ all
      → offset ≡ length seen
      → reader offset ≡ take max rest
  next_read seen rest offset w o =
      reads offset
      ∙ ap (λ l. take max (drop offset l)) (sym w)
      ∙ ap (λ n. take max (drop n (seen ++ rest))) o
      ∙ ap (take max) (drop-append seen rest)

  sorted_parts :
      (seen rest : List A)
      → IsSortedFrom name (last_name name [] seen) rest
      → IsSortedFrom name (last_name name [] seen) (take max rest)
        × IsSortedFrom name
            (last_name name (last_name name [] seen) (take max rest))
            (drop max rest)
  sorted_parts seen rest s =
      IsSortedFrom-append name (last_name name [] seen) (take max rest) (drop max rest)
        (subst (IsSortedFrom name (last_name name [] seen)) (sym (take-drop max rest)) s)

  pub fill_loop-Ended :
      (f : ℕ) (seen rest docs : List A) (p : Page A) (offset added : ℕ)
      → seen ++ rest ≡ all
      → docs ≡ take max rest
      → offset ≡ length seen
      → length rest ≤ f
      → Shown seen p
      → IsSortedFrom name (last_name name [] seen) rest
      → Returns Ended (fill_loop name f reader p offset added docs)
  unfolding fill_loop
  fill_loop-Ended f seen rest [] p offset added w d o b v s = record {
    seen = seen;
    rest = rest;
    whole = w;
    shows = v;
    told = inl (take-nil max rest pos (sym d), ground arith);
  }
  fill_loop-Ended zero seen rest (x ∷ xs) p offset added w d o b v s = absurd (
      omega (
        arith,
        b,
        ap length d,
        length-append (take max rest) (drop max rest),
        ap length (take-drop max rest),
      ))
  fill_loop-Ended (suc f) seen rest (x ∷ xs) p offset added w d o b v s =
      bind-Returns (Processed delimiter start name max seen (x ∷ xs)) Ended
        (process_list name p (x ∷ xs)) _
        (process_list-Processed delimiter start name max seen (x ∷ xs) p v
          (subst (IsSortedFrom name (last_name name [] seen)) (sym d) (sorted_parts seen rest s).0))
        λ (n, p') t. elim (Bool-cases (ltb n p.max_results)) [
          | inl h ↦ rw h (
              stopped seen rest (x ∷ xs) t.taken t.left n p' w d t.parts t.counted
                (ground (arith, h, v.max_kept)) t.shows t.why)
          | inr h ↦
              let (none_left, many) =
                all_taken rest t.taken t.left (t.parts ∙ d)
                  (ground (arith, h, v.max_kept, t.counted)) in
              let taken_all : t.taken ≡ take max rest =
                sym (append-nil t.taken) ∙ ap (λ l. t.taken ++ l) (sym none_left) ∙ t.parts ∙ d in
              let w' : (seen ++ t.taken) ++ drop max rest ≡ all =
                ap (λ l. (seen ++ t.taken) ++ (l ++ drop max rest)) (sym none_left)
                ∙ resplit seen rest t.taken t.left w (t.parts ∙ d) in
              let o' : offset + n ≡ length (seen ++ t.taken) =
                omega (arith, o, t.counted, length-append seen t.taken) in
              rw h (
                fill_loop-Ended f (seen ++ t.taken) (drop max rest) (reader (offset + n)) p'
                  (offset + n) n w' (next_read (seen ++ t.taken) (drop max rest) (offset + n) w' o')
                  o'
                  (omega (
                    arith,
                    b,
                    pos,
                    many,
                    ap length taken_all,
                    length-append (take max rest) (drop max rest),
                    ap length (take-drop max rest),
                  ))
                  t.shows
                  (subst (λ m. IsSortedFrom name m (drop max rest))
                    (ap (last_name name (last_name name [] seen)) (sym taken_all)
                      ∙ sym (last_name-append name [] seen t.taken))
                    (sorted_parts seen rest s).1))
        ]
