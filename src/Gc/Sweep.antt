-- ===== src/Gc/Sweep.antt =====
-- src/blob/gc/BlobGCManager.ts: which extents are swept.
use azurite.Prelude.{
  zero, suc, ltb, length, take, ◌-◌, ◌≤◌, ℕ, ◌+◌, ◌≡◌, refl, sym, ap, ◌∙◌, Bool, true, false,
  Bool-cases, inl, inr, String, List, [], ◌∷◌, ◌++◌, ◌&&◌, ◌||◌, arith, if◌then◌else◌, str_eq,
  eq_iff, not,
}
use azurite.Gc.Manager.{
  Status, is_running, IteratorResult, holds_id, add_id, delete_id, add_all, delete_all, loop,
  get_all_extents, mark_sweep,
}

or_false : (b : Bool) → b ≡ b || false
or_false true = refl
or_false false = refl

and_true : (b : Bool) → b ≡ b && true
and_true true = refl
and_true false = refl

holds_id-append :
    (x : String) (xs ys : List String) → holds_id x (xs ++ ys) ≡ holds_id x xs || holds_id x ys
unfolding holds_id
holds_id-append x [] ys = refl
holds_id-append x (y ∷ xs) ys = ground (arith, holds_id-append x xs ys)

holds_id-add_id :
    (x y : String) (ids : List String) → holds_id x (add_id ids y) ≡ holds_id x ids || str_eq y x
unfolding add_id
holds_id-add_id x y ids = elim (Bool-cases (holds_id y ids)) [
  | inl k ↦ rw k (elim (Bool-cases (str_eq y x)) [
    | inl e ↦ rw (e, ap (λ z. holds_id z ids) (sym ((eq_iff y x).0 e)) ∙ k)
    | inr e ↦ rw e (or_false (holds_id x ids))
  ])
  | inr k ↦
      rw k (
        holds_id-append x ids (y ∷ [])
        ∙ ap (λ b. holds_id x ids || b) (sym (or_false (str_eq y x))))
]

holds_id-delete_id :
    (x y : String) (ids : List String)
    → holds_id x (delete_id ids y) ≡ holds_id x ids && not (str_eq y x)
unfolding delete_id holds_id
holds_id-delete_id x y [] = refl
holds_id-delete_id x y (z ∷ ids) =
    ground (arith, holds_id-delete_id x y ids, eq_iff z y, eq_iff y x, eq_iff z x)

holds_id-add_all :
    (x : String) (ids xs : List String)
    → holds_id x (add_all ids xs) ≡ holds_id x ids || holds_id x xs
unfolding add_all holds_id
holds_id-add_all x ids [] = or_false (holds_id x ids)
holds_id-add_all x ids (y ∷ ys) =
    holds_id-add_all x (add_id ids y) ys ∙ ground (arith, holds_id-add_id x y ids)

holds_id-delete_all :
    (x : String) (ids xs : List String)
    → holds_id x (delete_all ids xs) ≡ holds_id x ids && not (holds_id x xs)
unfolding delete_all holds_id
holds_id-delete_all x ids [] = and_true (holds_id x ids)
holds_id-delete_all x ids (y ∷ ys) =
    holds_id-delete_all x (delete_id ids y) ys ∙ ground (arith, holds_id-delete_id x y ids)

-- The extents of the results, and of those that a loop reads.
unfoldable pub contents : List IteratorResult → List String
contents [] = []
contents (r ∷ rs) = r.value ++ contents rs

-- The manager goes on after every result.
abbrev pub AreMore : (IteratorResult → Bool) → List IteratorResult → Type 0
AreMore goes_on [] = Unit
AreMore goes_on (r ∷ rs) = (goes_on r ≡ true) × AreMore goes_on rs

module _ (goes_on : IteratorResult → Bool) (status : ℕ → Status) where
  read : ℕ → List IteratorResult → List String
  read n [] = []
  read n (r ∷ rs) =
      let rest = r.value ++ read (n + 1) rs in
      if goes_on r && is_running (status n) then rest else []

  holds_id-loop-add_all :
      (x : String) (n : ℕ) (rs : List IteratorResult) (ids : List String)
      → holds_id x (loop goes_on status add_all n rs ids).0
        ≡ holds_id x ids || holds_id x (read n rs)
  unfolding loop read holds_id
  holds_id-loop-add_all x n [] ids = or_false (holds_id x ids)
  holds_id-loop-add_all x n (r ∷ rs) ids = elim (Bool-cases (goes_on r && is_running (status n))) [
    | inl k ↦ rw k (
        holds_id-loop-add_all x (n + 1) rs (add_all ids r.value)
        ∙ ground
            (arith, holds_id-add_all x ids r.value, holds_id-append x r.value (read (n + 1) rs)))
    | inr k ↦ rw k (or_false (holds_id x ids))
  ]

  holds_id-loop-delete_all :
      (x : String) (n : ℕ) (rs : List IteratorResult) (ids : List String)
      → holds_id x (loop goes_on status delete_all n rs ids).0
        ≡ holds_id x ids && not (holds_id x (read n rs))
  unfolding loop read holds_id
  holds_id-loop-delete_all x n [] ids = and_true (holds_id x ids)
  holds_id-loop-delete_all x n (r ∷ rs) ids =
      elim (Bool-cases (goes_on r && is_running (status n))) [
        | inl k ↦ rw k (
            holds_id-loop-delete_all x (n + 1) rs (delete_all ids r.value)
            ∙ ground (
              arith,
              holds_id-delete_all x ids r.value,
              holds_id-append x r.value (read (n + 1) rs),
            ))
        | inr k ↦ rw k (and_true (holds_id x ids))
      ]

  loop-after :
      (n : ℕ) (rs : List IteratorResult) (body : List String → List String → List String)
      (ids : List String)
      → AreMore goes_on rs
      → ((k : ℕ) → is_running (status k) ≡ true)
      → is_running (status (loop goes_on status body n rs ids).1) ≡ true
  unfolding loop
  loop-after n [] body ids a h = h (n + 1)
  loop-after n (r ∷ rs) body ids a h =
      rw (a.0, h n) (loop-after (n + 1) rs body (body ids r.value) a.1 h)

  read_all :
      (n : ℕ) (rs : List IteratorResult)
      → AreMore goes_on rs
      → ((k : ℕ) → is_running (status k) ≡ true)
      → read n rs ≡ contents rs
  unfolding read contents
  read_all n [] a h = refl
  read_all n (r ∷ rs) a h = rw (a.0, h n) (ap (λ ys. r.value ++ ys) (read_all (n + 1) rs a.1 h))

  -- While the manager runs, a sweep passes on the extents that the store lists and nothing refers to, and
  -- no others: `all` and `referred` are the results of the two iterators, after each of which the manager goes on.
  pub mark_sweep-lem :
      (x : String) (all referred : List IteratorResult)
      → ((k : ℕ) → is_running (status k) ≡ true)
      → AreMore goes_on all
      → AreMore goes_on referred
      → holds_id x (mark_sweep goes_on status all referred)
        ≡ holds_id x (contents all) && not (holds_id x (contents referred))
  unfolding mark_sweep get_all_extents holds_id
  mark_sweep-lem x all referred h a b =
      rw (loop-after 0 all add_all [] a h, holds_id-loop-delete_all x _ referred _)
        (let swept = read_all ((get_all_extents goes_on status all).1 + 1) referred b h in
          let marked = holds_id-loop-add_all x 0 all [] in
          rw (marked, read_all 0 all a h, swept) refl)

take_none : (n : ℕ) → take {A = IteratorResult} n [] ≡ []
take_none zero = refl
take_none (suc n) = refl

take_all : (n : ℕ) (rs : List IteratorResult) → length rs ≤ n → take n rs ≡ rs
take_all n [] h = take_none n
take_all zero (r ∷ rs) h = absurd (omega (arith, h))
take_all (suc n) (r ∷ rs) h = ap (λ l. r ∷ l) (take_all n rs (omega (arith, h)))

-- close() before the test with the number k: the status is `Running` at the tests before it.
module _ (goes_on : IteratorResult → Bool) (status : ℕ → Status) (k : ℕ)
    (closes : (n : ℕ) → is_running (status n) ≡ ltb n k) where
  status-loop :
      (n : ℕ) (rs : List IteratorResult) (body : List String → List String → List String)
      (ids : List String)
      → AreMore goes_on rs
      → is_running (status (loop goes_on status body n rs ids).1) ≡ ltb (n + length rs + 1) k
  unfolding loop
  status-loop n [] body ids a = ground (arith, closes (n + 1))
  status-loop n (r ∷ rs) body ids a = elim (Bool-cases (ltb n k)) [
    | inl early ↦
        rw (a.0, closes n, early)
          (ground (arith, status-loop (n + 1) rs body (body ids r.value) a.1))
    | inr late ↦ rw (a.0, closes n, late) (ground (arith, closes (n + 1), late))
  ]

  loop-tests :
      (n : ℕ) (rs : List IteratorResult) (body : List String → List String → List String)
      (ids : List String)
      → AreMore goes_on rs
      → n + length rs ≤ k
      → (loop goes_on status body n rs ids).1 ≡ n + length rs + 1
  unfolding loop
  loop-tests n [] body ids a h = omega arith
  loop-tests n (r ∷ rs) body ids a h =
      let early : ltb n k ≡ true = ground (arith, h) in
      rw (a.0, closes n, early)
        (omega (arith, loop-tests (n + 1) rs body (body ids r.value) a.1 (omega (arith, h))))

  read_until :
      (n : ℕ) (rs : List IteratorResult)
      → AreMore goes_on rs
      → read goes_on status n rs ≡ contents (take (k - n) rs)
  unfolding read contents
  read_until n [] a = ap contents (sym (take_none (k - n)))
  read_until n (r ∷ rs) a = elim (Bool-cases (ltb n k)) [
    | inl early ↦
        let left : k - n ≡ suc (k - (n + 1)) = ground (arith, early) in
        rw (a.0, closes n, early, left) (ap (λ ys. r.value ++ ys) (read_until (n + 1) rs a.1))
    | inr late ↦ let left : k - n ≡ 0 = ground (arith, late) in rw (a.0, closes n, late, left) refl
  ]

  -- What markSweep passes to deleteExtents when close() comes before the test with the number k: the
  -- status is running at the tests before it, and not at it or later. A loop makes one test for each
  -- result and one at its end, and markSweep one between its loops; no result of the two iterators says
  -- that it is the last. If k is not behind the test between the loops, nothing is passed. If it is,
  -- the extents passed are those that the store lists and that the results about referred extents read
  -- until then do not name, also if later results name them.
  pub mark_sweep-closing :
      (x : String) (all referred : List IteratorResult)
      → AreMore goes_on all
      → AreMore goes_on referred
      → holds_id x (mark_sweep goes_on status all referred) ≡ (
          ltb (length all + 1) k
          && (holds_id x (contents all)
              && not (holds_id x (contents (take (k - (length all + 2)) referred)))))
  unfolding mark_sweep get_all_extents holds_id
  mark_sweep-closing x all referred a b = elim (Bool-cases (ltb (length all + 1) k)) [
    | inl early ↦
        let within : length all ≤ k = ground (arith, early) in
        let whole : k - 0 ≡ k = omega arith in
        let tests = loop-tests 0 all add_all [] a (omega (arith, within)) in
        let running : is_running (status (get_all_extents goes_on status all).1) ≡ true =
          ground (arith, status-loop 0 all add_all [] a, early) in
        let left : k - ((get_all_extents goes_on status all).1 + 1) ≡ k - (length all + 2) =
          omega (arith, tests) in
        rw (early, running, holds_id-loop-delete_all goes_on status x _ referred _)
          (let found = holds_id-loop-add_all goes_on status x 0 all [] in
            rw
              (
                found,
                read_until 0 all a,
                whole,
                take_all k all within,
                read_until _ referred b,
                left,
              )
              refl)
    | inr late ↦ rw (late, status-loop 0 all add_all [] a) (ground (arith, late))
  ]
