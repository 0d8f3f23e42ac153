-- ===== src/PageRanges/Middle.antt =====
-- cutRanges as a single pass.
use azurite.Prelude.{
  ℕ, zero, suc, ◌+◌, ◌≤◌, ◌<◌, ◌≡◌, refl, ap, ◌∙◌, inl, inr, Option, none, some, List, [], ◌∷◌,
  if◌then◌else◌, arith, ltb, take, Bool-cases, ltb→lt,
}
use native.Mathlib.Nat.{le_refl}
use azurite.Errors.{ok}
use azurite.PageRanges.Model.{PageRange}
use azurite.PageRanges.Manager.{cut_front, cut_back, cut_last, cut_at, cut_ranges}
use azurite.PageRanges.Scan.{or}
use azurite.PageRanges.Find.{shift, find_first, find_last, select-find}
use azurite.PageRanges.Passes.{
  Ordered, first_in, last_in, find_last_none, before_all, from_first, last_none, impacted_count-suc,
  impacted_count-zero, impacted_count-first, or_some,
}

-- The part of each range between `start` and `end`.
unfoldable pub middle : ℕ → ℕ → List PageRange → List PageRange
middle start end [] = []
middle start end (r ∷ rs) =
    let rest = middle start end rs in
    if ltb r.end start
    then rest
    else if ltb end r.start
    then []
    else cut_back end (cut_front start r) ∷ rest

cut_at-cons :
    (r : PageRange) (start end : ℕ) (rs : List PageRange) (i j : Option ℕ)
    → cut_at (r ∷ rs) start end (shift i) (or (shift j) (some 0)) ≡ cut_at rs start end i j
unfolding cut_at
cut_at-cons r start end rs none none = refl
cut_at-cons r start end rs none (some j) = refl
cut_at-cons r start end rs (some i) none = ground (arith, impacted_count-zero i)
cut_at-cons r start end rs (some i) (some j) = ground (arith, impacted_count-suc i j)

cut_last-cons :
    (end : ℕ) (x y : PageRange) (rs : List PageRange)
    → cut_last end (x ∷ y ∷ rs) ≡ x ∷ cut_last end (y ∷ rs)
unfolding cut_last
cut_last-cons end x y rs = refl

module _ (start end : ℕ) where
  pub middle_none :
      (lo : ℕ) (rs : List PageRange) → Ordered lo rs → end < lo → middle start end rs ≡ []
  unfolding middle
  middle_none lo [] o h = refl
  middle_none lo (r ∷ rs) o h = ground (arith, middle_none (r.end + 1) rs)

  last_in-le : (lo j : ℕ) (rs : List PageRange) → Ordered lo rs → last_in end rs ≡ some j → lo ≤ end
  last_in-le lo j rs o e = elim (Bool-cases (ltb end lo)) [
    | inl b ↦ cc (find_last_none end lo rs o (ltb→lt _ _ b))
    | inr b ↦ ground arith
  ]

  -- A range that begins at `start` or later is not cut in front.
  cut_front_id : (r : PageRange) → start ≤ r.start → cut_front start r ≡ r
  unfolding cut_front
  cut_front_id r h = ground arith

  cut_back_id : (r : PageRange) → r.end ≤ end → cut_back end r ≡ r
  unfolding cut_back
  cut_back_id r h = ground arith

  last_in-none :
      (lo : ℕ) (rs : List PageRange)
      → Ordered lo rs
      → last_in end rs ≡ none
      → middle start end rs ≡ []
  unfolding find_last middle
  last_in-none lo [] o e = refl
  last_in-none lo (r ∷ rs) o e =
      ground (arith, last_in-none (r.end + 1) rs, middle_none (r.end + 1) rs)

  -- The next range is impacted too.
  middle-cons :
      (lo : ℕ) (y : PageRange) (rs : List PageRange)
      → Ordered lo (y ∷ rs)
      → start ≤ lo
      → y.start ≤ end
      → middle start end (y ∷ rs) ≡ cut_back end y ∷ middle start end rs
  unfolding middle
  middle-cons lo y rs o h b = ground (arith, cut_front_id y)

  last_in-cons :
      (lo : ℕ) (y : PageRange) (rs : List PageRange)
      → Ordered lo (y ∷ rs)
      → y.start ≤ end
      → last_in end (y ∷ rs) ≡ or (shift (last_in end rs)) (some 0)
  unfolding find_last
  last_in-cons lo y rs o b = ground arith

  -- Behind the first impacted range only the last one is cut.
  cut_last-middle :
      (lo j : ℕ) (x : PageRange) (rs : List PageRange)
      → Ordered lo rs
      → start ≤ lo
      → x.end < lo
      → or (shift (last_in end rs)) (some 0) ≡ some j
      → cut_last end (take (suc j) (x ∷ rs)) ≡ cut_back end x ∷ middle start end rs
  cut_last-middle lo zero x [] o h k e = unfold cut_last middle in refl
  cut_last-middle lo (suc j) x [] o h k e = unfold cut_last middle in refl
  cut_last-middle lo zero x (y ∷ rs) o h k e = elim (Bool-cases (ltb end y.start)) [
    | inl b ↦
        rw (middle_none y.start (y ∷ rs) (le_refl y.start, o.1, o.2, o.3) (ltb→lt _ _ b))
          (unfold cut_last in refl)
    | inr b ↦
        let (j, l) = or_some (last_in end rs) 0 in
        let l' : last_in end (y ∷ rs) ≡ some j = last_in-cons lo y rs o (ground arith) ∙ l in
        cc (ap (λ t. or (shift t) (some 0)) l')
  ]
  cut_last-middle lo (suc j) x (y ∷ rs) o h k e = elim (Bool-cases (ltb end y.start)) [
    | inl b ↦ ground (arith, find_last_none end y.start (y ∷ rs) (le_refl y.start, o.1, o.2, o.3))
    | inr b ↦
        let b' : y.start ≤ end = ground arith in
        rw (middle-cons lo y rs o h b', cut_back_id x (omega arith))
          (cut_last-cons end x y (take j rs)
            ∙ ap (λ t. x ∷ t)
                (cut_last-middle (y.end + 1) j y rs o.3 (omega arith) (omega arith)
                  (ground (arith, last_in-cons lo y rs))))
  ]

module _ (start end lo : ℕ) (r : PageRange) (rs : List PageRange) (o : Ordered lo (r ∷ rs))
    (h : start ≤ end) where
  pub middle_skip : r.end < start → middle start end (r ∷ rs) ≡ middle start end rs
  unfolding middle
  middle_skip b = ground arith

  pub middle_first :
      start ≤ r.end
      → r.start ≤ end
      → middle start end (r ∷ rs) ≡ cut_back end (cut_front start r) ∷ middle start end rs
  unfolding middle
  middle_first b c = ground arith

  end-cut_front : (cut_front start r).end ≡ r.end
  unfolding cut_front
  end-cut_front = ground arith

  cut_at_here :
      start ≤ r.end
      → cut_at (r ∷ rs) start end (some 0) (last_in end (r ∷ rs)) ≡ middle start end (r ∷ rs)
  cut_at_here b = elim (Bool-cases (ltb end r.start)) [
    | inl c ↦
        let c' = ltb→lt _ _ c in
        rw
          (
            last_none start end lo r rs o h c',
            middle_none start end r.start (r ∷ rs) (le_refl r.start, o.1, o.2, o.3) c',
          )
          (unfold cut_at in refl)
    | inr c ↦
        let c' : r.start ≤ end = ground arith in
        let (j, l) = or_some (last_in end rs) 0 in
        rw (last_in-cons start end lo r rs o c', l, middle_first b c')
          (unfold cut_at in
            rw (impacted_count-first j) (
              cut_last-middle start end (r.end + 1) j (cut_front start r) rs o.3 (omega arith)
                (rw end-cut_front (omega arith)) l))
  ]

cut_at-middle :
    (start end lo : ℕ) (rs : List PageRange)
    → Ordered lo rs
    → start ≤ end
    → cut_at rs start end (first_in start rs) (last_in end rs) ≡ middle start end rs
cut_at-middle start end lo [] o h = unfold cut_at find_first find_last middle in refl
cut_at-middle start end lo (r ∷ rs) o h = elim (Bool-cases (ltb r.end start)) [
  | inl b ↦
      let b' = ltb→lt _ _ b in
      let (f, l) = before_all start end lo r rs o h b' in
      rw (f, l, middle_skip start end lo r rs o h b')
        (cut_at-cons r start end rs (first_in start rs) (last_in end rs)
          ∙ cut_at-middle start end (r.end + 1) rs o.3 h)
  | inr c ↦
      rw (from_first start end lo r rs o h (ground arith))
        (cut_at_here start end lo r rs o h (ground arith))
]

-- On ordered ranges cutRanges is the single pass.
pub cut_ranges-middle :
    (lo : ℕ) (rs : List PageRange) (start end : ℕ)
    → Ordered lo rs
    → start ≤ end
    → cut_ranges rs start end ≡ ok (middle start end rs)
unfolding cut_ranges
cut_ranges-middle lo rs start end o h =
    rw (select-find rs start end h) (ap (λ t. ok t) (cut_at-middle start end lo rs o h))
