-- ===== src/PageRanges/Reference.antt =====
-- mergeRange and clearRange as single passes.
use azurite.Prelude.{
  ℕ, ◌+◌, ◌≤◌, ◌≡◌, refl, ap, ◌∙◌, inl, inr, some, List, [], ◌∷◌, ◌++◌, arith, ltb, Bool-cases,
  ltb→lt,
}
use azurite.Errors.{ok}
use azurite.PageRanges.Model.{PageRange, splice}
use azurite.PageRanges.Manager.{split_first, merge_at, merge_range, clear_at, clear_range}
use azurite.PageRanges.Find.{find_first, find_last, select-find}
use azurite.PageRanges.Passes.{
  Ordered, before, after, first_in, last_in, merge_at-cons, clear_at-cons, merge_at-zero,
  clear_at-zero, before_all, from_first, last_some, last_none, after_skip, after_all, before_split,
  before_none, before_keep, tail_eq,
}

-- The two updates behind their selections are the single passes. First the case of a list whose
-- first range ends at `start` or later.
module _ (lo : ℕ) (r : PageRange) (rs : List PageRange) (o : Ordered lo (r ∷ rs)) where
  merge_at_here :
      (new : PageRange)
      → new.start ≤ new.end
      → new.start ≤ r.end
      → merge_at (r ∷ rs) new (some 0) (last_in new.end (r ∷ rs))
        ≡ before new.start (r ∷ rs) ++ (new ∷ after new.end (r ∷ rs))
  merge_at_here new h b = elim (Bool-cases (ltb new.end r.start)) [
    | inl c ↦
        let c' = ltb→lt _ _ c in
        rw
          (
            last_none new.start new.end lo r rs o h c',
            before_none new.start new.end lo r rs o h c',
            after_all new.start new.end lo r rs o h c',
          )
          (unfold merge_at splice in refl)
    | inr c ↦
        let (j, e) = last_some new.start new.end lo r rs o h (ground arith) in
        rw (e, before_split new.start new.end lo r rs o h b)
          (merge_at-zero new (r ∷ rs) j
            ∙ ap (λ t. split_first new.start (some r) ++ (new ∷ t))
                (tail_eq new.start new.end lo r rs o h e))
  ]

  clear_at_here :
      (start end : ℕ)
      → start ≤ end
      → start ≤ r.end
      → clear_at (r ∷ rs) start end (some 0) (last_in end (r ∷ rs))
        ≡ before start (r ∷ rs) ++ after end (r ∷ rs)
  clear_at_here start end h b = elim (Bool-cases (ltb end r.start)) [
    | inl c ↦
        let c' = ltb→lt _ _ c in
        rw
          (
            last_none start end lo r rs o h c',
            before_none start end lo r rs o h c',
            after_all start end lo r rs o h c',
          )
          (unfold clear_at in refl)
    | inr c ↦
        let (j, e) = last_some start end lo r rs o h (ground arith) in
        rw (e, before_split start end lo r rs o h b)
          (clear_at-zero start end (r ∷ rs) j
            ∙ ap (λ t. split_first start (some r) ++ t) (tail_eq start end lo r rs o h e))
  ]

merge_at-reference :
    (lo : ℕ) (rs : List PageRange) (new : PageRange)
    → Ordered lo rs
    → new.start ≤ new.end
    → merge_at rs new (first_in new.start rs) (last_in new.end rs)
      ≡ before new.start rs ++ (new ∷ after new.end rs)
merge_at-reference lo [] new o h = unfold merge_at splice find_first find_last before after in refl
merge_at-reference lo (r ∷ rs) new o h = elim (Bool-cases (ltb r.end new.start)) [
  | inl b ↦
      let b' = ltb→lt _ _ b in
      let (f, l) = before_all new.start new.end lo r rs o h b' in
      rw
        (
          f,
          l,
          before_keep new.start new.end lo r rs o h b',
          after_skip new.start new.end lo r rs o h b',
        )
        (merge_at-cons r new rs (first_in new.start rs) (last_in new.end rs)
          ∙ ap (λ t. r ∷ t) (merge_at-reference (r.end + 1) rs new o.3 h))
  | inr c ↦
      rw (from_first new.start new.end lo r rs o h (ground arith))
        (merge_at_here lo r rs o new h (ground arith))
]

clear_at-reference :
    (lo : ℕ) (rs : List PageRange) (start end : ℕ)
    → Ordered lo rs
    → start ≤ end
    → clear_at rs start end (first_in start rs) (last_in end rs) ≡ before start rs ++ after end rs
clear_at-reference lo [] start end o h = unfold clear_at find_first find_last before after in refl
clear_at-reference lo (r ∷ rs) start end o h = elim (Bool-cases (ltb r.end start)) [
  | inl b ↦
      let b' = ltb→lt _ _ b in
      let (f, l) = before_all start end lo r rs o h b' in
      rw (f, l, before_keep start end lo r rs o h b', after_skip start end lo r rs o h b')
        (clear_at-cons r start end rs (first_in start rs) (last_in end rs)
          ∙ ap (λ t. r ∷ t) (clear_at-reference (r.end + 1) rs start end o.3 h))
  | inr c ↦
      rw (from_first start end lo r rs o h (ground arith))
        (clear_at_here lo r rs o start end h (ground arith))
]

-- On ordered ranges mergeRange, with its binary searches and its splice, returns what lies before
-- the new range, the new range, and what lies behind it. The new range is not empty.
pub merge_range-reference :
    (lo : ℕ) (rs : List PageRange) (new : PageRange)
    → Ordered lo rs
    → new.start ≤ new.end
    → merge_range rs new ≡ ok (before new.start rs ++ (new ∷ after new.end rs))
unfolding merge_range
merge_range-reference lo rs new o h =
    rw (select-find rs new.start new.end h) (ap (λ t. ok t) (merge_at-reference lo rs new o h))

-- On ordered ranges clearRange, with its binary searches and its splice, returns what lies before
-- `start` and what lies behind `end`, where `start` is at most `end`.
pub clear_range-reference :
    (lo : ℕ) (rs : List PageRange) (start end : ℕ)
    → Ordered lo rs
    → start ≤ end
    → clear_range rs start end ≡ ok (before start rs ++ after end rs)
unfolding clear_range
clear_range-reference lo rs start end o h =
    rw (select-find rs start end h) (ap (λ t. ok t) (clear_at-reference lo rs start end o h))
