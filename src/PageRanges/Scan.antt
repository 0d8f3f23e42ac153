-- ===== src/PageRanges/Scan.antt =====
-- The binary searches of PageBlobRangesManager find what a scan of the list finds.
use azurite.Prelude.{
  ℕ, zero, suc, ◌+◌, ◌-◌, ◌/◌, ◌≤◌, ◌<◌, ◌≡◌, refl, sym, Bool, Option, none, some, List,
  if◌then◌else◌, arith, length,
}
use native.Mathlib.Nat.{zero-add, add-zero, suc-add, add-suc}
use azurite.PageRanges.Model.{PageRange}
use azurite.PageRanges.Search.{is_first, is_last, test_at, first_between, last_between}

abbrev pub or : Option ℕ → Option ℕ → Option ℕ
or (some i) o = some i
or none o = o

-- The first index from lo on, among n, that passes; and the last.
unfoldable pub scan_first : (ℕ → Bool) → ℕ → ℕ → Option ℕ
scan_first h lo zero = none
scan_first h lo (suc n) = or (if h lo then some lo else none) (scan_first h (suc lo) n)

unfoldable pub scan_last : (ℕ → Bool) → ℕ → ℕ → Option ℕ
scan_last h lo zero = none
scan_last h lo (suc n) = or (scan_last h (suc lo) n) (if h lo then some lo else none)

or_assoc : (a b c : Option ℕ) → or (or a b) c ≡ or a (or b c)
or_assoc (some i) b c = refl
or_assoc none b c = refl

scan_first-add :
    (h : ℕ → Bool) (lo m n : ℕ)
    → scan_first h lo (m + n) ≡ or (scan_first h lo m) (scan_first h (lo + m) n)
unfolding scan_first
scan_first-add h lo zero n = rw (zero-add, add-zero)
scan_first-add h lo (suc m) n =
    rw (suc-add m n, add-suc lo m, ← suc-add lo m) (ground (arith, scan_first-add h (suc lo) m n))

scan_last-add :
    (h : ℕ → Bool) (lo m n : ℕ)
    → scan_last h lo (m + n) ≡ or (scan_last h (lo + m) n) (scan_last h lo m)
unfolding scan_last
scan_last-add h lo zero n = rw (zero-add, add-zero) (ground arith)
scan_last-add h lo (suc m) n =
    rw (suc-add m n, add-suc lo m, ← suc-add lo m) (ground (arith, scan_last-add h (suc lo) m n))

-- A scan of lo … hi - 1 that meets mid on the way.
scan_first-halves :
    (h : ℕ → Bool) (lo mid hi : ℕ)
    → lo ≤ mid
    → mid < hi
    → scan_first h lo (hi - lo)
      ≡ or
          (scan_first h lo (mid - lo))
          (or (if h mid then some mid else none) (scan_first h (mid + 1) (hi - (mid + 1))))
unfolding scan_first
scan_first-halves h lo mid hi p q =
    ground (arith, scan_first-add h lo (mid - lo) (suc (hi - (mid + 1))))

scan_last-halves :
    (h : ℕ → Bool) (lo mid hi : ℕ)
    → lo ≤ mid
    → mid < hi
    → scan_last h lo (hi - lo)
      ≡ or
          (or (scan_last h (mid + 1) (hi - (mid + 1))) (if h mid then some mid else none))
          (scan_last h lo (mid - lo))
unfolding scan_last
scan_last-halves h lo mid hi p q =
    ground (arith, scan_last-add h lo (mid - lo) (suc (hi - (mid + 1))))

scan_first-none : (h : ℕ → Bool) (lo n : ℕ) → n ≡ 0 → scan_first h lo n ≡ none
unfolding scan_first
scan_first-none h lo zero e = refl
scan_first-none h lo (suc n) e = absurd (omega arith)

scan_first_one :
    (h : ℕ → Bool) (lo n : ℕ) → n ≡ 1 → scan_first h lo n ≡ (if h lo then some lo else none)
unfolding scan_first
scan_first_one h lo zero e = absurd (omega arith)
scan_first_one h lo (suc n) e = ground (arith, scan_first-none h (suc lo) n)

scan_last-none : (h : ℕ → Bool) (lo n : ℕ) → n ≡ 0 → scan_last h lo n ≡ none
unfolding scan_last
scan_last-none h lo zero e = refl
scan_last-none h lo (suc n) e = absurd (omega arith)

scan_last_one :
    (h : ℕ → Bool) (lo n : ℕ) → n ≡ 1 → scan_last h lo n ≡ (if h lo then some lo else none)
unfolding scan_last
scan_last_one h lo zero e = absurd (omega arith)
scan_last_one h lo (suc n) e = ground (arith, scan_last-none h (suc lo) n)

module _ (ranges : List PageRange) (p : ℕ) where
  pub first_between_scan :
      (fuel lo hi : ℕ)
      → hi ≤ length ranges
      → hi - lo ≤ fuel
      → first_between fuel ranges lo hi p ≡ scan_first (test_at is_first ranges p) lo (hi - lo)
  unfolding first_between
  first_between_scan zero lo hi b e =
      sym (scan_first-none (test_at is_first ranges p) lo (hi - lo) (omega arith))
  first_between_scan (suc fuel) lo hi b e =
      let h = test_at is_first ranges p in
      let mid = (lo + hi) / 2 in
      ground (
        arith,
        scan_first-none h lo (hi - lo),
        scan_first_one h lo (hi - lo),
        scan_first-halves h lo mid hi,
        first_between_scan fuel lo mid,
        first_between_scan fuel (mid + 1) hi,
      )

  pub last_between_scan :
      (fuel lo hi : ℕ)
      → hi ≤ length ranges
      → hi - lo ≤ fuel
      → last_between fuel ranges lo hi p ≡ scan_last (test_at is_last ranges p) lo (hi - lo)
  unfolding last_between
  last_between_scan zero lo hi b e =
      sym (scan_last-none (test_at is_last ranges p) lo (hi - lo) (omega arith))
  last_between_scan (suc fuel) lo hi b e =
      let h = test_at is_last ranges p in
      let mid = (lo + hi) / 2 in
      ground (
        arith,
        scan_last-none h lo (hi - lo),
        scan_last_one h lo (hi - lo),
        scan_last-halves h lo mid hi,
        last_between_scan fuel lo mid,
        last_between_scan fuel (mid + 1) hi,
      )
