-- ===== src/Dates.antt =====
-- JavaScript dates, and minDate of src/common/utils/utils.ts. A Date is `date` of its milliseconds,
-- or the invalid date that arithmetic on undefined or a time out of range gives, whose comparisons
-- are all false.
use azurite.Prelude.{ℕ, ltb, leb, ◌+◌, ◌*◌, ◌/◌, Bool, false, not, if◌then◌else◌}
use azurite.Prelude.Int.{ℤ, pos, negsuc, ltb_ℤ}

pub data Date : Type 0 where
  date : ℤ → Date
  invalid_date : Date

-- The last time that JavaScript has a date for; the first one is as far from 0.
abbrev pub max_time : ℕ
max_time = 8640000000000000

-- `new Date(time)`
unfoldable pub new_date : ℤ → Date
new_date (pos n) = if leb n max_time then date (pos n) else invalid_date
new_date (negsuc n) = if ltb n max_time then date (negsuc n) else invalid_date

-- `a < b` and `a >= b` on dates.
abbrev pub before : Date → Date → Bool
before (date a) (date b) = ltb_ℤ a b
before (date a) invalid_date = false
before invalid_date b = false

abbrev pub not_before : Date → Date → Bool
not_before (date a) (date b) = not (ltb_ℤ a b)
not_before (date a) invalid_date = false
not_before invalid_date b = false

abbrev pub min_date : Date → Date → Date
min_date date1 date2 = if before date2 date1 then date2 else date1

-- `seconds * 1000`
abbrev pub millis : ℤ → ℤ
millis (pos n) = pos (n * 1000)
millis (negsuc n) = negsuc (n * 1000 + 999)

-- `setMilliseconds(0)`
abbrev pub to_second : Date → Date
to_second (date (pos n)) = date (pos (n / 1000 * 1000))
to_second (date (negsuc n)) = date (negsuc (n / 1000 * 1000 + 999))
to_second invalid_date = invalid_date
