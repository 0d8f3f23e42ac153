-- ===== src/Methods.antt =====
-- The methods of the stores in src/table and src/queue change their store and may throw, and
-- what they changed before stays changed.
use azurite.Prelude.{Bool, true, false}
use azurite.Errors.{Error, Result, ok, err}

abbrev pub Method : Type 0 → Type 0 → Type 0
Method S A = S → Result A × S

abbrev pub after : {S A B : Type 0} → Result A × S → (A → Method S B) → Result B × S
after (ok a, s) next = next a s
after (err e, s) next = (err e, s)

infixl 5 ◌>>◌ ◌>>=◌
abbrev pub ◌>>=◌ : {S A B : Type 0} → Method S A → (A → Method S B) → Method S B
◌>>=◌ m next s = after (m s) next

abbrev pub ◌>>◌ : {S B : Type 0} → Method S (Unit {0}) → Method S B → Method S B
m >> rest = m >>= λ _. rest

abbrev pub pure : {S A : Type 0} → A → Method S A
pure a s = (ok a, s)

abbrev pub throw : {S A : Type 0} → Error → Method S A
throw e s = (err e, s)

-- `if (b) { … }`
abbrev pub when : {S : Type 0} → Bool → Method S (Unit {0}) → Method S (Unit {0})
when true m = m
when false m = pure tt

-- An assignment to the store's fields.
abbrev pub modify : {S : Type 0} → (S → S) → Method S (Unit {0})
modify f s = (ok tt, f s)

abbrev pub of_result : {S A : Type 0} → Result A → Method S A
of_result r s = (r, s)
