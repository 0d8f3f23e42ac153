-- ===== src/Prelude/Maps.antt =====
-- JavaScript's Map with string keys, as the list of its entries in insertion order. A key stands in
-- one entry, so that the first entry of a key is all there is of it.
use azurite.Prelude.{
  ℕ, ◌+◌, ◌≡◌, refl, true, false, Bool-cases, inl, inr, String, Option, none, some, List, [], ◌∷◌,
  arith, if◌then◌else◌, str_eq, eq_iff,
}
use mathlib.Core.Path.{subst}

unfoldable pub get {ℓ} : {A : Type ℓ} → List (String × A) → String → Option A
get [] k = none
get ((j, a) ∷ m) k = if str_eq j k then some a else get m k

-- `set` replaces the value of a key in its place, and puts a new key at the end.
unfoldable pub set {ℓ} : {A : Type ℓ} → List (String × A) → String → A → List (String × A)
set [] k a = (k, a) ∷ []
set ((j, b) ∷ m) k a = let rest = set m k a in if str_eq j k then (j, a) ∷ m else (j, b) ∷ rest

unfoldable pub delete {ℓ} : {A : Type ℓ} → List (String × A) → String → List (String × A)
delete [] k = []
delete ((j, b) ∷ m) k = let rest = delete m k in if str_eq j k then m else (j, b) ∷ rest

-- The sum of a weight over the values.
abbrev pub total {ℓ} : {A : Type ℓ} → (A → ℕ) → List (String × A) → ℕ
total w [] = 0
total w ((j, a) ∷ m) = w a + total w m

abbrev pub weight {ℓ} : {A : Type ℓ} → (A → ℕ) → Option A → ℕ
weight w none = 0
weight w (some a) = w a

abbrev pub AllValues {ℓ} : {A : Type ℓ} → (A → Type 0) → List (String × A) → Type 0
AllValues P [] = Unit
AllValues P ((j, a) ∷ m) = P a × AllValues P m

pub total-set {ℓ} :
    {A : Type ℓ} (w : A → ℕ) (m : List (String × A)) (k : String) (a : A)
    → total w (set m k a) + weight w (get m k) ≡ total w m + w a
unfolding get set
total-set w [] k a = omega arith
total-set w ((j, b) ∷ m) k a = ground (arith, total-set w m k a)

pub total-delete {ℓ} :
    {A : Type ℓ} (w : A → ℕ) (m : List (String × A)) (k : String)
    → total w (delete m k) + weight w (get m k) ≡ total w m
unfolding get delete
total-delete w [] k = omega arith
total-delete w ((j, b) ∷ m) k = ground (arith, total-delete w m k)

pub set-AllValues {ℓ} :
    {A : Type ℓ} (P : A → Type 0) (m : List (String × A)) (k : String) (a : A)
    → AllValues P m
    → P a
    → AllValues P (set m k a)
unfolding set
set-AllValues P [] k a v p = (p, tt)
set-AllValues P ((j, b) ∷ m) k a v p = elim (Bool-cases (str_eq j k)) [
  | inl e ↦ rw e (p, v.1)
  | inr e ↦ rw e (v.0, set-AllValues P m k a v.1 p)
]

pub delete-AllValues {ℓ} :
    {A : Type ℓ} (P : A → Type 0) (m : List (String × A)) (k : String)
    → AllValues P m
    → AllValues P (delete m k)
unfolding delete
delete-AllValues P [] k v = tt
delete-AllValues P ((j, b) ∷ m) k v = elim (Bool-cases (str_eq j k)) [
  | inl e ↦ rw e v.1
  | inr e ↦ rw e (v.0, delete-AllValues P m k v.1)
]

get_head {ℓ} :
    {A : Type ℓ} (m : List (String × A)) (j k : String) (a b : A)
    → str_eq j k ≡ true
    → get ((j, b) ∷ m) k ≡ some a
    → b ≡ a
unfolding get
get_head m j k a b h e = ground arith

get_tail {ℓ} :
    {A : Type ℓ} (m : List (String × A)) (j k : String) (a b : A)
    → str_eq j k ≡ false
    → get ((j, b) ∷ m) k ≡ some a
    → get m k ≡ some a
unfolding get
get_tail m j k a b h e = ground arith

pub get-AllValues {ℓ} :
    {A : Type ℓ} (P : A → Type 0) (m : List (String × A)) (k : String) (a : A)
    → AllValues P m
    → get m k ≡ some a
    → P a
get-AllValues P [] k a v e = absurd (unfold get in ground arith)
get-AllValues P ((j, b) ∷ m) k a v e = elim (Bool-cases (str_eq j k)) [
  | inl h ↦ subst P (get_head m j k a b h e) v.0
  | inr h ↦ get-AllValues P m k a v.1 (get_tail m j k a b h e)
]

pub get-set {ℓ} :
    {A : Type ℓ} (m : List (String × A)) (k j : String) (a : A)
    → get (set m k a) j ≡ (if str_eq k j then some a else get m j)
unfolding get set
get-set [] k j a = refl
get-set ((i, b) ∷ m) k j a = ground (arith, get-set m k j a, eq_iff i k, eq_iff k j, eq_iff i j)
