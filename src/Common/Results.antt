-- ===== src/Common/Results.antt =====
-- A Go result `(T, error)`, of which callers read the value only without an error.
use mathlib.Core.Path.{◌≡◌, refl}
use mathlib.Core.Logic.{◌⊎◌, inl, inr}
use mathlib.Core.List.{List, [], ◌∷◌}

pub data Result {ℓ κ} (E : Type ℓ) (A : Type κ) : Type (ℓ ⊔ κ) where
  ok : A → Result E A
  err : E → Result E A

-- `abbrev`, so that `ok a >>= f` computes wherever it stands.
infixl 5 ◌>>=◌
abbrev pub ◌>>=◌ {ℓ κ μ} :
    {E : Type ℓ} {A : Type κ} {B : Type μ} → Result E A → (A → Result E B) → Result E B
ok a >>= f = f a
err e >>= f = err e

-- `fmt.Errorf("...: %w", err)`: the same value, the error inside another.
abbrev pub map_err {ℓ κ μ} :
    {E : Type ℓ} {E' : Type κ} {A : Type μ} → (E → E') → Result E A → Result E' A
map_err f (ok a) = ok a
map_err f (err e) = err (f e)

-- `return value, errors.Join(errs...)`, which is no error exactly if `errs` is empty.
abbrev pub joined {ℓ κ} : {E : Type ℓ} {A : Type κ} → A → List E → Result (List E) A
joined a [] = ok a
joined a (e ∷ es) = err (e ∷ es)

pub joined-eq-ok {ℓ κ} :
    {E : Type ℓ} {A : Type κ} (a b : A) (es : List E) → joined a es ≡ ok b → (es ≡ []) × (a ≡ b)
joined-eq-ok a b [] h = (refl, cc)
joined-eq-ok a b (e ∷ es) h = cc

pub Result-cases {ℓ κ} :
    {E : Type ℓ} {A : Type κ} (r : Result E A) → ((e : E) × (r ≡ err e)) ⊎ ((a : A) × (r ≡ ok a))
Result-cases (err e) = inl (e, refl)
Result-cases (ok a) = inr (a, refl)

-- A chain gives a value exactly if each of its links does.
pub >>=-eq-ok {ℓ κ μ} :
    {E : Type ℓ} {A : Type κ} {B : Type μ} (m : Result E A) (k : A → Result E B) {b : B}
    → m >>= k ≡ ok b
    → (a : A) × (m ≡ ok a) × (k a ≡ ok b)
>>=-eq-ok (ok a) k h = (a, refl, h)
>>=-eq-ok (err e) k h = cc

pub map_err-eq-ok {ℓ κ μ} :
    {E : Type ℓ} {E' : Type κ} {A : Type μ} (f : E → E') (m : Result E A) {a : A}
    → map_err f m ≡ ok a
    → m ≡ ok a
map_err-eq-ok f (ok b) h = cc
map_err-eq-ok f (err e) h = cc

pub >>=-ok {ℓ κ μ} :
    {E : Type ℓ} {A : Type κ} {B : Type μ} (m : Result E A) (k : A → Result E B) {a : A}
    {r : Result E B}
    → m ≡ ok a
    → k a ≡ r
    → m >>= k ≡ r
>>=-ok (ok b) k h g = cc
>>=-ok (err e) k h g = cc

pub ok-injective {ℓ κ} :
    {E : Type ℓ} {A : Type κ} {a b : A} → ◌≡◌ {A = Result E A} (ok a) (ok b) → a ≡ b
ok-injective h = cc
