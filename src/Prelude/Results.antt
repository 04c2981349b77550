-- ===== src/Prelude/Results.antt =====
-- Go's `(T, error)`: a value or an error, with the steps that return at the first error.
use mathlib.Core.Path.{◌≡◌, refl, subst}
use mathlib.Core.Bool.{Bool, true, false}

pub data Result {ℓ} (E : Type ℓ) (A : Type ℓ) : Type ℓ where
  ok : A → Result E A
  err : E → Result E A

infixl 5 ◌>>=◌ ◌>>◌
abbrev pub ◌>>=◌ {ℓ} : {E A B : Type ℓ} → Result E A → (A → Result E B) → Result E B
ok a >>= f = f a
err e >>= f = err e

abbrev pub ◌>>◌ {ℓ} : {E B : Type ℓ} → Result E (Unit {ℓ}) → Result E B → Result E B
m >> k = m >>= λ _. k

-- `if !b { return e }`
abbrev pub ensure {ℓ} : {E : Type ℓ} → Bool → E → Result E (Unit {ℓ})
ensure true e = ok tt
ensure false e = err e

-- What holds of the value, if there is one.
abbrev pub Ensures {ℓ κ} : {E A : Type ℓ} → (A → Type κ) → Result E A → Type κ
Ensures P (ok a) = P a
Ensures P (err e) = Unit

pub Ensures-bind {ℓ κ} :
    {E A B : Type ℓ} (P : A → Type κ) (Q : B → Type κ) (m : Result E A) (f : A → Result E B)
    → Ensures P m
    → ((a : A) → P a → Ensures Q (f a))
    → Ensures Q (m >>= f)
Ensures-bind P Q (ok a) f h k = k a h
Ensures-bind P Q (err e) f h k = tt

pub Ensures-ensure {ℓ κ} :
    {E A : Type ℓ} (Q : A → Type κ) (b : Bool) (e : E) (k : Result E A)
    → (b ≡ true → Ensures Q k)
    → Ensures Q (ensure b e >> k)
Ensures-ensure Q true e k h = h refl
Ensures-ensure Q false e k h = tt

pub Ensures-eq {ℓ κ} :
    {E A : Type ℓ} (P : A → Type κ) (m : Result E A) {a : A} → Ensures P m → m ≡ ok a → P a
Ensures-eq P (ok a) h e = subst P (cc) h
Ensures-eq P (err e') h e = cc

pub Ensures-all {ℓ κ} :
    {E A : Type ℓ} (P : A → Type κ) (m : Result E A) → ((a : A) → P a) → Ensures P m
Ensures-all P (ok a) h = h a
Ensures-all P (err e) h = tt

pub Ensures-map {ℓ κ μ} :
    {E A : Type ℓ} (P : A → Type κ) (Q : A → Type μ) (m : Result E A)
    → ((a : A) → P a → Q a)
    → Ensures P m
    → Ensures Q m
Ensures-map P Q (ok a) f h = f a h
Ensures-map P Q (err e) f h = tt

pub Ensures-step {ℓ κ} :
    {E A B : Type ℓ} (Q : B → Type κ) (m : Result E A) (f : A → Result E B)
    → ((a : A) → Ensures Q (f a))
    → Ensures Q (m >>= f)
Ensures-step Q (ok a) f k = k a
Ensures-step Q (err e) f k = tt

pub Ensures-guard {ℓ κ} :
    {E : Type ℓ} (P : Type κ) (b : Bool) (e : E) → (b ≡ true → P) → Ensures (λ _. P) (ensure b e)
Ensures-guard P true e h = h refl
Ensures-guard P false e h = tt
