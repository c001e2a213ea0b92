-- ===== src/Common/Results.antt =====
-- What a call of a script's function comes to: a value, or a thrown error.
use mathlib.Core.Logic.{◌⊎◌, inl, inr}
use mathlib.Core.Path.{◌≡◌, refl}

pub data Outcome {ℓ κ} (E : Type ℓ) (A : Type κ) : Type (ℓ ⊔ κ) where
  ok : A → Outcome E A
  err : E → Outcome E A

infixl 5 ◌>>=◌
abbrev pub ◌>>=◌ {ℓ κ μ} :
    {E : Type ℓ} {A : Type κ} {B : Type μ} → Outcome E A → (A → Outcome E B) → Outcome E B
ok a >>= f = f a
err e >>= f = err e

pub bind-eq-ok {ℓ κ μ} :
    {E : Type ℓ} {A : Type κ} {B : Type μ} (m : Outcome E A) (f : A → Outcome E B) {b : B}
    → (m >>= f) ≡ ok b
    → (a : A) × (m ≡ ok a) × (f a ≡ ok b)
bind-eq-ok (ok a) f h = (a, refl, h)
bind-eq-ok (err e) f h = cc

pub Outcome-cases {ℓ κ} :
    {E : Type ℓ} {A : Type κ} (o : Outcome E A) → ((a : A) × (o ≡ ok a)) ⊎ ((e : E) × (o ≡ err e))
Outcome-cases (ok a) = inl (a, refl)
Outcome-cases (err e) = inr (e, refl)

pub bind_assoc {ℓ κ μ ν} :
    {E : Type ℓ} {A : Type κ} {B : Type μ} {C : Type ν} (m : Outcome E A) (f : A → Outcome E B)
    (g : B → Outcome E C)
    → ((m >>= f) >>= g) ≡ (m >>= λ a. f a >>= g)
bind_assoc (ok a) f g = refl
bind_assoc (err e) f g = refl

pub bind-ok {ℓ κ} : {E : Type ℓ} {A : Type κ} (m : Outcome E A) → (m >>= λ a. ok a) ≡ m
bind-ok (ok a) = refl
bind-ok (err e) = refl
