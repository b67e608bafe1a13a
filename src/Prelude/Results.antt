-- ===== src/Prelude/Results.antt =====
-- Fallible code: Rust's `Result`, with its `?` as `do`.
use mathlib.Core.Path.{◌≡◌, refl, subst}
use native.Mathlib.Omega.{arith}
use mathlib.Core.Logic.{◌⊎◌, inl, inr}

pub data Result {ℓ κ} (E : Type ℓ) (A : Type κ) : Type (ℓ ⊔ κ) where
  ok : A → Result E A
  err : E → Result E A

infixl 5 ◌>>=◌
abbrev pub ◌>>=◌ {ℓ κ μ} :
    {E : Type ℓ} {A : Type κ} {B : Type μ} → Result E A → (A → Result E B) → Result E B
ok a >>= f = f a
err e >>= f = err e

pub Result-cases {ℓ κ} :
    {E : Type ℓ} {A : Type κ} (r : Result E A) → ((a : A) × (r ≡ ok a)) ⊎ ((e : E) × (r ≡ err e))
Result-cases (ok a) = inl (a, refl)
Result-cases (err e) = inr (e, refl)

pub bind-ok {ℓ κ μ} :
    {E : Type ℓ} {A : Type κ} {B : Type μ} (r : Result E A) (f : A → Result E B) (b : B)
    → (r >>= f) ≡ ok b
    → (a : A) × (r ≡ ok a) × (f a ≡ ok b)
bind-ok (ok a) f b h = (a, refl, h)
bind-ok (err e) f b h = absurd (ground arith)

-- What holds of a success, or of a failure.
abbrev pub Holds {ℓ κ μ} :
    {E : Type ℓ} {A : Type κ} → (A → Type μ) → (E → Type μ) → Result E A → Type μ
Holds P Q (ok a) = P a
Holds P Q (err e) = Q e

pub Holds-bind {ℓ κ μ ν} :
    {E : Type ℓ} {A : Type κ} {B : Type ν} (P : A → Type μ) (P' : B → Type μ) (Q : E → Type μ)
    (r : Result E A) (f : A → Result E B)
    → Holds P Q r
    → ((a : A) → P a → Holds P' Q (f a))
    → Holds P' Q (r >>= f)
Holds-bind P P' Q (ok a) f h k = k a h
Holds-bind P P' Q (err e) f h k = h

pub Holds-weaken {ℓ κ μ} :
    {E : Type ℓ} {A : Type κ} (P P' : A → Type μ) (Q : E → Type μ) (r : Result E A)
    → Holds P Q r
    → ((a : A) → P a → P' a)
    → Holds P' Q r
Holds-weaken P P' Q (ok a) h f = f a h
Holds-weaken P P' Q (err e) h f = h

pub Holds-ok {ℓ κ μ} :
    {E : Type ℓ} {A : Type κ} (P : A → Type μ) (Q : E → Type μ) (r : Result E A) (a : A)
    → Holds P Q r
    → r ≡ ok a
    → P a
Holds-ok P Q r a h e = subst (Holds P Q) e h

pub Holds-any {ℓ κ} :
    {E : Type ℓ} {A : Type κ} (r : Result E A) → Holds (λ a. Unit {0}) (λ e. Unit {0}) r
Holds-any (ok a) = tt
Holds-any (err e) = tt
