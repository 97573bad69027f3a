-- ===== src/Common/Results.antt =====
-- Rust's `Result`, with the error type of the module that uses it.
use mathlib.Core.Path.{◌≡◌, refl}
use mathlib.Core.Logic.{◌⊎◌, inl, inr}
use mathlib.Core.Bool.{Bool, true, false}
use mathlib.Core.Option.{Option, none, some}

pub data Result {ℓ κ} (E : Type ℓ) (A : Type κ) : Type (ℓ ⊔ κ) where
  ok : A → Result E A
  err : E → Result E A

infixl 5 ◌>>=◌ ◌>>◌
abbrev pub ◌>>=◌ {ℓ κ μ} :
    {E : Type ℓ} {A : Type κ} {B : Type μ} → Result E A → (A → Result E B) → Result E B
ok a >>= f = f a
err e >>= f = err e

abbrev pub ◌>>◌ {ℓ κ} : {E : Type ℓ} {B : Type κ} → Result E (Unit {0}) → Result E B → Result E B
m >> k = m >>= λ _. k

-- `if bad { return Err(e) }`
abbrev pub fail_if {ℓ} : {E : Type ℓ} → Bool → E → Result E (Unit {0})
fail_if true e = err e
fail_if false e = ok tt

abbrev pub ok_or {ℓ κ} : {E : Type ℓ} {A : Type κ} → Option A → E → Result E A
ok_or none e = err e
ok_or (some a) e = ok a

pub Result-cases {ℓ κ} :
    {E : Type ℓ} {A : Type κ} (r : Result E A) → ((a : A) × (r ≡ ok a)) ⊎ ((e : E) × (r ≡ err e))
Result-cases (ok a) = inl (a, refl)
Result-cases (err e) = inr (e, refl)

-- What holds of a result that is not an error.
abbrev pub WhenOk {ℓ κ μ} : {E : Type ℓ} {A : Type κ} → (A → Type μ) → Result E A → Type μ
WhenOk P (ok a) = P a
WhenOk P (err e) = Unit

pub WhenOk-bind {ℓ κ μ ν ι} :
    {E : Type ℓ} {A : Type κ} {B : Type μ} (P : A → Type ν) (Q : B → Type ι) (r : Result E A)
    (f : A → Result E B)
    → WhenOk P r
    → ((a : A) → P a → WhenOk Q (f a))
    → WhenOk Q (r >>= f)
WhenOk-bind P Q (ok a) f p next = next a p
WhenOk-bind P Q (err e) f p next = tt

pub WhenOk-fail_if {ℓ κ μ} :
    {E : Type ℓ} {B : Type κ} (Q : B → Type μ) (bad : Bool) (e : E) (r : Result E B)
    → (bad ≡ false → WhenOk Q r)
    → WhenOk Q (fail_if bad e >> r)
WhenOk-fail_if Q true e r h = tt
WhenOk-fail_if Q false e r h = h refl

pub WhenOk-weaken {ℓ κ μ ν} :
    {E : Type ℓ} {A : Type κ} (P : A → Type μ) (Q : A → Type ν)
    → ((a : A) → P a → Q a)
    → (r : Result E A) → WhenOk P r
    → WhenOk Q r
WhenOk-weaken P Q f (ok a) p = f a p
WhenOk-weaken P Q f (err e) p = tt

-- That a result is not an error, and what holds of it.
abbrev pub Gives {ℓ κ} : {E : Type ℓ} {A : Type κ} → (A → Type 0) → Result E A → Type 0
Gives P (ok a) = P a
Gives P (err e) = ⊥

pub Gives-bind {ℓ κ μ} :
    {E : Type ℓ} {A : Type κ} {B : Type μ} (P : A → Type 0) (Q : B → Type 0) (r : Result E A)
    (f : A → Result E B)
    → Gives P r
    → ((a : A) → P a → Gives Q (f a))
    → Gives Q (r >>= f)
Gives-bind P Q (ok a) f p next = next a p
Gives-bind P Q (err e) f p next = absurd p

pub Gives-fail_if {ℓ κ} :
    {E : Type ℓ} {B : Type κ} (Q : B → Type 0) (bad : Bool) (e : E) (r : Result E B)
    → bad ≡ false
    → Gives Q r
    → Gives Q (fail_if bad e >> r)
Gives-fail_if Q true e r h p = absurd cc
Gives-fail_if Q false e r h p = p
