-- ===== src/Common/Results.antt =====
-- Python code that may raise: a value or the exception. A method that also changes its object
-- returns the new state beside either, since what was written before a raise stays written.
use mathlib.Core.Path.{◌≡◌, refl, subst}
use mathlib.Core.Bool.{Bool, true, false}
use mathlib.Core.Option.{Option, some}
use mathlib.Core.Logic.{◌⊎◌, inl, inr}

pub data Result {ℓ κ} (E : Type ℓ) (A : Type κ) : Type (ℓ ⊔ κ) where
  ok : A → Result E A
  raise : E → Result E A

infixl 5 ◌>>=◌ ◌>>◌
abbrev pub ◌>>=◌ {ℓ κ μ} :
    {E : Type ℓ} {A : Type κ} {B : Type μ} → Result E A → (A → Result E B) → Result E B
ok a >>= f = f a
raise e >>= f = raise e

abbrev pub ◌>>◌ {ℓ κ μ} :
    {E : Type ℓ} {A : Type κ} {B : Type μ} → Result E A → Result E B → Result E B
m >> k = m >>= λ _. k

-- `if b: raise e`
abbrev pub raise_if {ℓ} : {E : Type ℓ} → Bool → E → Result E (Unit {0})
raise_if true e = raise e
raise_if false e = ok tt

pub raise_if-false {ℓ} :
    {E : Type ℓ} (b : Bool) (e : E) {u : Unit {0}} → raise_if b e ≡ ok u → b ≡ false
raise_if-false true e h = absurd cc
raise_if-false false e h = refl

-- What holds of a value that is returned; a raise is allowed.
abbrev pub OnOk {ℓ κ μ} : {E : Type ℓ} {A : Type κ} → (A → Type μ) → Result E A → Type μ
OnOk P (ok a) = P a
OnOk P (raise e) = Unit

pub OnOk-bind {ℓ κ μ ν} :
    {E : Type ℓ} {A : Type κ} {B : Type μ} (P : B → Type ν) (m : Result E A) (f : A → Result E B)
    → ((a : A) → m ≡ ok a → OnOk P (f a))
    → OnOk P (m >>= f)
OnOk-bind P (ok a) f h = h a refl
OnOk-bind P (raise e) f h = tt

pub OnOk_at {ℓ κ μ} :
    {E : Type ℓ} {A : Type κ} (P : A → Type μ) (m : Result E A) {a : A} → OnOk P m → m ≡ ok a → P a
OnOk_at P (ok b) {a} h e = let i : b ≡ a = cc in subst P i h
OnOk_at P (raise _) h e = cc

pub Result-cases {ℓ κ} :
    {E : Type ℓ} {A : Type κ} (m : Result E A) → ((a : A) × (m ≡ ok a)) ⊎ ((e : E) × (m ≡ raise e))
Result-cases (ok a) = inl (a, refl)
Result-cases (raise e) = inr (e, refl)

-- The same for a method that also returns its new state.
pub run-cases {ℓ κ μ} :
    {E : Type ℓ} {A : Type κ} {S : Type μ} (m : Result E A × S)
    → ((a : A) × (s : S) × (m ≡ (ok a, s))) ⊎ ((e : E) × (s : S) × (m ≡ (raise e, s)))
run-cases (ok a, s) = inl (a, s, refl)
run-cases (raise e, s) = inr (e, s, refl)

-- A block that returns has returned from each of its steps.
pub bind-eq-ok {ℓ κ μ} :
    {E : Type ℓ} {A : Type κ} {B : Type μ} (first : Result E A) (next : A → Result E B) {y : B}
    → (first >>= next) ≡ ok y
    → (x : A) × (first ≡ ok x) × (next x ≡ ok y)
bind-eq-ok (ok x) next run = (x, refl, run)
bind-eq-ok (raise e) next run = cc

pub bind-of-ok {ℓ κ μ} :
    {E : Type ℓ} {A : Type κ} {B : Type μ} (first : Result E A) (next : A → Result E B) {x : A}
    → first ≡ ok x
    → (first >>= next) ≡ next x
bind-of-ok first next run = rw run refl

pub ok-injective {ℓ κ} :
    {E : Type ℓ} {A : Type κ} {a b : A} → ◌≡◌ {A = Result E A} (ok a) (ok b) → a ≡ b
ok-injective h = cc

pub ok-some_injective {ℓ κ} :
    {E : Type ℓ} {A : Type κ} {a b : A}
    → ◌≡◌ {A = Result E (Option A)} (ok (some a)) (ok (some b))
    → a ≡ b
ok-some_injective h = cc
