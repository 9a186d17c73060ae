-- ===== src/Prelude/Results.antt =====
-- A Go call that returns a value or an error.

use mathlib.Core.Bool.{Bool, true, false}
use mathlib.Core.Option.{Option, none, some}
use mathlib.Core.Path.{◌≡◌, refl, ap, sym, ◌∙◌}
use mathlib.Core.Logic.{◌⊎◌, inl, inr}

pub data Result {ℓ κ} (E : Type ℓ) (A : Type κ) : Type (ℓ ⊔ κ) where
  ok : A → Result E A
  err : E → Result E A

infixl 5 ◌>>=◌ ◌>>◌
abbrev pub ◌>>=◌ {ℓ κ μ} :
    {E : Type ℓ} {A : Type κ} {B : Type μ} → Result E A → (A → Result E B) → Result E B
ok a >>= f = f a
err e >>= f = err e

abbrev pub ◌>>◌ {ℓ μ} : {E : Type ℓ} {B : Type μ} → Result E (Unit {0}) → Result E B → Result E B
m >> k = m >>= λ _. k

-- `if !b { return e }`.
abbrev pub guard {ℓ} : {E : Type ℓ} → Bool → E → Result E (Unit {0})
guard true e = ok tt
guard false e = err e

abbrev pub or_fail {ℓ κ} : {E : Type ℓ} {A : Type κ} → Option A → E → Result E A
or_fail none e = err e
or_fail (some a) e = ok a

-- The value of a success.
from_ok {ℓ κ} : {E : Type ℓ} {A : Type κ} → A → Result E A → A
from_ok a (ok b) = b
from_ok a (err e) = a

pub same_ok {ℓ κ} :
    {E : Type ℓ} {A : Type κ} {x : Result E A} {a b : A} → x ≡ ok a → x ≡ ok b → a ≡ b
unfolding from_ok
same_ok {a = a} g h = ap (from_ok a) (sym g ∙ h)

pub not_ok_and_err {ℓ κ μ} :
    {E : Type ℓ} {A : Type κ} {Q : Type μ} {x : Result E A} {a : A} {e : E}
    → x ≡ ok a
    → x ≡ err e
    → Q
not_ok_and_err g h = absurd cc

pub Result-cases {ℓ κ} :
    {E : Type ℓ} {A : Type κ} (x : Result E A) → ((a : A) × (x ≡ ok a)) ⊎ ((e : E) × (x ≡ err e))
Result-cases (ok a) = inl (a, refl)
Result-cases (err e) = inr (e, refl)

pub or_fail-some {ℓ κ} :
    {E : Type ℓ} {A : Type κ} (o : Option A) (e : E) {a : A} → or_fail o e ≡ ok a → o ≡ some a
or_fail-some none e h = cc
or_fail-some (some b) e h = ap some (same_ok refl h)

-- The steps of a call that succeeds succeed.
pub bind-ok {ℓ κ μ} :
    {E : Type ℓ} {A : Type κ} {B : Type μ} (m : Result E A) {f : A → Result E B} {b : B}
    → (m >>= f) ≡ ok b
    → (a : A) × (m ≡ ok a) × (f a ≡ ok b)
bind-ok (ok a) h = (a, refl, h)
bind-ok (err e) h = cc

pub guard-ok {ℓ μ} :
    {E : Type ℓ} {B : Type μ} (c : Bool) (e : E) {k : Result E B} {b : B}
    → (guard c e >> k) ≡ ok b
    → (c ≡ true) × (k ≡ ok b)
guard-ok true e h = (refl, h)
guard-ok false e h = cc
