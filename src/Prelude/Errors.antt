-- ===== src/Prelude/Errors.antt =====
-- Go's pair of a value and an `error`: a value, or the reason that there is none.
use mathlib.Core.Path.{◌≡◌, refl}
use mathlib.Core.Logic.{◌⊎◌, inl, inr}
use mathlib.Core.Bool.{Bool, true, false}
use mathlib.Core.Option.{Option, none, some}

pub data Result {ℓ κ} (E : Type ℓ) (A : Type κ) : Type (ℓ ⊔ κ) where
  ok : A → Result E A
  err : E → Result E A

infixl 5 ◌>>=◌ ◌>>◌
abbrev pub ◌>>=◌ {ℓ} : {E A B : Type ℓ} → Result E A → (A → Result E B) → Result E B
ok a >>= f = f a
err e >>= f = err e

abbrev pub ◌>>◌ {ℓ} : {E B : Type ℓ} → Result E (Unit {ℓ}) → Result E B → Result E B
m >> k = m >>= λ _. k

pub >>=-eq-ok {ℓ} :
    {E A B : Type ℓ} (first : Result E A) (next : A → Result E B) {end : B}
    → (first >>= next) ≡ ok end
    → (mid : A) × (first ≡ ok mid) × (next mid ≡ ok end)
>>=-eq-ok (err e) next h = cc
>>=-eq-ok (ok mid) next h = (mid, refl, h)

-- An error seen by a caller that renames it.
abbrev pub or_fail {ℓ κ} : {E : Type ℓ} {A : Type κ} → E → Option A → Result E A
or_fail e none = err e
or_fail e (some a) = ok a

pub Result-cases {ℓ κ} :
    {E : Type ℓ} {A : Type κ} (r : Result E A) → ((a : A) × (r ≡ ok a)) ⊎ ((e : E) × (r ≡ err e))
Result-cases (ok a) = inl (a, refl)
Result-cases (err e) = inr (e, refl)

-- An error of a callee under the caller's name for it.
abbrev pub wrap_error {ℓ} : {E F A : Type ℓ} → (E → F) → Result E A → Result F A
wrap_error f (ok a) = ok a
wrap_error f (err e) = err (f e)

pub >>=-eq-err {ℓ} :
    {E A B : Type ℓ} (m : Result E A) (f : A → Result E B) {e : E}
    → (m >>= f) ≡ err e
    → (m ≡ err e) ⊎ ((a : A) × (f a ≡ err e))
>>=-eq-err (ok a) f h = inr (a, h)
>>=-eq-err (err x) f {e} h = inl (cc)

pub wrap_error-eq-err {ℓ} :
    {E F A : Type ℓ} (g : E → F) (r : Result E A) {e : F}
    → wrap_error g r ≡ err e
    → (x : E) × (e ≡ g x)
wrap_error-eq-err g (ok a) h = cc
wrap_error-eq-err g (err x) h = (x, cc)

-- `if !b { return e }`
abbrev pub require {ℓ} : {E : Type ℓ} → Bool → E → Result E (Unit {0})
require true e = ok tt
require false e = err e

pub wrap_error-eq-ok {ℓ} :
    {E F A : Type ℓ} (g : E → F) (r : Result E A) {a : A} → wrap_error g r ≡ ok a → r ≡ ok a
wrap_error-eq-ok g (ok b) h = cc
wrap_error-eq-ok g (err x) h = cc

pub require-eq-ok {ℓ} :
    {E : Type ℓ} (b : Bool) (e : E) {u : Unit {0}} → require b e ≡ ok u → b ≡ true
require-eq-ok true e h = refl
require-eq-ok false e h = cc

pub or_fail-eq-ok {ℓ κ} :
    {E : Type ℓ} {A : Type κ} (e : E) (o : Option A) {a : A} → or_fail e o ≡ ok a → o ≡ some a
or_fail-eq-ok e none h = cc
or_fail-eq-ok e (some b) h = cc

pub ok_inj {ℓ κ} : {E : Type ℓ} {A : Type κ} {a b : A} → ◌≡◌ {A = Result E A} (ok a) (ok b) → a ≡ b
ok_inj h = cc

pub err_not_ok {ℓ κ} :
    {E : Type ℓ} {A : Type κ} {e : E} {a : A} → ◌≡◌ {A = Result E A} (err e) (ok a) → ⊥
err_not_ok h = cc
