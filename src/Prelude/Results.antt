-- ===== src/Prelude/Results.antt =====
-- Code that may raise: a value, or the error that was raised.
use mathlib.Core.Path.{◌≡◌, refl, subst}
use mathlib.Core.Logic.{◌⊎◌, inl, inr}
use mathlib.Core.Option.{Option, none, some}
use mathlib.Core.Bool.{Bool, true, false}
use httk_store.Prelude.Tests.{if◌then◌else◌}

pub data Result {ℓ} (E : Type 0) (A : Type ℓ) : Type ℓ where
  ok : A → Result E A
  err : E → Result E A

infixl 5 ◌>>=◌ ◌>>◌
abbrev pub ◌>>=◌ {ℓ κ} :
    {E : Type 0} {A : Type ℓ} {B : Type κ} → Result E A → (A → Result E B) → Result E B
ok a >>= f = f a
err e >>= f = err e

abbrev pub ◌>>◌ {ℓ} : {E : Type 0} {B : Type ℓ} → Result E (Unit {0}) → Result E B → Result E B
m >> k = m >>= λ _. k

-- A missing value raises.
abbrev pub or_raise {ℓ} : {E : Type 0} {A : Type ℓ} → Option A → E → Result E A
or_raise none e = err e
or_raise (some a) e = ok a

pub Result-cases {ℓ} :
    {E : Type 0} {A : Type ℓ} (r : Result E A) → ((a : A) × (r ≡ ok a)) ⊎ ((e : E) × (r ≡ err e))
Result-cases (ok a) = inl (a, refl)
Result-cases (err e) = inr (e, refl)

pub ok-injective {ℓ} :
    {E : Type 0} {A : Type ℓ} {a b : A} → ◌≡◌ {A = Result E A} (ok a) (ok b) → a ≡ b
ok-injective h = cc

-- Inversion of a successful bind.
pub >>=-eq-ok {ℓ κ} :
    {E : Type 0} {A : Type ℓ} {B : Type κ} (first : Result E A) (next : A → Result E B) {out : B}
    → (first >>= next) ≡ ok out
    → (x : A) × (first ≡ ok x) × (next x ≡ ok out)
>>=-eq-ok (ok x) next done = (x, refl, done)
>>=-eq-ok (err e) next done = cc

-- A bind keeps its result where each continuation does.
pub >>=-mono {ℓ κ} :
    {E : Type 0} {A : Type ℓ} {B : Type κ} (m : Result E A) (f g : A → Result E B) {b : B}
    → ((a : A) → f a ≡ ok b → g a ≡ ok b)
    → (m >>= f) ≡ ok b
    → (m >>= g) ≡ ok b
>>=-mono (ok a) f g k h = k a h
>>=-mono (err e) f g k h = cc

-- A postcondition of a result, and its rule for a bind.
abbrev pub Post {ℓ κ} : {E : Type 0} {A : Type ℓ} → (A → Type κ) → Result E A → Type (ℓ ⊔ κ)
Post {A = A} P r = (a : A) → r ≡ ok a → P a

pub Post-bind {ℓ κ μ} :
    {E : Type 0} {A : Type ℓ} {B : Type κ} (P : B → Type μ) (m : Result E A) (f : A → Result E B)
    → ((a : A) → m ≡ ok a → Post P (f a))
    → Post P (m >>= f)
Post-bind P (ok a) f k b h = k a refl b h
Post-bind P (err e) f k b h = absurd (cc h)

pub Post-ok {ℓ κ} : {E : Type 0} {A : Type ℓ} (P : A → Type κ) (a : A) → P a → Post {E = E} P (ok a)
Post-ok {E = E} P a p b h = subst P (ok-injective {E = E} h) p

pub Post-if {ℓ κ} :
    {E : Type 0} {A : Type ℓ} (P : A → Type κ) (b : Bool) (r s : Result E A)
    → Post P r
    → Post P s
    → Post P (if b then r else s)
Post-if P true r s k h = k
Post-if P false r s k h = h

pub >>=-ok {ℓ} : {E : Type 0} {A : Type ℓ} (m : Result E A) → (m >>= λ a. ok a) ≡ m
>>=-ok (ok a) = refl
>>=-ok (err e) = refl

pub >>=-step {ℓ κ} :
    {E : Type 0} {A : Type ℓ} {B : Type κ} (m : Result E A) (f : A → Result E B) {a : A}
    {r : Result E B}
    → m ≡ ok a
    → f a ≡ r
    → (m >>= f) ≡ r
>>=-step m f h k = rw h k
