-- ===== src/Effects/Results.antt =====
-- Pure functions that may raise.
use coda_self_service.Prelude.{ℕ, ◌^◌, ◌≡◌, refl, subst, ◌↔◌, Bool, true, false, ltb, if◌then◌else◌}
use coda_self_service.Effects.Exceptions.{Exc, overflow_error}

pub data Result {ℓ} (A : Type ℓ) : Type ℓ where
  ok : A → Result A
  raise : Exc → Result A

infixl 5 ◌>>=◌
abbrev pub ◌>>=◌ {ℓ κ} : {A : Type ℓ} {B : Type κ} → Result A → (A → Result B) → Result B
raise error >>= next = raise error
ok value >>= next = next value

-- A chain that returns has a first part that returns.
pub >>=-eq-ok {ℓ κ} :
    {A : Type ℓ} {B : Type κ} (first : Result A) (next : A → Result B) {out : B}
    → (first >>= next) ≡ ok out
    → (value : A) × ((first ≡ ok value) × (next value ≡ ok out))
>>=-eq-ok (raise error) next returns = cc
>>=-eq-ok (ok value) next returns = (value, (refl, returns))

pub >>=_assoc {ℓ κ μ} :
    {A : Type ℓ} {B : Type κ} {C : Type μ} (first : Result A) (f : A → Result B) (g : B → Result C)
    → (first >>= λ a. f a >>= g) ≡ (first >>= f >>= g)
>>=_assoc (ok a) f g = refl
>>=_assoc (raise e) f g = refl

-- a test that must fail, and then the rest
pub guard_iff :
    {P Q : Type 0} (b : Bool) (e : Exc) (m : Result (Unit {0}))
    → (b ≡ false) ↔ P
    → (m ≡ ok tt) ↔ Q
    → ((if b then raise e else m) ≡ ok tt) ↔ (P × Q)
guard_iff true e m p q = (λ h. cc h, λ (x, _). cc (p.1 x))
guard_iff false e m p q = (λ h. (p.0 refl, q.0 h), λ (_, y). q.1 y)

-- a test that must succeed, and then the rest
pub require_iff :
    {Q A : Type 0} (b : Bool) (e : Exc) (m : Result A) (a : A)
    → (m ≡ ok a) ↔ Q
    → ((if b then m else raise e) ≡ ok a) ↔ ((b ≡ true) × Q)
require_iff true e m a q = (λ h. (refl, q.0 h), λ (_, y). q.1 y)
require_iff false e m a q = (λ h. cc h, λ (x, _). cc x)

-- one check and then another
pub then_iff :
    {P Q A : Type 0} {m : Result (Unit {0})} (n : Result A) (a : A)
    → (m ≡ ok tt) ↔ P
    → (n ≡ ok a) ↔ Q
    → ((m >>= λ _. n) ≡ ok a) ↔ (P × Q)
then_iff {m = ok tt} n a p q = (λ h. (p.0 refl, q.0 h), λ (_, y). q.1 y)
then_iff {m = raise e} n a p q = (λ h. cc h, λ (x, _). cc (p.1 x))

-- `2.0 ** n`, exact in floats; from 2.0 ** 1024 on Python raises OverflowError.
unfoldable pub float_pow_two : ℕ → Result ℕ
float_pow_two n = if ltb n 1024 then ok (2 ^ n) else raise overflow_error

abbrev Returned {ℓ κ} : {A : Type ℓ} → (A → Type κ) → Result A → Type κ
Returned P (ok a) = P a
Returned P (raise e) = Unit

-- What holds of a value, if one is returned.
pub record Sound {ℓ κ} {A : Type ℓ} (P : A → Type κ) (r : Result A) : Type κ where
  pub returned : Returned P r

pub Sound-raise {ℓ κ} : {A : Type ℓ} {P : A → Type κ} (e : Exc) → Sound P (raise e)
Sound-raise e = record { returned = tt }

pub Sound-return {ℓ κ} : {A : Type ℓ} {P : A → Type κ} (a : A) → P a → Sound P (ok a)
Sound-return a h = record { returned = h }

pub Sound-always {ℓ} : {A : Type ℓ} (r : Result A) → Sound (λ _. Unit {0}) r
Sound-always (ok a) = Sound-return a tt
Sound-always (raise e) = Sound-raise e

pub Sound-from {ℓ κ} :
    {A : Type ℓ} {P : A → Type κ} (r : Result A) → ((a : A) → r ≡ ok a → P a) → Sound P r
Sound-from (ok a) h = Sound-return a (h a refl)
Sound-from (raise e) h = Sound-raise e

module _ {ℓ κ} {A : Type ℓ} {P : A → Type κ} where
  pub Sound-bind {μ ν} :
      {B : Type μ} {Q : B → Type ν} (r : Result B) (f : B → Result A)
      → Sound Q r
      → ((b : B) → Q b → Sound P (f b))
      → Sound P (r >>= f)
  Sound-bind (ok b) f q h = h b q.returned
  Sound-bind (raise e) f q h = Sound-raise e

  pub Sound-if :
      (b : Bool) (r t : Result A)
      → (b ≡ true → Sound P r)
      → (b ≡ false → Sound P t)
      → Sound P (if b then r else t)
  Sound-if true r t h k = h refl
  Sound-if false r t h k = k refl

  pub Sound-ok : {r : Result A} {a : A} → Sound P r → r ≡ ok a → P a
  Sound-ok h e = (subst (Sound P) e h).returned
