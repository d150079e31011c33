-- ===== src/Effects/Fuel.antt =====
-- Two ways to go on that agree where they are reached: what a loop on fuel does with more fuel.
use coda_self_service.Prelude.{◌≡◌, refl, Bool, true, false, if◌then◌else◌}
use coda_self_service.Effects.Results.{Result, ok, raise}
use coda_self_service.Effects.Actions.{Action, continue}

module _ {ℓ} {S : Type ℓ} where
  pub continue-agree :
      {A B : Type ℓ} (r : Result A) (u : S) (f g : Action S B)
      → f u ≡ g u
      → continue (r, u) (λ _. f) ≡ continue (r, u) (λ _. g)
  continue-agree (ok a) u f g h = h
  continue-agree (raise e) u f g h = refl

  pub if-agree :
      {A : Type ℓ} (b : Bool) (m n k : Action S A) (s : S)
      → (b ≡ true → m s ≡ n s)
      → (if b then m else k) s ≡ (if b then n else k) s
  if-agree true m n k s h = h refl
  if-agree false m n k s h = refl
