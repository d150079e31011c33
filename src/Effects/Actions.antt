-- ===== src/Effects/Actions.antt =====
-- The actions and their combinators. They are shut; whoever unfolds `◌>>=◌` unfolds them all.
use coda_self_service.Prelude.{Bool, if◌then◌else◌}
use coda_self_service.Effects.Exceptions.{Exc}
use coda_self_service.Effects.Results.{Result, ok, raise}

abbrev pub Action {ℓ} : Type ℓ → Type ℓ → Type ℓ
Action S A = S → Result A × S

module _ {ℓ} {S A : Type ℓ} where
  unfoldable pub pure : A → Action S A
  pure a s = (ok a, s)

  unfoldable pub throw : Exc → Action S A
  throw e s = (raise e, s)

  unfoldable pub lift : Result A → Action S A
  lift r s = (r, s)

  unfoldable pub gets : (S → A) → Action S A
  gets f s = (ok (f s), s)

  abbrev pub catch_with : Result A × S → (Exc → Action S A) → Result A × S
  catch_with (ok a, s) handler = (ok a, s)
  catch_with (raise e, s) handler = handler e s

  -- `try: m` with `except` clauses, which `handler` tells apart
  unfoldable pub try : Action S A → (Exc → Action S A) → Action S A
  try m handler s = catch_with (m s) handler

module _ {ℓ} {S A B : Type ℓ} where
  abbrev pub restore : Result B × S → Result A → Result A × S
  restore (ok _, s) r = (r, s)
  restore (raise e, s) r = (raise e, s)

  -- `try: m finally: last`; an exception of `last` replaces the outcome of `m`
  unfoldable pub finally : Action S A → Action S B → Action S A
  finally m last s = let (r, s') = m s in restore (last s') r

-- `self.field = …`
unfoldable pub modify : {S : Type 0} → (S → S) → Action S (Unit {0})
modify f s = (ok tt, f s)

-- a statement under `if`, with no `else`
abbrev pub when : {S : Type 0} → Bool → Action S (Unit {0}) → Action S (Unit {0})
when b m = if b then m else pure tt

module _ {ℓ} {S A B : Type ℓ} where
  abbrev pub continue : Result A × S → (A → Action S B) → Result B × S
  continue (ok a, s) f = f a s
  continue (raise e, s) f = (raise e, s)

  infixl 5 ◌>>=◌ ◌>>◌
  unfoldable pub ◌>>=◌ : Action S A → (A → Action S B) → Action S B
  unfolding pure throw lift gets try finally modify
  ◌>>=◌ m f s = continue (m s) f

  abbrev pub ◌>>◌ : Action S A → Action S B → Action S B
  m >> n = m >>= λ _. n
