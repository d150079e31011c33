-- ===== src/Effects/Rules.antt =====
-- Reasoning about actions: what an action leaves alone, and what holds after it by its outcome.
use coda_self_service.Prelude.{◌≡◌, refl, subst, ◌∙◌, Bool, true, false, if◌then◌else◌}
use coda_self_service.Effects.Exceptions.{Exc}
use coda_self_service.Effects.Results.{Result, ok, raise}
use coda_self_service.Effects.Actions.{
  Action, continue, restore, catch_with, pure, throw, lift, gets, modify, try, finally, ◌>>=◌,
}

-- `Q` holds of a returned value and the state, `E` of a raised exception and the state.
abbrev pub Outcome {ℓ κ} :
    {S A : Type ℓ} → (A → S → Type κ) → (Exc → S → Type κ) → Result A × S → Type κ
Outcome Q E (ok a, s) = Q a s
Outcome Q E (raise e, s) = E e s

pub record Post {ℓ κ} {S A : Type ℓ} (Q : A → S → Type κ) (E : Exc → S → Type κ) (r : Result A × S)
    : Type κ where
  pub holds : Outcome Q E r

module _ {ℓ κ} {S A B : Type ℓ} {R : A → S → Type κ} {Q : B → S → Type κ}
    {E : Exc → S → Type κ} where
  Post-continue :
      (r : Result A × S) (f : A → Action S B)
      → Post R E r
      → ((a : A) (s : S) → R a s → Post Q E (f a s))
      → Post Q E (continue r f)
  Post-continue (ok a, s) f h k = k a s h.holds
  Post-continue (raise e, s) f h k = record { holds = h.holds }

  -- A step whose raise ends the block, and the rest after its return.
  pub Post-bind :
      (m : Action S A) (f : A → Action S B) (s : S)
      → Post R E (m s)
      → ((a : A) (s : S) → R a s → Post Q E (f a s))
      → Post Q E ((m >>= f) s)
  unfolding ◌>>=◌
  Post-bind m f s h k = Post-continue (m s) f h k

module _ {ℓ κ} {S A : Type ℓ} {Q : A → S → Type κ} {E F : Exc → S → Type κ} where
  Post-catch :
      (r : Result A × S) (handler : Exc → Action S A)
      → Post Q F r
      → ((e : Exc) (s : S) → F e s → Post Q E (handler e s))
      → Post Q E (catch_with r handler)
  Post-catch (ok a, s) f h k = record { holds = h.holds }
  Post-catch (raise e, s) f h k = k e s h.holds

  pub Post-try :
      (m : Action S A) (handler : Exc → Action S A) (s : S)
      → Post Q F (m s)
      → ((e : Exc) (s : S) → F e s → Post Q E (handler e s))
      → Post Q E (try m handler s)
  unfolding try
  Post-try m handler s h k = Post-catch (m s) handler h k

module _ {ℓ κ} {S A : Type ℓ} {Q R : A → S → Type κ} {E F : Exc → S → Type κ} where
  pub Post-weaken :
      (r : Result A × S)
      → Post R F r
      → ((a : A) (s : S) → R a s → Q a s)
      → ((e : Exc) (s : S) → F e s → E e s)
      → Post Q E r
  Post-weaken (ok a, s) h q e = record { holds = q a s h.holds }
  Post-weaken (raise x, s) h q e = record { holds = e x s h.holds }

module _ {ℓ κ} {S A : Type ℓ} {Q : A → S → Type κ} {E : Exc → S → Type κ} where
  pub Post-return : (a : A) (s : S) → Q a s → Post Q E (pure a s)
  unfolding pure
  Post-return a s h = record { holds = h }

  pub Post-gets : (f : S → A) (s : S) → Q (f s) s → Post Q E (gets f s)
  unfolding gets
  Post-gets f s h = record { holds = h }

  pub Post-throw : (e : Exc) (s : S) → E e s → Post Q E (throw e s)
  unfolding throw
  Post-throw e s h = record { holds = h }

  pub Post-if :
      (b : Bool) (m n : Action S A) (s : S)
      → (b ≡ true → Post Q E (m s))
      → (b ≡ false → Post Q E (n s))
      → Post Q E ((if b then m else n) s)
  Post-if true m n s h k = h refl
  Post-if false m n s h k = k refl

module _ {ℓ κ} {S A : Type ℓ} (Q : A → S → Type κ) (E : Exc → S → Type κ) where
  -- What holds whichever way an action ended.
  pub Outcome-both :
      (r : Result A) (s : S) → ((a : A) → Q a s) → ((e : Exc) → E e s) → Outcome Q E (r, s)
  Outcome-both (ok a) s q e = q a
  Outcome-both (raise x) s q e = e x

-- what one shows of the returns, and another of the raises
pub Post-both {ℓ κ} :
    {S A : Type ℓ} {Q R : A → S → Type κ} {E F : Exc → S → Type κ} (r : Result A × S)
    → Post Q F r
    → Post R E r
    → Post Q E r
Post-both (ok a, s) h k = record { holds = h.holds }
Post-both (raise e, s) h k = record { holds = k.holds }

-- what holds of a value that is known to be returned
pub Post_known {ℓ κ} :
    {S A : Type ℓ} {Q : A → S → Type κ} {E : Exc → S → Type κ} (r : Result A × S) (a : A) (s : S)
    → Post Q E r
    → r ≡ (ok a, s)
    → Q a s
Post_known {Q} {E} r a s h e = subst (λ r. Outcome Q E r) e h.holds

-- nothing is said
pub Post-any {ℓ κ} : {S A : Type ℓ} (r : Result A × S) → Post {ℓ, κ} (λ _ _. Unit) (λ _ _. Unit) r
Post-any (ok a, s) = record { holds = tt }
Post-any (raise e, s) = record { holds = tt }

-- what holds by the outcome, and what holds however the action ends
pub Post-and {ℓ κ} :
    {S A : Type ℓ} {Q : A → S → Type κ} {E : Exc → S → Type κ} {P : S → Type κ} (r : Result A × S)
    → Post Q E r
    → P r.1
    → Post (λ a s. Q a s × P s) (λ e s. E e s × P s) r
Post-and (ok a, s) h p = record { holds = (h.holds, p) }
Post-and (raise e, s) h p = record { holds = (h.holds, p) }

module _ {ℓ κ} {S A : Type ℓ} {P : S → Type κ} where
  -- What holds after a return and after a raise holds after the action.
  pub Post_always : (r : Result A × S) → Post (λ _ s. P s) (λ _ s. P s) r → P r.1
  Post_always (ok a, s) h = h.holds
  Post_always (raise e, s) h = h.holds

-- `m` does not change what `view` shows, whether it returns or raises.
pub record Keeps {ℓ κ} {S A : Type ℓ} {V : Type κ} (view : S → V) (m : Action S A)
    : Type (ℓ ⊔ κ) where
  pub at : (s : S) → view (m s).1 ≡ view s

restore-view {ℓ κ} :
    {S A B : Type ℓ} {V : Type κ} (view : S → V) (r : Result B × S) (a : Result A)
    → view (restore r a).1 ≡ view r.1
restore-view view (ok b, s) a = refl
restore-view view (raise e, s) a = refl

module _ {ℓ κ} {S A : Type ℓ} {V : Type κ} {view : S → V} where
  pub Keeps-pure : (a : A) → Keeps view (pure a)
  unfolding pure
  Keeps-pure a = record { at = λ s. refl }

  pub Keeps-throw : (e : Exc) → Keeps view (throw {A = A} e)
  unfolding throw
  Keeps-throw e = record { at = λ s. refl }

  pub Keeps-lift : (r : Result A) → Keeps view (lift r)
  unfolding lift
  Keeps-lift r = record { at = λ s. refl }

  pub Keeps-gets : (f : S → A) → Keeps view (gets f)
  unfolding gets
  Keeps-gets f = record { at = λ s. refl }

  pub Keeps-if :
      (b : Bool) (m n : Action S A) → Keeps view m → Keeps view n → Keeps view (if b then m else n)
  Keeps-if true m n h k = h
  Keeps-if false m n h k = k

  continue-view :
      {B : Type ℓ} (r : Result A × S) (f : A → Action S B)
      → ((a : A) → Keeps view (f a))
      → view (continue r f).1 ≡ view r.1
  continue-view (ok a, s) f k = (k a).at s
  continue-view (raise e, s) f k = refl

  catch_with-view :
      (r : Result A × S) (handler : Exc → Action S A)
      → ((e : Exc) → Keeps view (handler e))
      → view (catch_with r handler).1 ≡ view r.1
  catch_with-view (ok a, s) f k = refl
  catch_with-view (raise e, s) f k = (k e).at s

  pub Keeps-bind :
      {B : Type ℓ} (m : Action S A) (f : A → Action S B)
      → Keeps view m
      → ((a : A) → Keeps view (f a))
      → Keeps view (m >>= f)
  unfolding ◌>>=◌
  Keeps-bind m f h k = record { at = λ s. continue-view (m s) f k ∙ h.at s }

  pub Keeps-try :
      (m : Action S A) (handler : Exc → Action S A)
      → Keeps view m
      → ((e : Exc) → Keeps view (handler e))
      → Keeps view (try m handler)
  unfolding try
  Keeps-try m handler h k = record { at = λ s. catch_with-view (m s) handler k ∙ h.at s }

  pub Keeps-finally :
      {B : Type ℓ} (m : Action S A) (last : Action S B)
      → Keeps view m
      → Keeps view last
      → Keeps view (finally m last)
  unfolding finally
  Keeps-finally m last h k = record {
    at = λ s. restore-view view (last (m s).1) (m s).0 ∙ k.at (m s).1 ∙ h.at s;
  }

pub Keeps-modify {κ} :
    {S : Type 0} {V : Type κ} {view : S → V} (f : S → S)
    → ((s : S) → view (f s) ≡ view s)
    → Keeps view (modify f)
unfolding modify
Keeps-modify f h = record { at = h }

pub Post-modify {κ} :
    {S : Type 0} {Q : Unit {0} → S → Type κ} {E : Exc → S → Type κ} (f : S → S) (s : S)
    → Q tt (f s)
    → Post Q E (modify f s)
unfolding modify
Post-modify f s h = record { holds = h }

-- with its value written: every value of `Unit` is equal to `tt`, so none would be found
pub Keeps-pure_tt {κ} :
    {S : Type 0} {V : Type κ} {view : S → V} → Keeps view (pure {S = S} {A = Unit {0}} tt)
Keeps-pure_tt = Keeps-pure tt

module _ {ℓ κ} {S A : Type ℓ} {V : Type κ} {view : S → V} where
  pub Post-Keeps :
      (m : Action S A) (s : S)
      → Keeps view m
      → Post (λ _ s'. view s' ≡ view s) (λ _ s'. view s' ≡ view s) (m s)
  Post-Keeps m s h = kept (m s) (h.at s)
    where
      kept :
          (r : Result A × S)
          → view r.1 ≡ view s
          → Post (λ _ s'. view s' ≡ view s) (λ _ s'. view s' ≡ view s) r
      kept (ok a, t) e = record { holds = e }
      kept (raise x, t) e = record { holds = e }

module _ {ℓ κ} {S A B : Type ℓ} {Q : A → S → Type κ} {E : Exc → S → Type κ} where
  Post-restore :
      (r : Result A) (last : Result B × S)
      → Post (λ _ s. Outcome Q E (r, s)) E last
      → Post Q E (restore last r)
  Post-restore r (ok b, s) h = record { holds = h.holds }
  Post-restore r (raise e, s) h = record { holds = h.holds }

  -- The last block, started in the state that the first left.
  pub Post-finally :
      (m : Action S A) (last : Action S B) (s : S)
      → Post (λ _ s'. Outcome Q E ((m s).0, s')) E (last (m s).1)
      → Post Q E (finally m last s)
  unfolding finally
  Post-finally m last s h = Post-restore (m s).0 (last (m s).1) h

pub ruleset keeps_rules = (
  Keeps-pure_tt, Keeps-pure, Keeps-throw, Keeps-lift, Keeps-gets, Keeps-if, Keeps-bind, Keeps-try,
  Keeps-finally,
)
