-- ===== src/Effects/Parts.antt =====
-- An action of one part of a larger state.
use coda_self_service.Effects.Exceptions.{Exc}
use coda_self_service.Effects.Results.{Result, ok, raise}
use coda_self_service.Effects.Actions.{Action}
use coda_self_service.Effects.Rules.{Post}

unfoldable pub within : {S V A : Type 0} → (S → V) → (V → S → S) → Action V A → Action S A
within get put m s = let (r, v) = m (get s) in (r, put v s)

-- what holds of the part holds of the whole
pub Post-within :
    {S V A : Type 0} (get : S → V) (put : V → S → S) (m : Action V A) (s : S) {Q : A → V → Type 0}
    {E : Exc → V → Type 0} {R : A → S → Type 0} {F : Exc → S → Type 0}
    → Post Q E (m (get s))
    → ((a : A) (v : V) → Q a v → R a (put v s))
    → ((e : Exc) (v : V) → E e v → F e (put v s))
    → Post R F (within get put m s)
unfolding within
Post-within {S} {V} {A} get put m s {Q} {E} {R} {F} h q f = go (m (get s)) h
  where
    go : (r : Result A × V) → Post Q E r → Post R F (r.0, put r.1 s)
    go (ok a, v) h = record { holds = q a v h.holds }
    go (raise e, v) h = record { holds = f e v h.holds }
