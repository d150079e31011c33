-- ===== src/Consumer/Loop/Draining.antt =====
-- src/coda_node/server/consumer.py, `drain`: what its answer says.
use coda_self_service.Prelude.{◌≡◌, Bool, true, false, none}
use coda_self_service.Consumer.State.{World}

abbrev Anything {ℓ} : {A : Type ℓ} → A → World → Type 0
Anything _ _ = Unit

-- what the answer says: no delivery is pending, or nothing
abbrev pub Drained : Bool → World → Type 0
Drained true t = t.pending_batch_delivery ≡ none
Drained false t = Unit
