-- ===== src/Config/Precedence.antt =====
-- src/coda_node/server/config.py, `merge_persisted_runtime_config`: which value a setting gets.
use coda_self_service.Prelude.{◌≡◌, Option, none, some, [], ◌∷◌, lookup, if◌then◌else◌}
use coda_self_service.Values.{Value, Dict}
use coda_self_service.Config.Persisted.{is_unset}

-- each key once, as in a Python dictionary
abbrev pub Distinct : Dict → Type 0
Distinct [] = Unit
Distinct ((key, value) ∷ dict) = (lookup key dict ≡ none) × Distinct dict

-- the value given, unless it is not set and there is a persisted one
abbrev pub preferred : Option Value → Option Value → Option Value
preferred given none = given
preferred given (some persisted) = if is_unset given then some persisted else given
