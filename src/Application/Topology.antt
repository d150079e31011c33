-- ===== src/Application/Topology.antt =====
-- src/coda_node/server/device_topology.py: the connectivity of a device.
use coda_self_service.Prelude.{Option, none, some, List, [], ◌∷◌}
use coda_self_service.Prelude.Int.{ℤ}
use coda_self_service.Effects.{Result, ok}
use coda_self_service.Effects.Results.{◌>>=◌}

pub record DeviceSpec : Type 0 where
  -- `getattr(device_spec, "directed_edges", None)`, and the attribute `logical_edges`
  pub directed_edges : Option (List (List ℤ))
  pub logical_edges : Result (List (List ℤ))

abbrev edges_or : Option (List (List ℤ)) → Result (List (List ℤ)) → Result (List (List ℤ))
edges_or none logical = logical
edges_or (some []) logical = logical
edges_or (some (edge ∷ edges)) logical = ok (edge ∷ edges)

-- `resolve_connectivity_from_device_spec`
unfoldable pub resolve_connectivity : Option DeviceSpec → Result (Option (List (List ℤ)))
resolve_connectivity none = ok none
resolve_connectivity (some spec) =
    edges_or spec.directed_edges spec.logical_edges >>= λ edges. ok (some edges)
