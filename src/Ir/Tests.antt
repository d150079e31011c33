-- ===== src/Ir/Tests.antt =====
-- A circuit of two gates that is accepted, and one that is not.
use coda_self_service.Prelude.{◌↔◌, ◌≡◌, refl, String, [], ◌∷◌, arith, lookup}
use coda_self_service.Prelude.Int.{pos}
use coda_self_service.Effects.{Result, ok}
use coda_self_service.Ir.{NativeGateIr, rx, cz, from_json, legal_gates}
use coda_self_service.Ir.Validity.{IsValid}
use coda_self_service.Ir.Decoding.{from_json_iff}

abbrev two_gates : NativeGateIr
two_gates = record {
  version = "1.0";
  target = "cz";
  num_qubits = pos 2;
  gates =
      record { gate = rx; qubits = pos 1 ∷ []; params = record { bits = 7 } ∷ [] }
      ∷ record { gate = cz; qubits = pos 0 ∷ pos 1 ∷ []; params = [] }
      ∷ [];
  measurements = pos 1 ∷ [];
  metadata = record {
    source_hash = "abc";
    compiled_at = "2026-01-01";
    compiler_version = "0.1.0";
    optimization_level = pos 2;
  };
}

abbrev decode : String → Result NativeGateIr
decode _ = ok two_gates

two_gates-IsValid : IsValid two_gates
unfolding legal_gates lookup
two_gates-IsValid = record {
  version = refl;
  num_qubits = (omega arith, omega arith);
  optimization_level = (omega arith, omega arith);
  legal = "rx" ∷ "ry" ∷ "rz" ∷ "cz" ∷ "id" ∷ [];
  target = refl;
  shapes = ((refl, refl), ((refl, refl), tt));
  gates = ((refl, (omega arith, tt)), ((refl, (omega arith, (omega arith, tt))), tt));
  measurements = (omega arith, tt);
}

from_json_iff_example :
    (from_json decode "{}" ≡ ok two_gates) ↔ ((decode "{}" ≡ ok two_gates) × IsValid two_gates)
from_json_iff_example = from_json_iff decode "{}" two_gates

two_gates_accepted : from_json decode "{}" ≡ ok two_gates
two_gates_accepted = (from_json_iff decode "{}" two_gates).1 (refl, two_gates-IsValid)
