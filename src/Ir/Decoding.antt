-- ===== src/Ir/Decoding.antt =====
-- src/coda_node/server/ir.py, `from_json`: the circuits that it accepts.
use coda_self_service.Prelude.{
  ◌≡◌, refl, ap, sym, subst, ◌∙◌, ◌↔◌, ℕ, String, true, not, some, List, All, arith, lookup,
  str_eq_iff,
}
use coda_self_service.Prelude.Int.{ℤ, pos, negsuc, lt_int}
use coda_self_service.Effects.{Result, ok}
use coda_self_service.Effects.Results
use coda_self_service.Ir.{
  legal_gates, NativeGateIr, validate_target, validate_consistency, fields_in_bounds, check_shapes,
  validate, from_json,
}
use coda_self_service.Ir.Validity.{
  IsLegal, HasShape, InRange, Between, IsValid, check_shapes_iff, check_gates_iff,
  check_measurements_iff,
}

Between-iff :
    (a b : ℕ) (n : ℤ)
    → ((not (lt_int n (pos a)) ≡ true) × (not (lt_int (pos b) n) ≡ true)) ↔ Between a b n
Between-iff a b (pos n) = ground arith
Between-iff a b (negsuc n) = ground arith

fields_in_bounds_iff :
    (ir : NativeGateIr)
    → (fields_in_bounds ir ≡ true) ↔ (
        (ir.version ≡ "1.0")
        × Between 1 50 ir.num_qubits
        × Between 0 3 ir.metadata.optimization_level)
fields_in_bounds_iff ir = ground (
  arith,
  str_eq_iff ir.version "1.0",
  Between-iff 1 50 ir.num_qubits,
  Between-iff 0 3 ir.metadata.optimization_level,
)

consistent_iff :
    (ir : NativeGateIr) (legal : List String)
    → (validate_consistency ir legal ≡ ok tt)
      ↔ (All (IsLegal legal ir.num_qubits) ir.gates × All (InRange ir.num_qubits) ir.measurements)
unfolding validate_consistency
consistent_iff ir legal =
    Results.then_iff _ _ (check_gates_iff legal ir.target ir.num_qubits 0 ir.gates)
      (check_measurements_iff ir.num_qubits ir.measurements)

validate_target_iff :
    (t : String) (legal : List String)
    → (validate_target t ≡ ok legal) ↔ (lookup t legal_gates ≡ some legal)
unfolding validate_target
validate_target_iff t legal = ground arith

-- what follows the check of the target
rest_iff :
    (ir : NativeGateIr) (legal : List String)
    → (Results.◌>>=◌
          (check_shapes ir.gates)
          (λ _. Results.◌>>=◌ (validate_consistency ir legal) (λ _. ok ir))
        ≡ ok ir)
      ↔ (All HasShape ir.gates
          × ((All (IsLegal legal ir.num_qubits) ir.gates
                × All (InRange ir.num_qubits) ir.measurements)
              × Unit {0}))
rest_iff ir legal =
    Results.then_iff _ _ (check_shapes_iff ir.gates)
      (Results.then_iff _ _ (consistent_iff ir legal) (λ _. tt, λ _. refl))

pub validate_iff : (ir : NativeGateIr) → (validate ir ≡ ok ir) ↔ IsValid ir
unfolding validate
validate_iff ir = (
  λ h.
      let (test, chain) = (Results.require_iff _ _ _ ir (λ c. c, λ c. c)).0 h in
      let (version, num_qubits, level) = (fields_in_bounds_iff ir).0 test in
      let (legal, (target, rest)) = Results.>>=-eq-ok _ _ chain in
      let (shapes, ((gates, measurements), _)) = (rest_iff ir legal).0 rest in
      record {
        version = version;
        num_qubits = num_qubits;
        optimization_level = level;
        legal = legal;
        target = (validate_target_iff ir.target legal).0 target;
        shapes = shapes;
        gates = gates;
        measurements = measurements;
      },
  λ v.
      rw
        (
          (fields_in_bounds_iff ir).1 (v.version, v.num_qubits, v.optimization_level),
          (validate_target_iff ir.target v.legal).1 v.target,
        )
        ((rest_iff ir v.legal).1 (v.shapes, ((v.gates, v.measurements), tt))),
)

-- a chain of checks that ends in `ok a` returns `a`
validate-same : (raw : NativeGateIr) {ir : NativeGateIr} → validate raw ≡ ok ir → raw ≡ ir
unfolding validate
validate-same raw {ir} h = ground arith

pub from_json_sound :
    (decode : String → Result NativeGateIr) (text : String) {ir : NativeGateIr}
    → from_json decode text ≡ ok ir
    → (decode text ≡ ok ir) × IsValid ir
unfolding from_json
from_json_sound decode text {ir} h =
    let (raw, (decoded, validated)) = Results.>>=-eq-ok (decode text) validate h in
    let same = validate-same raw validated in
    (decoded ∙ ap ok same, subst IsValid same ((validate_iff raw).0 (validated ∙ ap ok (sym same))))

from_json_complete :
    (decode : String → Result NativeGateIr) (text : String) {ir : NativeGateIr}
    → decode text ≡ ok ir
    → IsValid ir
    → from_json decode text ≡ ok ir
unfolding from_json
from_json_complete decode text {ir} decoded valid = rw decoded ((validate_iff ir).1 valid)

-- A text is read as a circuit exactly if it decodes to that circuit and every constraint of the format
-- holds of it: version, bounds, a known target, gates with their numbers of qubits and parameters and
-- legal for the target, and all qubits below the number of qubits.
pub from_json_iff :
    (decode : String → Result NativeGateIr) (text : String) (ir : NativeGateIr)
    → (from_json decode text ≡ ok ir) ↔ ((decode text ≡ ok ir) × IsValid ir)
from_json_iff decode text ir =
    (from_json_sound decode text, λ (decoded, valid). from_json_complete decode text decoded valid)
