-- ===== src/Ir.antt =====
-- src/coda_node/server/ir.py: the native-gate IR and its validators. Pydantic's JSON decoding and its
-- checks of field types are a parameter, `decode`; the bounds of `Field` and the validators are here.
mod Gates
pub mod Validity
pub mod Decoding
mod Tests
unfoldable pub use Gates.*
use coda_self_service.Prelude.{
  ℕ, ◌+◌, String, ◌<>◌, Bool, true, false, ◌&&◌, ◌||◌, not, Option, none, some, List, [], ◌∷◌,
  length, contains, lookup, str_eq, ◌==◌, ltb, if◌then◌else◌,
}
use coda_self_service.Prelude.Int.{ℤ, pos, lt_int}
use coda_self_service.Prelude.Text.{str_int, str_nat}
use coda_self_service.Effects.{Result, ok, raise, value_error}
use coda_self_service.Effects.Results.{◌>>=◌}

-- A float is its 64-bit pattern: the runtime only passes floats on.
pub record Float : Type 0 where
  pub bits : ℕ

pub record GateOp : Type 0 where
  pub gate : NativeGate
  pub qubits : List ℤ
  pub params : List Float

pub record IrMetadata : Type 0 where
  pub source_hash : String
  pub compiled_at : String
  pub compiler_version : String
  pub optimization_level : ℤ

pub record NativeGateIr : Type 0 where
  pub version : String
  pub target : String
  pub num_qubits : ℤ
  pub gates : List GateOp
  pub measurements : List ℤ
  pub metadata : IrMetadata

-- `GateOp.validate_gate_shape`
unfoldable pub check_params : GateOp → ℕ → Result (Unit {0})
check_params op expected =
    if length op.params == expected
    then ok tt
    else raise (
        value_error (
          "Gate "
          <> gate_value op.gate
          <> " requires "
          <> str_nat expected
          <> " param(s), got "
          <> str_nat (length op.params)))

unfoldable pub check_shape : GateOp → Option GateSpec → Result (Unit {0})
check_shape op none = ok tt
check_shape op (some spec) =
    if length op.qubits == spec.qubits
    then check_params op spec.params
    else raise (
        value_error (
          "Gate "
          <> gate_value op.gate
          <> " requires "
          <> str_nat spec.qubits
          <> " qubit(s), got "
          <> str_nat (length op.qubits)))

unfoldable pub validate_gate_shape : GateOp → Result (Unit {0})
validate_gate_shape op = check_shape op (lookup (gate_value op.gate) gate_specs)

-- `qubit < 0 or qubit >= self.num_qubits`
abbrev pub out_of_range : ℤ → ℤ → Bool
out_of_range num_qubits q = lt_int q (pos 0) || not (lt_int q num_qubits)

-- The inner loop over `op.qubits`, for the gate at `index`.
unfoldable pub check_qubits : ℤ → ℕ → List ℤ → Result (Unit {0})
check_qubits n index [] = ok tt
check_qubits n index (q ∷ qs) =
    if out_of_range n q
    then raise (
        value_error (
          "Qubit "
          <> str_int q
          <> " out of range [0, "
          <> str_int n
          <> ") at gate index "
          <> str_nat index))
    else check_qubits n index qs

-- The loop over `enumerate(self.gates)`.
unfoldable pub check_gates : List String → String → ℤ → ℕ → List GateOp → Result (Unit {0})
check_gates legal target n index [] = ok tt
check_gates legal target n index (op ∷ ops) =
    if contains legal (gate_value op.gate)
    then (check_qubits n index op.qubits >>= λ _. check_gates legal target n (index + 1) ops)
    else raise (
        value_error (
          "Gate '"
          <> gate_value op.gate
          <> "' not legal for target '"
          <> target
          <> "' at index "
          <> str_nat index))

unfoldable pub check_measurements : ℤ → List ℤ → Result (Unit {0})
check_measurements n [] = ok tt
check_measurements n (q ∷ qs) =
    if out_of_range n q
    then raise (
        value_error ("Measurement qubit " <> str_int q <> " out of range [0, " <> str_int n <> ")"))
    else check_measurements n qs

-- `validate_target`
unfoldable pub validate_target : String → Result (List String)
validate_target value = elim (lookup value legal_gates) [
  | none ↦
      raise
        (value_error ("Unknown target '" <> value <> "'. Valid: ['cz', 'iswap', 'pcz', 'cnot']"))
  | some legal ↦ ok legal
]

-- `validate_consistency`, over the gate set that the target has
unfoldable pub validate_consistency : NativeGateIr → List String → Result (Unit {0})
validate_consistency ir legal = check_gates legal ir.target ir.num_qubits 0 ir.gates >>= λ _.
    check_measurements ir.num_qubits ir.measurements

-- `version: Literal["1.0"]`, `num_qubits: int = Field(ge=1, le=50)`, `optimization_level` in [0, 3]
abbrev pub fields_in_bounds : NativeGateIr → Bool
fields_in_bounds ir =
    str_eq ir.version "1.0"
    && not (lt_int ir.num_qubits (pos 1))
    && not (lt_int (pos 50) ir.num_qubits)
    && not (lt_int ir.metadata.optimization_level (pos 0))
    && not (lt_int (pos 3) ir.metadata.optimization_level)

unfoldable pub check_shapes : List GateOp → Result (Unit {0})
check_shapes [] = ok tt
check_shapes (op ∷ ops) = validate_gate_shape op >>= λ _. check_shapes ops

-- Construction of a `NativeGateIR`: the fields, the operations among them, then the model validator.
unfoldable pub validate : NativeGateIr → Result NativeGateIr
validate ir =
    if fields_in_bounds ir
    then (validate_target ir.target >>= λ legal.
        check_shapes ir.gates >>= λ _. validate_consistency ir legal >>= λ _. ok ir)
    else raise (value_error "field out of bounds")

-- `from_json`; `decode` is pydantic's reading of the text
unfoldable pub from_json : (String → Result NativeGateIr) → String → Result NativeGateIr
from_json decode text = decode text >>= validate
