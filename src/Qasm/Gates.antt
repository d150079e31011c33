-- ===== src/Qasm/Gates.antt =====
-- src/coda_node/server/qasm.py: the mapping of gates, in both directions. Reading and printing of floats
-- is the parameter `Floats`.
use coda_self_service.Prelude.{
  String, ◌<>◌, Bool, true, false, Option, none, some, List, [], ◌∷◌, map, lookup, str_eq,
  if◌then◌else◌,
}
use coda_self_service.Prelude.Int.{ℤ}
use coda_self_service.Prelude.Text.{str_int}
use coda_self_service.Prelude.Lines.{join}
use coda_self_service.Effects.{qasm_error, other_error, Result, ok, raise}
use coda_self_service.Effects.Results.{◌>>=◌}
use coda_self_service.Ir.{
  Float, NativeGate, rx, ry, rz, cz, id, x90, y_minus_90, virtual_z, cnot, gate_value, GateOp,
  validate_gate_shape,
}

pub record Floats : Type 0 where
  -- `float(s)`, of which `none` is the ValueError; `str(x)`; `f"{x:.15g}"`
  pub parse : String → Option Float
  pub show : Float → String
  pub format : Float → String
  -- `-_HALF_PI`, and `math.isclose(x, -_HALF_PI, rel_tol=1e-12, abs_tol=1e-12)`
  pub minus_half_pi : Float
  pub is_minus_half_pi : Float → Bool
  pub zero_float : Float

-- `GateOp(gate=…, qubits=…, params=…)`
unfoldable pub gate_op : NativeGate → List ℤ → List Float → Result GateOp
gate_op gate qubits params =
    let op : GateOp = record { gate = gate; qubits = qubits; params = params } in
    validate_gate_shape op >>= λ _. ok op

unfoldable pub cz_map : List (String × (NativeGate × Bool))
cz_map =
    ("rx", (rx, true))
    ∷ ("ry", (ry, true))
    ∷ ("rz", (rz, true))
    ∷ ("cz", (cz, false))
    ∷ ("id", (id, false))
    ∷ []

unfoldable pub cnot_simple : List (String × (NativeGate × Bool))
cnot_simple =
    ("sx", (x90, false))
    ∷ ("rz", (virtual_z, true))
    ∷ ("cx", (cnot, false))
    ∷ ("id", (id, false))
    ∷ []

abbrev pub bare : String → String → String
bare name qubits_str = name <> " " <> qubits_str <> ";"

abbrev pub qubit_text : ℤ → String
qubit_text q = "q[" <> str_int q <> "]"

module _ (floats : Floats) where
  -- the operation for an entry of these tables
  unfoldable pub mapped : NativeGate × Bool → List Float → List ℤ → Result GateOp
  mapped (id, has_params) params qubits = gate_op id qubits (floats.zero_float ∷ [])
  mapped (gate, has_params) params qubits = gate_op gate qubits (if has_params then params else [])

  -- `_openqasm_gate_to_ir_cz`
  unfoldable pub openqasm_gate_to_ir_cz : String → List Float → List ℤ → Result GateOp
  openqasm_gate_to_ir_cz name params qubits = elim (lookup name cz_map) [
    | none ↦ raise (qasm_error ("Gate '" <> name <> "' not supported for cz"))
    | some entry ↦ mapped entry params qubits
  ]

  unfoldable pub ry_to_ir : List Float → List ℤ → Result GateOp
  ry_to_ir (angle ∷ []) qubits =
      if floats.is_minus_half_pi angle
      then gate_op y_minus_90 qubits []
      else raise (
          qasm_error (
            "ry("
            <> floats.show angle
            <> ") not representable in cnot (only ry(-π/2) maps to y_minus_90)"))
  ry_to_ir params qubits = raise (qasm_error "Gate 'ry' not supported for cnot")

  -- `_openqasm_gate_to_ir_cnot`
  unfoldable pub openqasm_gate_to_ir_cnot : String → List Float → List ℤ → Result GateOp
  openqasm_gate_to_ir_cnot name params qubits = elim (lookup name cnot_simple) [
    | some entry ↦ mapped entry params qubits
    | none ↦
        if str_eq name "ry"
        then ry_to_ir params qubits
        else raise (qasm_error ("Gate '" <> name <> "' not supported for cnot"))
  ]

  -- `_openqasm_gate_to_ir`
  unfoldable pub openqasm_gate_to_ir : String → List Float → List ℤ → String → Result GateOp
  openqasm_gate_to_ir name params qubits target =
      if str_eq target "cz"
      then openqasm_gate_to_ir_cz name params qubits
      else if str_eq target "cnot"
      then openqasm_gate_to_ir_cnot name params qubits
      else raise (qasm_error ("Unsupported target: " <> target))

  abbrev pub instruction : String → List Float → String → String
  instruction name params qubits_str =
      name <> "(" <> join ", " (map floats.format params) <> ") " <> qubits_str <> ";"

  unfoldable pub first_angle : List Float → String → Result String
  first_angle [] qubits_str =
      raise (qasm_error "IR gate 'virtual_z' requires exactly one parameter")
  first_angle (angle ∷ params) qubits_str = ok (instruction "rz" (angle ∷ []) qubits_str)

  -- `_ir_gate_to_openqasm_cz`
  unfoldable pub ir_gate_to_openqasm_cz : NativeGate → List Float → String → Result String
  ir_gate_to_openqasm_cz rx params qubits_str = ok (instruction "rx" params qubits_str)
  ir_gate_to_openqasm_cz ry params qubits_str = ok (instruction "ry" params qubits_str)
  ir_gate_to_openqasm_cz rz params qubits_str = ok (instruction "rz" params qubits_str)
  ir_gate_to_openqasm_cz virtual_z params qubits_str = first_angle params qubits_str
  ir_gate_to_openqasm_cz cz params qubits_str = ok (bare "cz" qubits_str)
  ir_gate_to_openqasm_cz id params qubits_str = ok (bare "id" qubits_str)
  ir_gate_to_openqasm_cz gate params qubits_str =
      raise (qasm_error ("IR gate '" <> gate_value gate <> "' has no OpenQASM mapping for cz"))

  -- `params[0]` of an empty list is an IndexError
  unfoldable pub indexed_angle : List Float → String → Result String
  indexed_angle [] qubits_str = raise (other_error "list index out of range")
  indexed_angle (angle ∷ params) qubits_str = ok (instruction "rz" (angle ∷ []) qubits_str)

  -- `_ir_gate_to_openqasm_cnot`
  unfoldable pub ir_gate_to_openqasm_cnot : NativeGate → List Float → String → Result String
  ir_gate_to_openqasm_cnot x90 params qubits_str = ok (bare "sx" qubits_str)
  ir_gate_to_openqasm_cnot y_minus_90 params qubits_str =
      ok (instruction "ry" (floats.minus_half_pi ∷ []) qubits_str)
  ir_gate_to_openqasm_cnot virtual_z params qubits_str = indexed_angle params qubits_str
  ir_gate_to_openqasm_cnot cnot params qubits_str = ok (bare "cx" qubits_str)
  ir_gate_to_openqasm_cnot id params qubits_str = ok (bare "id" qubits_str)
  ir_gate_to_openqasm_cnot gate params qubits_str =
      raise (qasm_error ("IR gate '" <> gate_value gate <> "' has no OpenQASM mapping for cnot"))

  -- `_ir_gate_to_openqasm`
  unfoldable pub ir_gate_to_openqasm : GateOp → String → Result String
  ir_gate_to_openqasm op target =
      let qubits_str = join ", " (map qubit_text op.qubits) in
      if str_eq target "cz"
      then ir_gate_to_openqasm_cz op.gate op.params qubits_str
      else if str_eq target "cnot"
      then ir_gate_to_openqasm_cnot op.gate op.params qubits_str
      else raise (qasm_error ("Unsupported target: " <> target))
