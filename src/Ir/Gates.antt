-- ===== src/Ir/Gates.antt =====
-- src/coda_node/server/ir.py: NativeGate, GATE_SPECS and LEGAL_GATES.
use coda_self_service.Prelude.{ℕ, String, List, [], ◌∷◌}

pub data NativeGate : Type 0 where
  rx ry rz cz iswap cp id x90 y_minus_90 virtual_z cnot : NativeGate

-- `gate.value`
abbrev pub gate_value : NativeGate → String
gate_value rx = "rx"
gate_value ry = "ry"
gate_value rz = "rz"
gate_value cz = "cz"
gate_value iswap = "iswap"
gate_value cp = "cp"
gate_value id = "id"
gate_value x90 = "x90"
gate_value y_minus_90 = "y_minus_90"
gate_value virtual_z = "virtual_z"
gate_value cnot = "cnot"

pub record GateSpec : Type 0 where
  pub qubits : ℕ
  pub params : ℕ

abbrev spec : ℕ → ℕ → GateSpec
spec q p = record { qubits = q; params = p }

unfoldable pub gate_specs : List (String × GateSpec)
gate_specs =
    ("rx", spec 1 1)
    ∷ ("ry", spec 1 1)
    ∷ ("rz", spec 1 1)
    ∷ ("cz", spec 2 0)
    ∷ ("iswap", spec 2 0)
    ∷ ("cp", spec 2 1)
    ∷ ("id", spec 1 1)
    ∷ ("x90", spec 1 0)
    ∷ ("y_minus_90", spec 1 0)
    ∷ ("virtual_z", spec 1 1)
    ∷ ("cnot", spec 2 0)
    ∷ []

unfoldable pub legal_gates : List (String × List String)
legal_gates =
    ("cz", "rx" ∷ "ry" ∷ "rz" ∷ "cz" ∷ "id" ∷ [])
    ∷ ("iswap", "rx" ∷ "ry" ∷ "rz" ∷ "iswap" ∷ "id" ∷ [])
    ∷ ("pcz", "rx" ∷ "ry" ∷ "rz" ∷ "cp" ∷ "id" ∷ [])
    ∷ ("cnot", "rx" ∷ "ry" ∷ "rz" ∷ "x90" ∷ "y_minus_90" ∷ "virtual_z" ∷ "cnot" ∷ "id" ∷ [])
    ∷ []
