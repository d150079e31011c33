-- ===== src/Ir/Validity.antt =====
-- src/coda_node/server/ir.py: the constraints on a circuit, described without loops, and the
-- loops that check them.
use coda_self_service.Prelude.{
  ◌≡◌, refl, ◌↔◌, ℕ, ◌+◌, ◌≤◌, ◌<◌, String, true, false, some, List, [], ◌∷◌, All, arith, length,
  contains, lookup,
}
use coda_self_service.Prelude.Int.{ℤ, pos, negsuc}
use coda_self_service.Effects.{ok}
use coda_self_service.Effects.Results
use coda_self_service.Ir.{
  NativeGate, rx, ry, rz, cz, iswap, cp, id, x90, y_minus_90, virtual_z, cnot, gate_value,
  gate_specs, legal_gates, GateOp, NativeGateIr, check_params, check_shape, validate_gate_shape,
  out_of_range, check_qubits, check_gates, check_measurements, check_shapes,
}

-- the numbers of qubits and of parameters that a gate takes
abbrev pub arity : NativeGate → ℕ
arity cz = 2
arity iswap = 2
arity cp = 2
arity cnot = 2
arity _ = 1

abbrev pub angles : NativeGate → ℕ
angles rx = 1
angles ry = 1
angles rz = 1
angles cp = 1
angles id = 1
angles virtual_z = 1
angles _ = 0

abbrev pub HasShape : GateOp → Type 0
HasShape op = (length op.qubits ≡ arity op.gate) × (length op.params ≡ angles op.gate)

-- 0 ≤ q < n
abbrev pub InRange : ℤ → ℤ → Type 0
InRange (pos n) (pos q) = q < n
InRange _ _ = ⊥

-- a ≤ n ≤ b
abbrev pub Between : ℕ → ℕ → ℤ → Type 0
Between a b (pos n) = (a ≤ n) × (n ≤ b)
Between a b (negsuc n) = ⊥

abbrev pub IsLegal : List String → ℤ → GateOp → Type 0
IsLegal legal n op = (contains legal (gate_value op.gate) ≡ true) × All (InRange n) op.qubits

pub record IsValid (ir : NativeGateIr) : Type 0 where
  pub version : ir.version ≡ "1.0"
  pub num_qubits : Between 1 50 ir.num_qubits
  pub optimization_level : Between 0 3 ir.metadata.optimization_level
  pub legal : List String
  pub target : lookup ir.target legal_gates ≡ some legal
  pub shapes : All HasShape ir.gates
  pub gates : All (IsLegal legal ir.num_qubits) ir.gates
  pub measurements : All (InRange ir.num_qubits) ir.measurements

gate_specs-lem :
    (g : NativeGate)
    → lookup (gate_value g) gate_specs ≡ some (record { qubits = arity g; params = angles g })
unfolding gate_specs lookup
gate_specs-lem rx = refl
gate_specs-lem ry = refl
gate_specs-lem rz = refl
gate_specs-lem cz = refl
gate_specs-lem iswap = refl
gate_specs-lem cp = refl
gate_specs-lem id = refl
gate_specs-lem x90 = refl
gate_specs-lem y_minus_90 = refl
gate_specs-lem virtual_z = refl
gate_specs-lem cnot = refl

pub validate_gate_shape_iff : (op : GateOp) → (validate_gate_shape op ≡ ok tt) ↔ HasShape op
unfolding validate_gate_shape check_shape check_params
validate_gate_shape_iff op = rw (gate_specs-lem op.gate) (ground arith)

out_of_range_iff : (n q : ℤ) → (out_of_range n q ≡ false) ↔ InRange n q
out_of_range_iff (pos n) (pos q) = ground arith
out_of_range_iff (pos n) (negsuc q) = ground arith
out_of_range_iff (negsuc n) (pos q) = ground arith
out_of_range_iff (negsuc n) (negsuc q) = ground arith

check_qubits_iff :
    (n : ℤ) (index : ℕ) (qs : List ℤ) → (check_qubits n index qs ≡ ok tt) ↔ All (InRange n) qs
unfolding check_qubits
check_qubits_iff n index [] = (λ _. tt, λ _. refl)
check_qubits_iff n index (q ∷ qs) =
    Results.guard_iff _ _ _ (out_of_range_iff n q) (check_qubits_iff n index qs)

pub check_measurements_iff :
    (n : ℤ) (qs : List ℤ) → (check_measurements n qs ≡ ok tt) ↔ All (InRange n) qs
unfolding check_measurements
check_measurements_iff n [] = (λ _. tt, λ _. refl)
check_measurements_iff n (q ∷ qs) =
    Results.guard_iff _ _ _ (out_of_range_iff n q) (check_measurements_iff n qs)

pub check_shapes_iff : (ops : List GateOp) → (check_shapes ops ≡ ok tt) ↔ All HasShape ops
unfolding check_shapes
check_shapes_iff [] = (λ _. tt, λ _. refl)
check_shapes_iff (op ∷ ops) =
    Results.then_iff _ _ (validate_gate_shape_iff op) (check_shapes_iff ops)

pub check_gates_iff :
    (legal : List String) (target : String) (n : ℤ) (index : ℕ) (ops : List GateOp)
    → (check_gates legal target n index ops ≡ ok tt) ↔ All (IsLegal legal n) ops
unfolding check_gates
check_gates_iff legal target n index [] = (λ _. tt, λ _. refl)
check_gates_iff legal target n index (op ∷ ops) =
    let (there, back) = Results.require_iff _ _ _ _ (
      Results.then_iff _ _ (check_qubits_iff n index op.qubits)
        (check_gates_iff legal target n (index + 1) ops)) in
    (λ h. let (l, (q, r)) = there h in ((l, q), r), λ ((l, q), r). back (l, (q, r)))
