-- ===== src/Qasm/Tests.antt =====
-- A Bell circuit for each of the targets `cz` and `cnot`, printed and read, and the theorems applied to it.
use coda_self_service.Prelude.{
  ◌≡◌, refl, ℕ, String, none, some, [], ◌∷◌, str_eq, ◌==◌, lookup, arith, if◌then◌else◌,
}
use coda_self_service.Prelude.Int.{pos}
use coda_self_service.Effects.{ok, raise, value_error, Exc}
use coda_self_service.Ir.{Float, rx, cz, id, legal_gates, NativeGateIr, IrMetadata}
use coda_self_service.Ir.Validity.{IsValid}
use coda_self_service.Qasm.{
  Floats, openqasm_to_ir, ir_to_openqasm, gate_lines, ir_gate_to_openqasm, ir_gate_to_openqasm_cz,
  measure_lines, read_lines, read_line, is_header, is_include, declares, read_declaration, index,
  read_measure, measured, qubit_ref, read_gate, gate_line, parenthesis, qubit_refs, params_of,
  parse_params,
}
use coda_self_service.Prelude.Lines.{splitlines, split_at, join}
use coda_self_service.Prelude.Text.{str_int}
use coda_self_service.Qasm.Circuits.{forget_all, openqasm_to_ir-ir_to_openqasm}
use coda_self_service.Qasm.Accepted.{openqasm_to_ir-IsValid, ir_to_openqasm_prints}

-- Three numbers: 0.0, 0.5, and -π/2.
abbrev number : ℕ → Float
number n = record { bits = n }

abbrev three : Floats
three = record {
  parse = λ s.
      if str_eq s "0"
      then some (number 0)
      else if str_eq s "0.5"
      then some (number 1)
      else if str_eq s "-1.5707963267949"
      then some (number 2)
      else none;
  show = λ x. if x.bits == 0 then "0.0" else if x.bits == 1 then "0.5" else "-1.5707963267948966";
  format = λ x. if x.bits == 0 then "0" else if x.bits == 1 then "0.5" else "-1.5707963267949";
  minus_half_pi = number 2;
  is_minus_half_pi = λ x. x.bits == 2;
  zero_float = number 0;
}

abbrev metadata : IrMetadata
metadata = record {
  source_hash = "sha256:0";
  compiled_at = "2026-01-01";
  compiler_version = "0.1.0";
  optimization_level = pos 2;
}

abbrev circuit : NativeGateIr
circuit = record {
  version = "1.0";
  target = "cz";
  num_qubits = pos 12;
  gates =
      record { gate = rx; qubits = pos 10 ∷ []; params = number 1 ∷ [] }
      ∷ record { gate = cz; qubits = pos 0 ∷ pos 10 ∷ []; params = [] }
      ∷ record { gate = id; qubits = pos 3 ∷ []; params = number 1 ∷ [] }
      ∷ [];
  measurements = pos 10 ∷ pos 0 ∷ [];
  metadata = metadata;
}

abbrev program : String
program =
    "OPENQASM 3.0;\ninclude \"stdgates.inc\";\nqubit[12] q;\nbit[2] c;\nrx(0.5) q[10];\ncz q[0], q[10];\nid q[3];\nc[0] = measure q[10];\nc[1] = measure q[0];\n"

circuit-IsValid : IsValid circuit
unfolding lookup legal_gates
circuit-IsValid = record {
  version = refl;
  num_qubits = omega arith;
  optimization_level = omega arith;
  legal = _;
  target = refl;
  shapes = ((refl, refl), ((refl, refl), ((refl, refl), tt)));
  gates = (
    (refl, (omega arith, tt)),
    ((refl, (omega arith, (omega arith, tt))), ((refl, (omega arith, tt)), tt)),
  );
  measurements = (omega arith, (omega arith, tt));
}

prints_circuit : ir_to_openqasm three circuit ≡ ok program
unfolding ir_to_openqasm gate_lines ir_gate_to_openqasm ir_gate_to_openqasm_cz join str_int
    measure_lines
prints_circuit = refl

abbrev shown : Exc → String
shown e = "error"

ir_to_openqasm_prints_example : (qasm : String) × (ir_to_openqasm three circuit ≡ ok qasm)
ir_to_openqasm_prints_example = ir_to_openqasm_prints three circuit refl circuit-IsValid

openqasm_to_ir-ir_to_openqasm_example :
    openqasm_to_ir three "now" shown program "cz" (some metadata) ≡ ok (forget_all three circuit)
openqasm_to_ir-ir_to_openqasm_example =
    openqasm_to_ir-ir_to_openqasm three "now" shown (number 2) circuit
      (record { nonblank = refl; plain = refl; parsed = refl }) refl circuit-IsValid
      (
        (record { nonblank = refl; plain = refl; parsed = refl }, tt),
        (tt, ((record { nonblank = refl; plain = refl; parsed = refl }, tt), tt)),
      )
      prints_circuit

openqasm_to_ir-IsValid_example : IsValid (forget_all three circuit)
openqasm_to_ir-IsValid_example =
    openqasm_to_ir-IsValid three "now" shown program "cz" (some metadata)
      openqasm_to_ir-ir_to_openqasm_example

-- an angle that is no number ends the reading with a ValueError
unread :
    openqasm_to_ir three "now" shown "qubit[1] q;\nrx(pi/2) q[0];" "cz" none
    ≡ raise (value_error "could not convert string to float")
unfolding openqasm_to_ir read_lines splitlines read_line is_header is_include declares
    read_declaration index read_measure measured qubit_ref read_gate gate_line parenthesis
    qubit_refs params_of parse_params split_at
unread = refl
