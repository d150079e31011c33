-- ===== src/Qasm.antt =====
-- src/coda_node/server/qasm.py: the conversion between OpenQASM programs and circuits. The clock, pydantic's
-- message of an exception and the arithmetic of floats are parameters.
mod Scanning
mod Gates
pub mod Printed
pub mod Layout
pub mod Unbroken
pub mod Instructions
pub mod Inverse
pub mod Statements
pub mod RoundTrip
pub mod Circuits
pub mod Accepted
mod Tests
unfoldable pub use Scanning.*
unfoldable pub use Gates.*
use Prim.Native.Char.{Char, code}
use coda_self_service.Prelude.{
  ℕ, zero, suc, ◌+◌, String, ◌<>◌, Bool, true, false, ◌&&◌, ◌||◌, not, Option, none, some, List, [],
  ◌∷◌, ◌++◌, is_some, is_empty, length, map, if◌then◌else◌,
}
use coda_self_service.Prelude.Int.{ℤ, pos}
use coda_self_service.Prelude.Text.{chars, text, strip, strip_chars, is_blank, str_int, str_nat}
use coda_self_service.Prelude.Lines.{splitlines, split_at, join}
use coda_self_service.Effects.{Exc, value_error, qasm_error, is_exception, Result, ok, raise}
use coda_self_service.Effects.Results.{◌>>=◌}
use coda_self_service.Ir.{Float, GateOp, IrMetadata, NativeGateIr, validate}

-- what the loop over the lines has gathered
pub record Program : Type 0 where
  pub num_qubits : Option ℤ
  pub gates : List GateOp
  pub measurements : List ℤ

abbrev pub is_comment : List Char → Bool
is_comment cs = is_some (literal (chars "//") cs)

-- the lines that `continue` without an effect
abbrev pub is_ignored : List Char → Bool
is_ignored cs =
    is_empty cs
    || is_comment cs
    || is_some (is_header cs)
    || is_some (is_include cs)
    || is_some (declares "bit" cs)

-- the metadata that is made up when none is given; `now` is the time, in ISO format
abbrev pub placeholder : String → IrMetadata
placeholder now = record {
  source_hash = "sha256:from-qasm";
  compiled_at = now;
  compiler_version = "0.1.0";
  optimization_level = pos 2;
}

abbrev pub metadata_or : String → Option IrMetadata → IrMetadata
metadata_or now none = placeholder now
metadata_or now (some metadata) = metadata

-- `except Exception`
abbrev pub converted : (Exc → String) → Result NativeGateIr → Result NativeGateIr
converted message (ok ir) = ok ir
converted message (raise e) = if is_exception e then raise (qasm_error (message e)) else raise e

unfoldable pub build :
    String → (Exc → String) → String → Option IrMetadata → Program → Option ℤ → Result NativeGateIr
build now message target metadata program none =
    raise (qasm_error "No qubit register declaration found")
build now message target metadata program (some num_qubits) = converted message (
    validate (record {
      version = "1.0";
      target = target;
      num_qubits = num_qubits;
      gates = program.gates;
      measurements = program.measurements;
      metadata = metadata_or now metadata;
    }))

abbrev pub no_program : Program
no_program = record { num_qubits = none; gates = []; measurements = [] }

-- the loop over the measurements
unfoldable pub measure_lines : ℕ → List ℤ → List String
measure_lines i [] = []
measure_lines i (qubit ∷ qubits) =
    ("c[" <> str_nat i <> "] = measure q[" <> str_int qubit <> "];") ∷ measure_lines (suc i) qubits

abbrev pub bit_lines : List ℤ → List String
bit_lines [] = []
bit_lines (q ∷ qs) = ("bit[" <> str_nat (length (q ∷ qs)) <> "] c;") ∷ []

abbrev pub head_lines : ℤ → List String
head_lines n =
    "OPENQASM 3.0;" ∷ "include \"stdgates.inc\";" ∷ ("qubit[" <> str_int n <> "] q;") ∷ []

module _ (floats : Floats) where
  -- `[float(p.strip()) for p in … .split(",")]`
  unfoldable pub parse_params : List String → Result (List Float)
  parse_params [] = ok []
  parse_params (p ∷ ps) = elim (floats.parse (strip p)) [
    | none ↦ raise (value_error "could not convert string to float")
    | some x ↦ (parse_params ps >>= λ xs. ok (x ∷ xs))
  ]

  unfoldable pub params_of : String → Result (List Float)
  params_of text = if is_blank text then ok [] else parse_params (split_at "," text)

  unfoldable pub read_gate : String → String → Option GateLine → Program → Result Program
  read_gate target line none program =
      raise (qasm_error ("Unsupported QASM line: '" <> line <> "'"))
  read_gate target line (some found) program = params_of found.params >>= λ params.
      openqasm_gate_to_ir floats found.name params (map pos found.qubits) target >>= λ op.
      ok (record program { gates = program.gates ++ op ∷ [] })

  unfoldable pub read_measure : String → List Char → Option ℕ → Program → Result Program
  read_measure target cs (some q) program =
      ok (record program { measurements = program.measurements ++ pos q ∷ [] })
  read_measure target cs none program = read_gate target (text cs) (gate_line cs) program

  unfoldable pub read_declaration : String → List Char → Option ℕ → Program → Result Program
  read_declaration target cs (some n) program =
      if is_some program.num_qubits
      then raise (qasm_error "Multiple qubit register declarations are not supported")
      else ok (record program { num_qubits = some (pos n) })
  read_declaration target cs none program = read_measure target cs (measured cs) program

  -- the body of the loop, on the stripped line
  unfoldable pub read_line : String → List Char → Program → Result Program
  read_line target cs program =
      if is_ignored cs then ok program else read_declaration target cs (declares "qubit" cs) program

  unfoldable pub read_lines : String → List String → Program → Result Program
  read_lines target [] program = ok program
  read_lines target (line ∷ lines) program =
      read_line target (strip_chars (chars line)) program >>= λ program.
      read_lines target lines program

  -- `openqasm_to_ir`; `message` is `str(exc)`
  unfoldable pub openqasm_to_ir :
      String → (Exc → String) → String → String → Option IrMetadata → Result NativeGateIr
  openqasm_to_ir now message qasm target metadata =
      read_lines target (splitlines (strip qasm)) no_program >>= λ program.
      build now message target metadata program program.num_qubits

  -- the loop over the operations
  unfoldable pub gate_lines : String → List GateOp → Result (List String)
  gate_lines target [] = ok []
  gate_lines target (op ∷ ops) = ir_gate_to_openqasm floats op target >>= λ line.
      gate_lines target ops >>= λ lines. ok (line ∷ lines)

  -- `ir_to_openqasm`
  unfoldable pub ir_to_openqasm : NativeGateIr → Result String
  ir_to_openqasm ir = gate_lines ir.target ir.gates >>= λ gates. ok (
      join "\n" (
        head_lines ir.num_qubits
        ++ bit_lines ir.measurements
        ++ gates
        ++ measure_lines 0 ir.measurements)
      <> "\n")
