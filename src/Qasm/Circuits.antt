-- ===== src/Qasm/Circuits.antt =====
-- src/coda_node/server/qasm.py: a circuit that `ir_to_openqasm` prints is what `openqasm_to_ir` reads.
use coda_self_service.Prelude.{
  ◌≡◌, refl, sym, ap, subst, ◌∙◌, ℕ, String, ◌<>◌, true, some, List, [], ◌∷◌, ◌++◌, All, map, arith,
}
use coda_self_service.Prelude.Int.{ℤ, pos, negsuc}
use coda_self_service.Prelude.Lines.{join, splitlines}
use coda_self_service.Prelude.Text.{chars, strip}
use coda_self_service.Effects.{Exc, ok}
use coda_self_service.Effects.Results.{◌>>=◌, Sound, Sound-return, Sound-bind, Sound-ok}
use coda_self_service.Ir.{Float, GateOp, NativeGateIr, validate}
use coda_self_service.Ir.Validity.{HasShape, Between, IsValid}
use coda_self_service.Ir.Decoding.{validate_iff}
use coda_self_service.Qasm.{
  Floats, Program, no_program, read_lines, gate_lines, measure_lines, head_lines, bit_lines, build,
  converted, openqasm_to_ir, ir_to_openqasm,
}
use coda_self_service.Qasm.Layout.{Solid, splitlines-join}
use coda_self_service.Qasm.Instructions.{Reads}
use coda_self_service.Qasm.Inverse.{forget, Exact}
use coda_self_service.Qasm.RoundTrip.{naturals, AllUnderstood, gate_lines-AllUnderstood}
use coda_self_service.Qasm.Statements.{
  read_lines-append, measure_lines-Solid, measure_lines-read, head-Solid, head-read,
}

-- the circuit, with 0.0 for the duration of every `id` gate
abbrev pub forget_all : Floats → NativeGateIr → NativeGateIr
forget_all floats ir = record ir { gates = map (forget floats) ir.gates }

All-map {ℓ κ} :
    {A : Type ℓ} {P : A → Type κ} (f : A → A) (xs : List A)
    → ((x : A) → P x → P (f x))
    → All P xs
    → All P (map f xs)
All-map f [] keep h = tt
All-map f (x ∷ xs) keep (h, hs) = (keep x h, All-map f xs keep hs)

All-append {ℓ κ} :
    {A : Type ℓ} (P : A → Type κ) (xs ys : List A) → All P xs → All P ys → All P (xs ++ ys)
All-append P [] ys h k = k
All-append P (x ∷ xs) ys (h, hs) k = (h, All-append P xs ys hs k)

forget-HasShape : (floats : Floats) (op : GateOp) → HasShape op → HasShape (forget floats op)
forget-HasShape floats op h = ground arith

forget_all-IsValid :
    (floats : Floats) (ir : NativeGateIr) → IsValid ir → IsValid (forget_all floats ir)
forget_all-IsValid floats ir v = record {
  version = v.version;
  num_qubits = v.num_qubits;
  optimization_level = v.optimization_level;
  legal = v.legal;
  target = v.target;
  shapes = All-map (forget floats) ir.gates (forget-HasShape floats) v.shapes;
  gates = All-map (forget floats) ir.gates (λ op h. h) v.gates;
  measurements = v.measurements;
}

-- a number of qubits is natural
natural : (a b : ℕ) (n : ℤ) → Between a b n → (k : ℕ) × (n ≡ pos k)
natural a b (pos k) h = (k, refl)
natural a b (negsuc k) h = absurd h

module _ (floats : Floats) (target : String) where
  abbrev Whole : String → Type 0
  Whole line = Solid (chars line)

  abbrev printed_lines : ℤ → List String → List ℤ → List String
  printed_lines n gates qs = head_lines n ++ bit_lines qs ++ gates ++ measure_lines 0 qs

  abbrev gathered : ℤ → List GateOp → List ℤ → Program
  gathered n gates qs = record { num_qubits = some n; gates = gates; measurements = qs }

  whole-read :
      (k : ℕ) (ops : List GateOp) (gates : List String) (qs : List ℕ)
      → AllUnderstood floats target ops gates
      → read_lines floats target
          (splitlines (strip (join "\n" (printed_lines (pos k) gates (map pos qs)) <> "\n")))
          no_program
        ≡ ok (gathered (pos k) (map (forget floats) ops) (map pos qs))
  whole-read k ops gates qs h =
      let head = head_lines (pos k) ++ bit_lines (map pos qs) in
      let solid =
        All-append Whole (head ++ gates) (measure_lines 0 (map pos qs))
          (All-append Whole head gates (head-Solid floats target k (map pos qs)) h.solid)
          (measure_lines-Solid floats target 0 qs) in
      let started : Program = record no_program { num_qubits = some (pos k) } in
      let with_gates : Program = record started { gates = map (forget floats) ops } in
      ap (λ lines. read_lines floats target lines no_program) (splitlines-join _ _ solid)
      ∙ read_lines-append floats target (head ++ gates) (measure_lines 0 (map pos qs)) no_program
      ∙ ap (λ r. r >>= read_lines floats target (measure_lines 0 (map pos qs)))
          (read_lines-append floats target head gates no_program
            ∙ ap (λ r. r >>= read_lines floats target gates)
                (head-read floats target k (map pos qs))
            ∙ h.read started)
      ∙ measure_lines-read floats target 0 qs with_gates

  whole-read_as :
      (n : ℤ) (k : ℕ) (ops : List GateOp) (gates : List String) (measurements : List ℤ)
      (qs : List ℕ)
      → n ≡ pos k
      → measurements ≡ map pos qs
      → AllUnderstood floats target ops gates
      → read_lines floats target
          (splitlines (strip (join "\n" (printed_lines n gates measurements) <> "\n")))
          no_program
        ≡ ok (gathered n (map (forget floats) ops) measurements)
  whole-read_as n k ops gates measurements qs e ms h = rw (e, ms) (whole-read k ops gates qs h)

built :
    (now : String) (message : Exc → String) (ir : NativeGateIr)
    → IsValid ir
    → build now message ir.target
        (some ir.metadata)
        (record {
          num_qubits = some ir.num_qubits;
          gates = ir.gates;
          measurements = ir.measurements;
        })
        (some ir.num_qubits)
      ≡ ok ir
unfolding build
built now message ir v =
    let same : ir ≡ record ir { version = "1.0" } = ap (λ w. record ir { version = w }) v.version in
    let valid = subst (λ ir. validate ir ≡ ok ir) same ((validate_iff ir).1 v) in
    ap (converted message) valid ∙ ap ok (sym same)

module _ (floats : Floats) (now : String) (message : Exc → String) (half : Float)
    (ir : NativeGateIr) where
  read_back :
      Reads floats floats.minus_half_pi half
      → floats.is_minus_half_pi half ≡ true
      → IsValid ir
      → All (Exact floats) ir.gates
      → Sound
          (λ qasm.
            openqasm_to_ir floats now message qasm ir.target (some ir.metadata)
            ≡ ok (forget_all floats ir))
          (ir_to_openqasm floats ir)
  unfolding ir_to_openqasm openqasm_to_ir
  read_back printed near v exact =
      let (k, n) = natural 1 50 ir.num_qubits v.num_qubits in
      let (qs, ms) = naturals ir.num_qubits ir.measurements v.measurements in
      Sound-bind (gate_lines floats ir.target ir.gates) _
        (gate_lines-AllUnderstood floats half printed near ir.target ir.num_qubits v.legal ir.gates
          v.target v.shapes v.gates exact)
        λ gates h. Sound-return _ (
          ap
            (λ r. r >>= λ program.
              build now message ir.target (some ir.metadata) program program.num_qubits)
            (whole-read_as floats ir.target ir.num_qubits k ir.gates gates ir.measurements qs n ms
              h)
          ∙ built now message (forget_all floats ir) (forget_all-IsValid floats ir v))

  -- What is printed for a circuit with the constraints of the format is read, with its metadata, as that
  -- circuit with 0.0 for the duration of every `id` gate, where every parameter of the circuit is printed
  -- so that it is read as the same number, and -π/2 so that it is read as a number close to it.
  pub openqasm_to_ir-ir_to_openqasm :
      Reads floats floats.minus_half_pi half
      → floats.is_minus_half_pi half ≡ true
      → IsValid ir
      → All (Exact floats) ir.gates
      → {qasm : String} → ir_to_openqasm floats ir ≡ ok qasm
      → openqasm_to_ir floats now message qasm ir.target (some ir.metadata)
        ≡ ok (forget_all floats ir)
  openqasm_to_ir-ir_to_openqasm printed near v exact {qasm} h =
      Sound-ok (read_back printed near v exact) h
