-- ===== src/Qasm/Accepted.antt =====
-- src/coda_node/server/qasm.py: what the conversions accept.
use coda_self_service.Prelude.{
  ◌≡◌, refl, sym, subst, ap, ◌∙◌, String, true, Option, none, some, some_inj, List, [], ◌∷◌, All,
  contains, lookup, map,
}
use coda_self_service.Prelude.Int.{ℤ}
use coda_self_service.Prelude.Lines.{join}
use coda_self_service.Effects.{Exc, is_exception, Result, ok, raise}
use coda_self_service.Effects.Results.{
  ◌>>=◌, Sound, Sound-raise, Sound-bind, Sound-ok, Sound-always, Sound-from, Sound-if,
}
use coda_self_service.Ir.{
  Float, NativeGate, rx, ry, rz, cz, id, gate_value, GateOp, IrMetadata, NativeGateIr, legal_gates,
  validate, from_json,
}
use coda_self_service.Ir.Validity.{IsLegal, IsValid}
use coda_self_service.Ir.Decoding.{from_json_sound}
use coda_self_service.Qasm.{
  Floats, Program, no_program, read_lines, gate_lines, build, converted, qubit_text, openqasm_to_ir,
  ir_to_openqasm, ir_gate_to_openqasm, ir_gate_to_openqasm_cz,
}

-- a value is returned
abbrev Returns {ℓ} : {A : Type ℓ} → Result A → Type ℓ
Returns {A = A} r = (a : A) × (r ≡ ok a)

Returns-then :
    {A B : Type 0} (r : Result A) (f : A → Result B)
    → Returns r
    → ((a : A) → Returns (f a))
    → Returns (r >>= f)
Returns-then r f (a, e) h = let (b, k) = h a in (b, ap (λ r. r >>= f) e ∙ k)

module _ (floats : Floats) where
  validate-IsValid : (ir : NativeGateIr) → Sound IsValid (validate ir)
  unfolding from_json
  validate-IsValid ir = Sound-from (validate ir) (λ out h. (from_json_sound (λ _. ok ir) "" h).1)

  converted-Sound :
      (message : Exc → String) (r : Result NativeGateIr)
      → Sound IsValid r
      → Sound IsValid (converted message r)
  converted-Sound message (ok ir) h = h
  converted-Sound message (raise e) h =
      Sound-if (is_exception e) _ _ (λ _. Sound-raise _) (λ _. Sound-raise _)

  build-IsValid :
      (now : String) (message : Exc → String) (target : String) (metadata : Option IrMetadata)
      (program : Program) (n : Option ℤ)
      → Sound IsValid (build now message target metadata program n)
  unfolding build
  build-IsValid now message target metadata program none = Sound-raise _
  build-IsValid now message target metadata program (some n) =
      converted-Sound message _ (validate-IsValid _)

  -- A program is read only as a circuit with all constraints of the format.
  pub openqasm_to_ir-IsValid :
      (now : String) (message : Exc → String) (qasm target : String) (metadata : Option IrMetadata)
      {ir : NativeGateIr}
      → openqasm_to_ir floats now message qasm target metadata ≡ ok ir
      → IsValid ir
  unfolding openqasm_to_ir
  openqasm_to_ir-IsValid now message qasm target metadata h =
      Sound-ok
        (Sound-bind (read_lines floats target _ no_program) _ (Sound-always _)
          λ program _. build-IsValid now message target metadata program program.num_qubits)
        h

  abbrev cz_gates : List String
  cz_gates = "rx" ∷ "ry" ∷ "rz" ∷ "cz" ∷ "id" ∷ []

  cz-Returns :
      (gate : NativeGate) (params : List Float) (operands : String)
      → contains cz_gates (gate_value gate) ≡ true
      → Returns (ir_gate_to_openqasm_cz floats gate params operands)
  unfolding ir_gate_to_openqasm_cz
  cz-Returns rx params operands h = (_, refl)
  cz-Returns ry params operands h = (_, refl)
  cz-Returns rz params operands h = (_, refl)
  cz-Returns cz params operands h = (_, refl)
  cz-Returns id params operands h = (_, refl)
  cz-Returns _ params operands h = cc h

  gate_lines-Returns :
      (n : ℤ) (ops : List GateOp)
      → All (IsLegal cz_gates n) ops
      → Returns (gate_lines floats "cz" ops)
  unfolding gate_lines ir_gate_to_openqasm
  gate_lines-Returns n [] h = ([], refl)
  gate_lines-Returns n (op ∷ ops) (h, hs) =
      let (line, e) = cz-Returns op.gate op.params (join ", " (map qubit_text op.qubits)) h.0 in
      let (lines, es) = gate_lines-Returns n ops hs in (line ∷ lines, rw (e, es) refl)

  -- Every circuit for the target `cz` with the constraints of the format is printed.
  pub ir_to_openqasm_prints :
      (ir : NativeGateIr)
      → ir.target ≡ "cz"
      → IsValid ir
      → (qasm : String) × (ir_to_openqasm floats ir ≡ ok qasm)
  unfolding ir_to_openqasm lookup legal_gates
  ir_to_openqasm_prints ir target v =
      let listed = subst (λ t. lookup t legal_gates ≡ some v.legal) target v.target in
      let legal =
        subst (λ l. All (IsLegal l ir.num_qubits) ir.gates) (sym (some_inj.0 listed)) v.gates in
      let (gates, e) = gate_lines-Returns ir.num_qubits ir.gates legal in
      Returns-then (gate_lines floats ir.target ir.gates) _
        (gates, subst (λ t. gate_lines floats t ir.gates ≡ ok gates) (sym target) e)
        (λ gates. (_, refl))
