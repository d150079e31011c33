-- ===== src/Qasm/Inverse.antt =====
-- src/coda_node/server/qasm.py: what is printed for an operation is read as that operation.
use Prim.Native.Char.{Char}
use coda_self_service.Prelude.{
  all, ◌≡◌, ◌≢◌, refl, sym, ap, subst, ◌∙◌, ℕ, String, true, List, [], ◌∷◌, ◌++◌, All, map, arith,
  lookup,
}
use coda_self_service.Prelude.Int.{pos}
use coda_self_service.Prelude.Text.{chars, text}
use coda_self_service.Prelude.Lines.{join}
use coda_self_service.Effects.{ok}
use coda_self_service.Effects.Results.{Sound, Sound-raise, Sound-return}
use coda_self_service.Ir.{
  Float, NativeGate, rx, ry, rz, cz, iswap, cp, id, x90, y_minus_90, virtual_z, cnot, GateOp,
}
use coda_self_service.Ir.Validity.{HasShape, validate_gate_shape_iff}
use coda_self_service.Qasm.{
  Floats, Program, gate_op, cz_map, cnot_simple, mapped, ry_to_ir, openqasm_gate_to_ir_cz,
  openqasm_gate_to_ir_cnot, openqasm_gate_to_ir, qubit_text, bare, instruction, read_line,
  indexed_angle, ir_gate_to_openqasm_cz, ir_gate_to_openqasm_cnot,
}
use coda_self_service.Qasm.Printed.{GateName, name_tests, spelled}
use coda_self_service.Prelude.Splitting.{all-append}
use coda_self_service.Qasm.Layout.{Ends, after, Ends-append, unbroken, Solid}
use coda_self_service.Qasm.Unbroken.{
  word-start, word-whole, unbroken-plain, unbroken-refs_chars, Ends-refs_chars,
}
use coda_self_service.Qasm.Instructions.{
  Reads, read_line-bare, read_line-angle, chars-bare, chars-instruction,
}

gate_op-ok : (op : GateOp) → HasShape op → gate_op op.gate op.qubits op.params ≡ ok op
unfolding gate_op
gate_op-ok op h = rw ((validate_gate_shape_iff op).1 h) refl

abbrev pub forget_duration : Float → NativeGate → List Float → List Float
forget_duration zero_float id params = zero_float ∷ []
forget_duration zero_float gate params = params

-- the operation without the duration of the `id` gate, which is not printed
abbrev pub forget : Floats → GateOp → GateOp
forget floats op = record op { params = forget_duration floats.zero_float op.gate op.params }

-- The line is a whole line, and is read as the operation.
pub record Understood (floats : Floats) (target : String) (op : GateOp) (line : String)
    : Type 0 where
  pub solid : Solid (chars line)
  pub read :
      (program : Program)
      → read_line floats target (chars line) program
        ≡ ok (record program { gates = program.gates ++ forget floats op ∷ [] })

module _ (floats : Floats) (target : String) (n : ℕ) (ns : List ℕ) (op : GateOp) (c d : Char)
    (name : GateName c d) where
  abbrev operands : String
  operands = join ", " (map qubit_text (map pos (n ∷ ns)))

  word-Solid :
      (cs rest : List Char) → cs ≡ c ∷ d ∷ rest → Ends rest → unbroken rest ≡ true → Solid cs
  word-Solid cs rest shape ends whole = record {
    first = c;
    rest = d ∷ rest;
    shape = shape;
    starts = word-start c name.first;
    ends = subst Ends (sym shape) (after c (after d ends));
    whole = rw (shape, word-whole c name.first, word-whole d name.second) whole;
  }

  bare-Understood :
      openqasm_gate_to_ir floats (text (c ∷ d ∷ [])) [] (map pos (n ∷ ns)) target
        ≡ ok (forget floats op)
      → Understood floats target op (bare (text (c ∷ d ∷ [])) operands)
  bare-Understood h = record {
    solid =
        word-Solid _ _ (chars-bare c d n ns) (after " " (Ends-refs_chars n ns))
          (unbroken-refs_chars n ns);
    read = λ program.
        rw (chars-bare c d n ns)
          (read_line-bare floats target c d name n ns (forget floats op) program h);
  }

  angle-Understood :
      (x y : Float)
      → Reads floats x y
      → openqasm_gate_to_ir floats (text (c ∷ d ∷ [])) (y ∷ []) (map pos (n ∷ ns)) target
        ≡ ok (forget floats op)
      → Understood floats target op (instruction floats (text (c ∷ d ∷ [])) (x ∷ []) operands)
  angle-Understood x y r h = record {
    solid =
        word-Solid _ _ (chars-instruction floats x c d n ns)
          (after "("
            (Ends-append (chars (floats.format x)) (after ")" (after " " (Ends-refs_chars n ns)))))
          (all-append _ (chars (floats.format x)) _
            (unbroken-plain (chars (floats.format x)) r.plain) (unbroken-refs_chars n ns));
    read = λ program.
        rw (chars-instruction floats x c d n ns)
          (read_line-angle floats target c d name n ns (forget floats op) program x y r h);
  }

-- every parameter is printed so that the same number is read
abbrev pub Exact : Floats → GateOp → Type 0
Exact floats op = All (λ x. Reads floats x x) op.params

module _ (floats : Floats) (n : ℕ) (ns : List ℕ) where
  abbrev refs : String
  refs = join ", " (map qubit_text (map pos (n ∷ ns)))

  abbrev pub op_of : NativeGate → List Float → GateOp
  op_of gate params = record { gate = gate; qubits = map pos (n ∷ ns); params = params }

  -- an operation with one angle, for a target that reads the name as its gate
  angle_printed :
      (target : String) (gate : NativeGate) (c d : Char)
      → all (λ b. b) (name_tests c d) ≡ true
      → ((y : Float)
          → openqasm_gate_to_ir floats (text (c ∷ d ∷ [])) (y ∷ []) (map pos (n ∷ ns)) target
            ≡ gate_op gate (map pos (n ∷ ns)) (y ∷ []))
      → (x : Float) → HasShape (op_of gate (x ∷ []))
      → forget floats (op_of gate (x ∷ [])) ≡ op_of gate (x ∷ [])
      → Reads floats x x
      → Understood floats target
          (op_of gate (x ∷ []))
          (instruction floats (text (c ∷ d ∷ [])) (x ∷ []) refs)
  angle_printed target gate c d name reads x shape same exact =
      angle-Understood floats target n ns (op_of gate (x ∷ [])) c d (spelled c d name) x x exact
        (reads x ∙ gate_op-ok _ shape ∙ ap ok (sym same))

  -- an operation that is printed without its parameters
  bare_printed :
      (target : String) (gate : NativeGate) (params : List Float) (c d : Char)
      → all (λ b. b) (name_tests c d) ≡ true
      → openqasm_gate_to_ir floats (text (c ∷ d ∷ [])) [] (map pos (n ∷ ns)) target
        ≡ gate_op gate (map pos (n ∷ ns)) (forget floats (op_of gate params)).params
      → HasShape (forget floats (op_of gate params))
      → Understood floats target (op_of gate params) (bare (text (c ∷ d ∷ [])) refs)
  bare_printed target gate params c d name reads shape =
      bare-Understood floats target n ns (op_of gate params) c d (spelled c d name)
        (reads ∙ gate_op-ok _ shape)

  -- the operations that are legal for the target `cz`
  pub gate_cz-Understood :
      (gate : NativeGate) (params : List Float)
      → HasShape (op_of gate params)
      → gate ≢ virtual_z
      → Exact floats (op_of gate params)
      → Sound
          (Understood floats "cz" (op_of gate params))
          (ir_gate_to_openqasm_cz floats gate params refs)
  unfolding ir_gate_to_openqasm_cz openqasm_gate_to_ir openqasm_gate_to_ir_cz mapped cz_map gate_op
      lookup
  gate_cz-Understood rx (x ∷ []) shape legal exact =
      Sound-return _ (angle_printed "cz" rx "r" "x" refl (λ y. refl) x shape refl exact.0)
  gate_cz-Understood ry (x ∷ []) shape legal exact =
      Sound-return _ (angle_printed "cz" ry "r" "y" refl (λ y. refl) x shape refl exact.0)
  gate_cz-Understood rz (x ∷ []) shape legal exact =
      Sound-return _ (angle_printed "cz" rz "r" "z" refl (λ y. refl) x shape refl exact.0)
  gate_cz-Understood cz [] shape legal exact =
      Sound-return _ (bare_printed "cz" cz [] "c" "z" refl refl shape)
  gate_cz-Understood id params shape legal exact =
      Sound-return _ (bare_printed "cz" id params "i" "d" refl refl (shape.0, refl))
  gate_cz-Understood virtual_z params shape legal exact = absurd (legal refl)
  gate_cz-Understood iswap params shape legal exact = Sound-raise _
  gate_cz-Understood cp params shape legal exact = Sound-raise _
  gate_cz-Understood x90 params shape legal exact = Sound-raise _
  gate_cz-Understood y_minus_90 params shape legal exact = Sound-raise _
  gate_cz-Understood cnot params shape legal exact = Sound-raise _
  gate_cz-Understood _ params shape legal exact = absurd (omega (arith, shape.1))

  -- the operations for the target `cnot`; the printed −π/2 must be read as a number close to it
  pub gate_cnot-Understood :
      (gate : NativeGate) (params : List Float) (y : Float)
      → HasShape (op_of gate params)
      → Reads floats floats.minus_half_pi y
      → floats.is_minus_half_pi y ≡ true
      → Exact floats (op_of gate params)
      → Sound
          (Understood floats "cnot" (op_of gate params))
          (ir_gate_to_openqasm_cnot floats gate params refs)
  unfolding ir_gate_to_openqasm_cnot indexed_angle openqasm_gate_to_ir openqasm_gate_to_ir_cnot
      mapped cnot_simple ry_to_ir gate_op lookup
  gate_cnot-Understood x90 [] y shape half near exact =
      Sound-return _ (bare_printed "cnot" x90 [] "s" "x" refl refl shape)
  gate_cnot-Understood y_minus_90 [] y shape half near exact = Sound-return _ (
      angle-Understood floats "cnot" n ns (op_of y_minus_90 []) "r" "y" (spelled "r" "y" refl) _ y
        half (rw near (gate_op-ok (op_of y_minus_90 []) shape)))
  gate_cnot-Understood virtual_z (x ∷ []) y shape half near exact =
      Sound-return _ (angle_printed "cnot" virtual_z "r" "z" refl (λ y. refl) x shape refl exact.0)
  gate_cnot-Understood cnot [] y shape half near exact =
      Sound-return _ (bare_printed "cnot" cnot [] "c" "x" refl refl shape)
  gate_cnot-Understood id params y shape half near exact =
      Sound-return _ (bare_printed "cnot" id params "i" "d" refl refl (shape.0, refl))
  gate_cnot-Understood rx params y shape half near exact = Sound-raise _
  gate_cnot-Understood ry params y shape half near exact = Sound-raise _
  gate_cnot-Understood rz params y shape half near exact = Sound-raise _
  gate_cnot-Understood cz params y shape half near exact = Sound-raise _
  gate_cnot-Understood iswap params y shape half near exact = Sound-raise _
  gate_cnot-Understood cp params y shape half near exact = Sound-raise _
  gate_cnot-Understood _ params y shape half near exact = absurd (omega (arith, shape.1))
