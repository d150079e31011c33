-- ===== src/Qasm/RoundTrip.antt =====
-- src/coda_node/server/qasm.py: a circuit that `ir_to_openqasm` prints is what `openqasm_to_ir` reads.
use coda_self_service.Prelude.{
  ◌≡◌, ◌≢◌, refl, sym, ap, subst, ◌∙◌, inl, inr, ℕ, ◌≤◌, String, true, some, List, [], ◌∷◌, ◌++◌,
  All, map, some_inj, arith, append_assoc, append-nil, length, lookup, contains, str_eq, str_eq_iff,
  Bool-cases,
}
use coda_self_service.Prelude.Int.{ℤ, pos, negsuc}
use coda_self_service.Effects.{ok}
use coda_self_service.Effects.Results.{Sound, Sound-raise, Sound-return, Sound-bind}
use coda_self_service.Ir.{Float, NativeGate, virtual_z, gate_value, GateOp, legal_gates}
use coda_self_service.Ir.Validity.{arity, HasShape, InRange, IsLegal}
use coda_self_service.Qasm.{Floats, Program, read_lines, gate_lines, ir_gate_to_openqasm}
use coda_self_service.Qasm.Layout.{AllSolid}
use coda_self_service.Qasm.Instructions.{Reads}
use coda_self_service.Qasm.Inverse.{
  forget, op_of, Understood, Exact, gate_cz-Understood, gate_cnot-Understood,
}
use coda_self_service.Qasm.Statements.{read_lines-step}

-- qubits in range are natural numbers
pub naturals : (n : ℤ) (qs : List ℤ) → All (InRange n) qs → (ns : List ℕ) × (qs ≡ map pos ns)
naturals n [] h = ([], refl)
naturals (pos n) (pos q ∷ qs) (h, hs) =
    let (ns, e) = naturals (pos n) qs hs in (q ∷ ns, ap (λ qs. pos q ∷ qs) e)
naturals (pos n) (negsuc q ∷ qs) (h, hs) = absurd h
naturals (negsuc n) (q ∷ qs) (h, hs) = absurd h

-- the gates that are legal for the target `cz`
cz-legal :
    (gate : NativeGate) (legal : List String)
    → lookup "cz" legal_gates ≡ some legal
    → contains legal (gate_value gate) ≡ true
    → gate ≢ virtual_z
unfolding lookup legal_gates
cz-legal gate legal h k e =
    let listed = subst (λ l. contains l (gate_value gate) ≡ true) (sym (some_inj.0 h)) k in
    cc
      (subst (λ g. contains ("rx" ∷ "ry" ∷ "rz" ∷ "cz" ∷ "id" ∷ []) (gate_value g) ≡ true) e listed)

arity_pos : (gate : NativeGate) → 1 ≤ arity gate
arity_pos gate = ground arith

operands :
    (n : ℤ) (gate : NativeGate) (qs : List ℤ)
    → All (InRange n) qs
    → length qs ≡ arity gate
    → (m : ℕ) × (ms : List ℕ) × (qs ≡ map pos (m ∷ ms))
operands n gate [] h few = absurd (omega (arith, few, arity_pos gate))
operands n gate (q ∷ qs) h few = let (ns, e) = naturals n (q ∷ qs) h in split ns e
  where
    split :
        (ns : List ℕ)
        → (q ∷ qs) ≡ map pos ns
        → (m : ℕ) × (ms : List ℕ) × ((q ∷ qs) ≡ map pos (m ∷ ms))
    split [] e = cc e
    split (m ∷ ms) e = (m, ms, e)

-- the lines are read as the operations
pub record AllUnderstood (floats : Floats) (target : String) (ops : List GateOp)
    (lines : List String) : Type 0 where
  pub solid : AllSolid lines
  pub read :
      (program : Program)
      → read_lines floats target lines program
        ≡ ok (record program { gates = program.gates ++ map (forget floats) ops })

module _ (floats : Floats) (half : Float) (printed : Reads floats floats.minus_half_pi half)
    (near : floats.is_minus_half_pi half ≡ true) where
  with_operands :
      (target : String) (legal : List String) (m : ℕ) (ms : List ℕ) (gate : NativeGate)
      (params : List Float)
      → lookup target legal_gates ≡ some legal
      → contains legal (gate_value gate) ≡ true
      → HasShape (op_of floats m ms gate params)
      → Exact floats (op_of floats m ms gate params)
      → Sound
          (Understood floats target (op_of floats m ms gate params))
          (ir_gate_to_openqasm floats (op_of floats m ms gate params) target)
  unfolding ir_gate_to_openqasm
  with_operands target legal m ms gate params listed ok_gate shape exact =
      elim (Bool-cases (str_eq target "cz")) [
        | inl is_cz ↦
            let cz : target ≡ "cz" = (str_eq_iff target "cz").0 is_cz in
            rw cz (
              gate_cz-Understood floats m ms gate params shape
                (cz-legal gate legal (subst (λ t. lookup t legal_gates ≡ some legal) cz listed)
                  ok_gate)
                exact)
        | inr not_cz ↦ elim (Bool-cases (str_eq target "cnot")) [
          | inl is_cnot ↦
              let cnot : target ≡ "cnot" = (str_eq_iff target "cnot").0 is_cnot in
              rw cnot (gate_cnot-Understood floats m ms gate params half shape printed near exact)
          | inr not_cnot ↦ rw (not_cz, not_cnot) (Sound-raise _)
        ]
      ]

  gate-Understood :
      (target : String) (n : ℤ) (op : GateOp) (legal : List String)
      → lookup target legal_gates ≡ some legal
      → HasShape op
      → IsLegal legal n op
      → Exact floats op
      → Sound (Understood floats target op) (ir_gate_to_openqasm floats op target)
  gate-Understood target n op legal listed shape ok_gate exact =
      let (m, ms, e) = operands n op.gate op.qubits ok_gate.1 shape.0 in
      let same : op ≡ op_of floats m ms op.gate op.params =
        ap (λ qs. record op { qubits = qs }) e in
      subst (λ op. Sound (Understood floats target op) (ir_gate_to_openqasm floats op target))
        (sym same)
        (with_operands target legal m ms op.gate op.params listed ok_gate.0
          (subst HasShape same shape) exact)

  pub gate_lines-AllUnderstood :
      (target : String) (n : ℤ) (legal : List String) (ops : List GateOp)
      → lookup target legal_gates ≡ some legal
      → All HasShape ops
      → All (IsLegal legal n) ops
      → All (Exact floats) ops
      → Sound (AllUnderstood floats target ops) (gate_lines floats target ops)
  unfolding gate_lines read_lines
  gate_lines-AllUnderstood target n legal [] listed shapes legals exact = Sound-return [] (record {
    solid = tt;
    read = λ program.
        ap (λ gates. ok (record program { gates = gates })) (sym (append-nil program.gates));
  })
  gate_lines-AllUnderstood target n legal (op ∷ ops) listed shapes legals exact =
      Sound-bind (ir_gate_to_openqasm floats op target) _
        (gate-Understood target n op legal listed shapes.0 legals.0 exact.0)
        λ line h.
          Sound-bind (gate_lines floats target ops) _
            (gate_lines-AllUnderstood target n legal ops listed shapes.1 legals.1 exact.1)
            λ lines hs. Sound-return (line ∷ lines) (record {
              solid = (h.solid, hs.solid);
              read = λ program.
                  let next : Program = record program {
                    gates = program.gates ++ forget floats op ∷ [];
                  } in
                  read_lines-step floats target line lines program next h.solid (h.read program)
                  ∙ hs.read next
                  ∙ ap (λ gates. ok (record program { gates = gates }))
                      (append_assoc program.gates (forget floats op ∷ [])
                        (map (forget floats) ops));
            })
