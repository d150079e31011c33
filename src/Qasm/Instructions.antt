-- ===== src/Qasm/Instructions.antt =====
-- src/coda_node/server/qasm.py: an instruction that `ir_to_openqasm` prints is read as the operation.
use Prim.Native.Char.{Char, code}
use coda_self_service.Prelude.{
  ◌≡◌, refl, ap, ◌∙◌, ℕ, String, ◌<>◌, true, false, not, some, List, [], ◌∷◌, ◌++◌, all, map, arith,
  append_assoc, ◌==◌,
}
use coda_self_service.Prelude.Int.{pos}
use coda_self_service.Prelude.Text.{chars, text, strip, is_blank, str_nat, str_int}
use coda_self_service.Prelude.Lines.{join}
use coda_self_service.Prelude.Splitting.{
  chars-append, chars-append_assoc, all_weaken, text-chars, split_at_alone,
}
use coda_self_service.Effects.{ok}
use coda_self_service.Ir.{Float, GateOp}
use coda_self_service.Qasm.{
  Floats, params_of, parse_params, qubit_text, bare, instruction, read_line, read_declaration,
  read_measure, read_gate, openqasm_gate_to_ir, Program, GateLine, gate_line,
}
use coda_self_service.Qasm.Printed.{
  is_plain, GateName, refs_chars, ref_chars, gate_line-bare, gate_line-angle, measured-none,
}

-- The printed `x` has no character that stands for something else, and is read as `y`.
pub record Reads (floats : Floats) (x y : Float) : Type 0 where
  pub nonblank : is_blank (floats.format x) ≡ false
  pub plain : all is_plain (chars (floats.format x)) ≡ true
  pub parsed : floats.parse (strip (floats.format x)) ≡ some y

module _ (floats : Floats) where
  parse_params-one :
      (s : String) (y : Float)
      → floats.parse (strip s) ≡ some y
      → parse_params floats (s ∷ []) ≡ ok (y ∷ [])
  unfolding parse_params
  parse_params-one s y h = rw (h, parse_params) refl

  params_of-format :
      (x y : Float)
      → Reads floats x y
      → params_of floats (text (chars (floats.format x))) ≡ ok (y ∷ [])
  unfolding params_of
  params_of-format x y h =
      let alone =
        all_weaken is_plain (λ c. not (code c == code ",")) (chars (floats.format x))
          (λ c k. ground arith) h.plain in
      rw (text-chars (floats.format x), h.nonblank, split_at_alone "," (floats.format x) alone)
        (parse_params-one (floats.format x) y h.parsed)

  read_gate_as :
      (target : String) (cs : List Char) (program : Program) (found : GateLine)
      (params : List Float) (op : GateOp)
      → gate_line cs ≡ some found
      → params_of floats found.params ≡ ok params
      → openqasm_gate_to_ir floats found.name params (map pos found.qubits) target ≡ ok op
      → read_gate floats target (text cs) (gate_line cs) program
        ≡ ok (record program { gates = program.gates ++ op ∷ [] })
  unfolding read_gate
  read_gate_as target cs program found params op g p o = rw (g, p, o) refl

  module _ (target : String) (c d : Char) (name : GateName c d) (n : ℕ) (ns : List ℕ) (op : GateOp)
      (program : Program) where
    pub read_line-bare :
        openqasm_gate_to_ir floats (text (c ∷ d ∷ [])) [] (map pos (n ∷ ns)) target ≡ ok op
        → read_line floats target (c ∷ d ∷ " " ∷ refs_chars n ns) program
          ≡ ok (record program { gates = program.gates ++ op ∷ [] })
    unfolding read_line read_declaration read_measure params_of
    read_line-bare h =
        rw
          (
            name.unignored (" " ∷ refs_chars n ns),
            name.no_register (" " ∷ refs_chars n ns),
            measured-none c d name " " (refs_chars n ns) refl refl,
          )
          (read_gate_as target _ program _ [] op (gate_line-bare c d name n ns) refl h)

    pub read_line-angle :
        (x y : Float)
        → Reads floats x y
        → openqasm_gate_to_ir floats (text (c ∷ d ∷ [])) (y ∷ []) (map pos (n ∷ ns)) target ≡ ok op
        → read_line floats target
            (c ∷ d ∷ "(" ∷ (chars (floats.format x) ++ ")" ∷ " " ∷ refs_chars n ns))
            program
          ≡ ok (record program { gates = program.gates ++ op ∷ [] })
    unfolding read_line read_declaration read_measure
    read_line-angle x y r h =
        let closed =
          all_weaken is_plain (λ c. not (code c == 41)) (chars (floats.format x))
            (λ c k. ground arith) r.plain in
        let rest = chars (floats.format x) ++ ")" ∷ " " ∷ refs_chars n ns in
        rw
          (
            name.unignored ("(" ∷ rest),
            name.no_register ("(" ∷ rest),
            measured-none c d name "(" rest refl refl,
          )
          (read_gate_as target _ program _ (y ∷ []) op
            (gate_line-angle c d name (chars (floats.format x)) n ns closed)
            (params_of-format x y r) h)

pub str_int-pos : (n : ℕ) → str_int (pos n) ≡ str_nat n
unfolding str_int
str_int-pos n = refl

chars-ref : (n : ℕ) (rest : String) → chars (qubit_text (pos n) <> rest) ≡ ref_chars n (chars rest)
chars-ref n rest =
    rw
      (
        str_int-pos n,
        chars-append ("q[" <> str_nat n <> "]") rest,
        chars-append "q[" (str_nat n <> "]"),
        chars-append (str_nat n) "]",
      )
      (ap (λ cs. "q" ∷ "[" ∷ cs) (append_assoc (chars (str_nat n)) ("]" ∷ []) (chars rest)))

-- the qubits of a gate, as characters
pub chars-refs :
    (n : ℕ) (ns : List ℕ)
    → chars (join ", " (map qubit_text (map pos (n ∷ ns))) <> ";") ≡ refs_chars n ns
unfolding join
chars-refs n [] = chars-ref n ";"
chars-refs n (m ∷ ns) =
    let refs = join ", " (map qubit_text (map pos (m ∷ ns))) in
    chars-append_assoc (qubit_text (pos n)) (", " <> refs) ";"
    ∙ chars-ref n ((", " <> refs) <> ";")
    ∙ ap (ref_chars n) (
        chars-append_assoc ", " refs ";"
        ∙ chars-append ", " (refs <> ";")
        ∙ ap (λ cs. "," ∷ " " ∷ cs) (chars-refs m ns))

-- the whole instruction
pub chars-bare :
    (c d : Char) (n : ℕ) (ns : List ℕ)
    → chars (bare (text (c ∷ d ∷ [])) (join ", " (map qubit_text (map pos (n ∷ ns)))))
      ≡ c ∷ d ∷ " " ∷ refs_chars n ns
chars-bare c d n ns =
    let refs = join ", " (map qubit_text (map pos (n ∷ ns))) in
    chars-append (text (c ∷ d ∷ [])) (" " <> refs <> ";")
    ∙ ap (λ cs. c ∷ d ∷ cs) (chars-append " " (refs <> ";"))
    ∙ ap (λ cs. c ∷ d ∷ " " ∷ cs) (chars-refs n ns)

pub chars-instruction :
    (floats : Floats) (x : Float) (c d : Char) (n : ℕ) (ns : List ℕ)
    → chars (
        instruction floats
          (text (c ∷ d ∷ []))
          (x ∷ [])
          (join ", " (map qubit_text (map pos (n ∷ ns)))))
      ≡ c ∷ d ∷ "(" ∷ (chars (floats.format x) ++ ")" ∷ " " ∷ refs_chars n ns)
unfolding join
chars-instruction floats x c d n ns =
    let refs = join ", " (map qubit_text (map pos (n ∷ ns))) in
    chars-append (text (c ∷ d ∷ [])) ("(" <> floats.format x <> ") " <> refs <> ";")
    ∙ ap (λ cs. c ∷ d ∷ cs) (chars-append "(" (floats.format x <> ") " <> refs <> ";"))
    ∙ ap (λ cs. c ∷ d ∷ "(" ∷ cs)
        (chars-append (floats.format x) (") " <> refs <> ";")
          ∙ ap (λ cs. chars (floats.format x) ++ cs)
              (chars-append ") " (refs <> ";") ∙ ap (λ cs. ")" ∷ " " ∷ cs) (chars-refs n ns)))
