-- ===== src/Qasm/Statements.antt =====
-- src/coda_node/server/qasm.py: the declarations and the measurements that `ir_to_openqasm` prints are read back.
use Prim.Native.Char.{Char}
use coda_self_service.Prelude.{
  ◌≡◌, refl, sym, ap, subst, fun_ext, ◌∙◌, ℕ, suc, String, ◌<>◌, true, false, none, some, List, [],
  ◌∷◌, ◌++◌, map, append_assoc, append-nil, length,
}
use coda_self_service.Prelude.Int.{ℤ, pos}
use coda_self_service.Prelude.Text.{chars, strip_chars, is_space, str_nat, str_int}
use coda_self_service.Prelude.Splitting.{chars-append}
use coda_self_service.Effects.{ok}
use coda_self_service.Effects.Results.{◌>>=◌, >>=_assoc}
use coda_self_service.Qasm.{
  Floats, Program, is_header, is_include, declares, measured, qubit_ref, read_line, read_lines,
  read_declaration, read_measure, measure_lines, bit_lines, head_lines, no_program,
}
use coda_self_service.Qasm.Printed.{ref_chars, index-str_nat}
use coda_self_service.Qasm.Layout.{
  Ends, last, after, Ends-append, unbroken, Solid, AllSolid, strip_chars-Solid,
}
use coda_self_service.Qasm.Instructions.{str_int-pos}
use coda_self_service.Qasm.Unbroken.{unbroken-append, Ends-ref_chars, unbroken-str_nat}

-- a keyword with a number in brackets and what follows
numbered-chars :
    (head : String) (n : ℕ) (tail : String)
    → chars (head <> str_nat n <> tail) ≡ chars head ++ (chars (str_nat n) ++ chars tail)
numbered-chars head n tail =
    chars-append head (str_nat n <> tail)
    ∙ ap (λ cs. chars head ++ cs) (chars-append (str_nat n) tail)

module _ (floats : Floats) (target : String) where
  qubit_line-read :
      (n : ℕ) (program : Program)
      → program.num_qubits ≡ none
      → read_line floats target (chars ("qubit[" <> str_nat n <> "] q;")) program
        ≡ ok (record program { num_qubits = some (pos n) })
  unfolding read_line read_declaration is_header is_include declares
  qubit_line-read n program h =
      rw (numbered-chars "qubit[" n "] q;", index-str_nat n (chars " q;"), h) refl

  bit_line-read :
      (n : ℕ) (program : Program)
      → read_line floats target (chars ("bit[" <> str_nat n <> "] c;")) program ≡ ok program
  unfolding read_line is_header is_include declares
  bit_line-read n program = rw (numbered-chars "bit[" n "] c;", index-str_nat n (chars " c;")) refl

  header-read :
      (program : Program) → read_line floats target (chars "OPENQASM 3.0;") program ≡ ok program
  unfolding read_line is_header
  header-read program = refl

  include-read :
      (program : Program)
      → read_line floats target (chars "include \"stdgates.inc\";") program ≡ ok program
  unfolding read_line is_header is_include
  include-read program = refl

  measure_line : ℕ → ℕ → String
  measure_line i q = "c[" <> str_nat i <> "] = measure q[" <> str_nat q <> "];"

  measure_line-chars :
      (i q : ℕ)
      → chars (measure_line i q)
        ≡ "c" ∷ "[" ∷ (chars (str_nat i) ++ "]" ∷ (chars " = measure " ++ ref_chars q (";" ∷ [])))
  unfolding measure_line
  measure_line-chars i q =
      numbered-chars "c[" i ("] = measure q[" <> str_nat q <> "];")
      ∙ ap (λ cs. "c" ∷ "[" ∷ (chars (str_nat i) ++ cs)) (numbered-chars "] = measure q[" q "];")

  measure_line-read :
      (i q : ℕ) (program : Program)
      → read_line floats target (chars (measure_line i q)) program
        ≡ ok (record program { measurements = program.measurements ++ pos q ∷ [] })
  unfolding read_line read_declaration read_measure is_header is_include declares measured qubit_ref
  measure_line-read i q program =
      rw
        (
          measure_line-chars i q,
          index-str_nat i (chars " = measure " ++ ref_chars q (";" ∷ [])),
          index-str_nat q (";" ∷ []),
        )
        refl

  -- one line more
  pub read_lines-step :
      (line : String) (lines : List String) (program next : Program)
      → Solid (chars line)
      → read_line floats target (chars line) program ≡ ok next
      → read_lines floats target (line ∷ lines) program ≡ read_lines floats target lines next
  unfolding read_lines
  read_lines-step line lines program next h reads = rw (strip_chars-Solid h, reads) refl

  pub read_lines-append :
      (xs ys : List String) (program : Program)
      → read_lines floats target (xs ++ ys) program
        ≡ (read_lines floats target xs program >>= read_lines floats target ys)
  unfolding read_lines
  read_lines-append [] ys program = refl
  read_lines-append (x ∷ xs) ys program =
      let first = read_line floats target (strip_chars (chars x)) program in
      ap (λ rest. first >>= rest) (fun_ext (read_lines-append xs ys))
      ∙ >>=_assoc first (read_lines floats target xs) (read_lines floats target ys)

  measure_line-Solid : (i q : ℕ) → Solid (chars (measure_line i q))
  measure_line-Solid i q = record {
    first = "c";
    rest = _;
    shape = measure_line-chars i q;
    starts = refl;
    ends = subst Ends (sym (measure_line-chars i q)) (
        after "c" (
          after "[" (
            Ends-append (chars (str_nat i))
              (after "]" (Ends-append (chars " = measure ") (Ends-ref_chars q last))))));
    whole =
        rw (measure_line-chars i q)
          (unbroken-str_nat i _ (unbroken-str_nat q ("]" ∷ ";" ∷ []) refl));
  }

  pub measure_lines-Solid : (i : ℕ) (qs : List ℕ) → AllSolid (measure_lines i (map pos qs))
  unfolding measure_lines measure_line
  measure_lines-Solid i [] = tt
  measure_lines-Solid i (q ∷ qs) =
      rw (str_int-pos q) (measure_line-Solid i q, measure_lines-Solid (suc i) qs)

  pub measure_lines-read :
      (i : ℕ) (qs : List ℕ) (program : Program)
      → read_lines floats target (measure_lines i (map pos qs)) program
        ≡ ok (record program { measurements = program.measurements ++ map pos qs })
  unfolding measure_lines measure_line read_lines
  measure_lines-read i [] program =
      ap (λ ms. ok (record program { measurements = ms })) (sym (append-nil program.measurements))
  measure_lines-read i (q ∷ qs) program =
      let next : Program = record program { measurements = program.measurements ++ pos q ∷ [] } in
      ap
        (λ qubit.
          read_lines floats target
            (("c[" <> str_nat i <> "] = measure q[" <> qubit <> "];")
              ∷ measure_lines (suc i) (map pos qs))
            program)
        (str_int-pos q)
      ∙ read_lines-step (measure_line i q) (measure_lines (suc i) (map pos qs)) program next
          (measure_line-Solid i q) (measure_line-read i q program)
      ∙ measure_lines-read (suc i) qs next
      ∙ ap (λ ms. ok (record program { measurements = ms }))
          (append_assoc program.measurements (pos q ∷ []) (map pos qs))

  numbered-Solid :
      (c : Char) (head : List Char) (n : ℕ) (middle : List Char) {cs : List Char}
      → cs ≡ c ∷ head ++ (chars (str_nat n) ++ (middle ++ ";" ∷ []))
      → is_space c ≡ false
      → unbroken (c ∷ head) ≡ true
      → unbroken (middle ++ ";" ∷ []) ≡ true
      → Solid cs
  numbered-Solid c head n middle shape starts h m = record {
    first = c;
    rest = head ++ (chars (str_nat n) ++ (middle ++ ";" ∷ []));
    shape = shape;
    starts = starts;
    ends =
        subst Ends (sym shape)
          (Ends-append (c ∷ head) (Ends-append (chars (str_nat n)) (Ends-append middle last)));
    whole = rw shape (
        unbroken-append (c ∷ head) (chars (str_nat n) ++ (middle ++ ";" ∷ [])) h
          (unbroken-str_nat n (middle ++ ";" ∷ []) m));
  }

  fixed-Solid :
      (c : Char) (cs : List Char)
      → is_space c ≡ false
      → unbroken (c ∷ cs ++ ";" ∷ []) ≡ true
      → Solid (c ∷ cs ++ ";" ∷ [])
  fixed-Solid c cs starts whole = record {
    first = c;
    rest = cs ++ ";" ∷ [];
    shape = refl;
    starts = starts;
    ends = Ends-append (c ∷ cs) last;
    whole = whole;
  }

  bit_lines-Solid : (qs : List ℤ) → AllSolid (bit_lines qs)
  bit_lines-Solid [] = tt
  bit_lines-Solid (q ∷ qs) = (
    numbered-Solid "b" (chars "it[") (length (q ∷ qs)) (chars "] c")
        (numbered-chars "bit[" (length (q ∷ qs)) "] c;") refl refl refl,
    tt,
  )

  -- the lines before the gates
  pub head-Solid : (n : ℕ) (qs : List ℤ) → AllSolid (head_lines (pos n) ++ bit_lines qs)
  head-Solid n qs = rw (str_int-pos n) (
    fixed-Solid "O" (chars "PENQASM 3.0") refl refl,
    (
      fixed-Solid "i" (chars "nclude \"stdgates.inc\"") refl refl,
      (
        numbered-Solid "q" (chars "ubit[") n (chars "] q") (numbered-chars "qubit[" n "] q;") refl
            refl refl,
        bit_lines-Solid qs,
      ),
    ),
  )

  bit_lines-read :
      (qs : List ℤ) (program : Program)
      → read_lines floats target (bit_lines qs) program ≡ ok program
  unfolding read_lines
  bit_lines-read [] program = refl
  bit_lines-read (q ∷ qs) program =
      read_lines-step _ [] program program (bit_lines-Solid (q ∷ qs)).0
        (bit_line-read (length (q ∷ qs)) program)

  pub head-read :
      (n : ℕ) (qs : List ℤ)
      → read_lines floats target (head_lines (pos n) ++ bit_lines qs) no_program
        ≡ ok (record no_program { num_qubits = some (pos n) })
  head-read n qs =
      let (header, (include, (qubit, bits))) = head-Solid n qs in
      let qubit_line : List String = ("qubit[" <> str_int (pos n) <> "] q;") ∷ bit_lines qs in
      let program : Program = record no_program { num_qubits = some (pos n) } in
      read_lines-step "OPENQASM 3.0;" ("include \"stdgates.inc\";" ∷ qubit_line) no_program
        no_program header (header-read no_program)
      ∙ read_lines-step "include \"stdgates.inc\";" qubit_line no_program no_program include
          (include-read no_program)
      ∙ read_lines-step ("qubit[" <> str_int (pos n) <> "] q;") (bit_lines qs) no_program program
          qubit (rw (str_int-pos n) (qubit_line-read n no_program refl))
      ∙ bit_lines-read qs program
