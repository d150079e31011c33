-- ===== src/Qasm/Printed.antt =====
-- The regular expressions of src/coda_node/server/qasm.py on what `ir_to_openqasm` prints.
use Prim.Native.Char.{Char, code}
use coda_self_service.Prelude.{
  ◌≡◌, refl, ℕ, zero, suc, ◌≤◌, ◌<◌, Bool, true, false, not, ◌&&◌, none, some, List, [], ◌∷◌, ◌++◌,
  all, All, inl, inr, Bool-cases, length, arith, ◌==◌, length-append,
}
use coda_self_service.Prelude.Text.{chars, text, is_digit, str_nat}
use coda_self_service.Prelude.Lines.{is_break}
use coda_self_service.Qasm.{
  is_word, span, many1, literal, index, qubit_ref, qubit_refs, parenthesis, is_ignored, is_header,
  is_include, declares, measured, gate_line,
}
use coda_self_service.Prelude.Splitting.{untrue, all_split}
use coda_self_service.Prelude.Numerals.{str_nat-IsNumeral}

pub span_stops :
    (p : Char → Bool) (xs : List Char) (c : Char) (rest : List Char)
    → all p xs ≡ true
    → p c ≡ false
    → span p (xs ++ c ∷ rest) ≡ (xs, c ∷ rest)
span_stops p [] c rest h k = rw k refl
span_stops p (x ∷ xs) c rest h k =
    let (x_passes, xs_pass) = all_split p x xs h in
    rw (span_stops p xs c rest xs_pass k, x_passes) refl

many1_stops :
    (p : Char → Bool) (x : Char) (xs cs : List Char) (c : Char) (rest : List Char)
    → cs ≡ x ∷ xs
    → all p cs ≡ true
    → p c ≡ false
    → many1 p (cs ++ c ∷ rest) ≡ some (cs, c ∷ rest)
many1_stops p x xs cs c rest e h k = rw (span_stops p cs c rest h k) (rw e refl)

-- a number in brackets
pub index-str_nat :
    (n : ℕ) (rest : List Char) → index ("[" ∷ (chars (str_nat n) ++ "]" ∷ rest)) ≡ some (n, rest)
unfolding index
index-str_nat n rest =
    let h = str_nat-IsNumeral n in
    let read =
      many1_stops is_digit h.first h.rest (chars (str_nat n)) "]" rest h.shape h.digits refl in
    rw (read, h.value) refl

abbrev pub ref_chars : ℕ → List Char → List Char
ref_chars n rest = "q" ∷ "[" ∷ (chars (str_nat n) ++ "]" ∷ rest)

pub qubit_ref-q : (n : ℕ) (rest : List Char) → qubit_ref (ref_chars n rest) ≡ some (n, rest)
unfolding qubit_ref
qubit_ref-q n rest = index-str_nat n rest

-- the qubits of a gate, as they are printed: after the first, and all
abbrev pub refs_tail : List ℕ → List Char
refs_tail [] = ";" ∷ []
refs_tail (n ∷ ns) = "," ∷ " " ∷ ref_chars n (refs_tail ns)

abbrev pub refs_chars : ℕ → List ℕ → List Char
refs_chars n ns = ref_chars n (refs_tail ns)

qubit_refs-printed :
    (fuel n : ℕ) (ns : List ℕ)
    → length ns < fuel
    → qubit_refs fuel (refs_chars n ns) ≡ some (n ∷ ns)
unfolding qubit_refs
qubit_refs-printed zero n ns h = absurd (omega arith)
qubit_refs-printed (suc fuel) n [] h = rw (qubit_ref-q n (";" ∷ [])) refl
qubit_refs-printed (suc fuel) n (m ∷ ns) h =
    rw (qubit_ref-q n (refs_tail (m ∷ ns)), qubit_refs-printed fuel m ns (omega arith)) refl

length-append_le : (xs ys : List Char) → length ys ≤ length (xs ++ ys)
length-append_le xs ys = omega (arith, length-append xs ys)

-- there are more characters than qubits
length-refs_tail : (ns : List ℕ) → length ns < length (refs_tail ns)
length-refs_tail [] = omega arith
length-refs_tail (n ∷ ns) =
    omega (arith, length-refs_tail ns, length-append_le (chars (str_nat n)) ("]" ∷ refs_tail ns))

pub all_refs :
    (n : ℕ) (ns : List ℕ)
    → qubit_refs (suc (length (refs_chars n ns))) (refs_chars n ns) ≡ some (n ∷ ns)
all_refs n ns =
    qubit_refs-printed _ n ns (
      omega (arith, length-refs_tail ns, length-append_le (chars (str_nat n)) ("]" ∷ refs_tail ns)))

-- no closing parenthesis, no comma, no end of a line
abbrev pub is_plain : Char → Bool
is_plain c = not (code c == 41) && not (code c == 44) && not (is_break c)

-- The name of a gate: two letters with which no other statement begins.
pub record GateName (c d : Char) : Type 0 where
  pub first : is_word c ≡ true
  pub second : is_word d ≡ true
  pub unignored : (rest : List Char) → is_ignored (c ∷ d ∷ rest) ≡ false
  pub no_register : (rest : List Char) → declares "qubit" (c ∷ d ∷ rest) ≡ none

literal-first :
    (x : Char) (xs : List Char) (c : Char) (cs : List Char)
    → (code x == code c) ≡ false
    → literal (x ∷ xs) (c ∷ cs) ≡ none
literal-first x xs c cs h = rw h refl

literal-second :
    (x y : Char) (xs : List Char) (c d : Char) (cs : List Char)
    → (code y == code d) ≡ false
    → literal (x ∷ y ∷ xs) (c ∷ d ∷ cs) ≡ none
literal-second x y xs c d cs h = elim (Bool-cases (code x == code c)) [
  | inl same ↦ rw same (literal-first y xs d cs h)
  | inr differs ↦ literal-first x (y ∷ xs) c (d ∷ cs) differs
]

all-true : (tests : List Bool) → all (λ b. b) tests ≡ true → All (λ b. b ≡ true) tests
all-true [] h = tt
all-true (true ∷ tests) h = (refl, all-true tests h)
all-true (false ∷ tests) h = cc h

-- tests for it
abbrev pub name_tests : Char → Char → List Bool
name_tests c d =
    is_word c
    ∷ is_word d
    ∷ not (code "/" == code c)
    ∷ not (code "O" == code c)
    ∷ not (code "b" == code c)
    ∷ not (code "q" == code c)
    ∷ not (code "n" == code d)
    ∷ []

pub spelled : (c d : Char) → all (λ b. b) (name_tests c d) ≡ true → GateName c d
unfolding is_header is_include declares
spelled c d h =
    let (word_c, (word_d, (slash, (capital, (b, (q, (second, _))))))) =
      all-true (name_tests c d) h in
    record {
      first = word_c;
      second = word_d;
      unignored = λ rest.
          rw
            (
              literal-first "/" (chars "/") c (d ∷ rest) (untrue slash),
              literal-first "O" (chars "PENQASM") c (d ∷ rest) (untrue capital),
              literal-second "i" "n" (chars "clude") c d rest (untrue second),
              literal-first "b" (chars "it") c (d ∷ rest) (untrue b),
            )
            refl;
      no_register = λ rest. rw (literal-first "q" (chars "ubit") c (d ∷ rest) (untrue q)) refl;
    }

module _ (c d : Char) (name : GateName c d) where
  pub name_stops :
      (e : Char) (rest : List Char)
      → is_word e ≡ false
      → span is_word (c ∷ d ∷ e ∷ rest) ≡ (c ∷ d ∷ [], e ∷ rest)
  name_stops e rest h = span_stops is_word (c ∷ d ∷ []) e rest (rw (name.first, name.second) refl) h

  pub measured-none :
      (e : Char) (rest : List Char)
      → is_word e ≡ false
      → (code "[" == code e) ≡ false
      → measured (c ∷ d ∷ e ∷ rest) ≡ none
  unfolding measured qubit_ref index
  measured-none e rest h k = rw (name_stops e rest h) (rw k refl)

  pub gate_line-bare :
      (n : ℕ) (ns : List ℕ)
      → gate_line (c ∷ d ∷ " " ∷ refs_chars n ns)
        ≡ some (record { name = text (c ∷ d ∷ []); params = ""; qubits = n ∷ ns })
  unfolding gate_line parenthesis
  gate_line-bare n ns = rw (name_stops " " (refs_chars n ns) refl) (rw (all_refs n ns) refl)

  pub gate_line-angle :
      (ps : List Char) (n : ℕ) (ns : List ℕ)
      → all (λ c. not (code c == 41)) ps ≡ true
      → gate_line (c ∷ d ∷ "(" ∷ (ps ++ ")" ∷ " " ∷ refs_chars n ns))
        ≡ some (record { name = text (c ∷ d ∷ []); params = text ps; qubits = n ∷ ns })
  unfolding gate_line parenthesis
  gate_line-angle ps n ns h =
      rw
        (
          name_stops "(" (ps ++ ")" ∷ " " ∷ refs_chars n ns) refl,
          span_stops (λ c. not (code c == 41)) ps ")" (" " ∷ refs_chars n ns) h refl,
        )
        (rw (all_refs n ns) refl)
