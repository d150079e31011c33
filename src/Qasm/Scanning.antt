-- ===== src/Qasm/Scanning.antt =====
-- src/coda_node/server/qasm.py: the regular expressions, matched at the start of a line. What a loop
-- of each of them takes cannot begin with the character that must follow it, so matching never goes
-- back. Words, digits and white space are those of ASCII.
use Prim.Native.Char.{Char, code}
use coda_self_service.Prelude.{
  ◌≡◌, refl, ℕ, zero, suc, String, Bool, not, ◌||◌, ◌&&◌, Option, none, some, List, [], ◌∷◌, leb,
  ◌==◌, length, if◌then◌else◌,
}
use coda_self_service.Prelude.Text.{number, chars, text, is_space, is_digit, drop_spaces}
pub use coda_self_service.Prelude.Text.{literal}

infixl 5 ◌>>=◌
abbrev ◌>>=◌ : {A B : Type 0} → Option A → (A → Option B) → Option B
none >>= f = none
some a >>= f = f a

abbrev pub is_word : Char → Bool
is_word c =
    let n = code c in is_digit c || (leb 65 n && leb n 90) || (leb 97 n && leb n 122) || n == 95

-- the longest run of characters that pass the test, and what follows
abbrev pub span : (Char → Bool) → List Char → List Char × List Char
span p [] = ([], [])
span p (c ∷ cs) = let (run, rest) = span p cs in if p c then (c ∷ run, rest) else ([], c ∷ cs)

abbrev pub nonempty : List Char × List Char → Option (List Char × List Char)
nonempty ([], rest) = none
nonempty (c ∷ run, rest) = some (c ∷ run, rest)

-- one or more characters that pass the test
abbrev pub many1 : (Char → Bool) → List Char → Option (List Char × List Char)
many1 p cs = nonempty (span p cs)

-- `_HEADER_RE.match`
unfoldable pub is_header : List Char → Option (Unit {0})
is_header cs = do
  cs ← literal (chars "OPENQASM") cs
  (_, cs) ← many1 is_space cs
  (_, cs) ← many1 (λ c. is_digit c || code c == 46) cs
  cs ← literal (chars ";") (drop_spaces cs)
  some tt

-- `_INCLUDE_RE.match`
unfoldable pub is_include : List Char → Option (Unit {0})
is_include cs = do
  cs ← literal (chars "include") cs
  (_, cs) ← many1 is_space cs
  cs ← literal (chars "\"") cs
  (_, cs) ← many1 (λ c. not (code c == 34)) cs
  cs ← literal (chars "\"") cs
  cs ← literal (chars ";") (drop_spaces cs)
  some tt

-- `\[(\d+)]`
unfoldable pub index : List Char → Option (ℕ × List Char)
index cs = do
  cs ← literal (chars "[") cs
  (digits, cs) ← many1 is_digit cs
  cs ← literal (chars "]") cs
  some (number 0 digits, cs)

-- `_QUBIT_DECL_RE.match` and `_BIT_DECL_RE.match`, with the keyword
unfoldable pub declares : String → List Char → Option ℕ
declares keyword cs = do
  cs ← literal (chars keyword) cs
  (n, cs) ← index cs
  (_, cs) ← many1 is_space cs
  (_, cs) ← many1 is_word cs
  cs ← literal (chars ";") (drop_spaces cs)
  some n

-- `\w+\[(\d+)]`
unfoldable pub qubit_ref : List Char → Option (ℕ × List Char)
qubit_ref cs = do (_, cs) ← many1 is_word cs; index cs

-- `_MEASURE_RE.match`: the qubit
unfoldable pub measured : List Char → Option ℕ
measured cs = do
  (_, cs) ← qubit_ref cs
  cs ← literal (chars "=") (drop_spaces cs)
  cs ← literal (chars "measure") (drop_spaces cs)
  (_, cs) ← many1 is_space cs
  (q, cs) ← qubit_ref cs
  cs ← literal (chars ";") (drop_spaces cs)
  some q

abbrev end_refs : ℕ → List Char → Option (List ℕ)
end_refs q (c ∷ cs) = if code c == 59 then some (q ∷ []) else none
end_refs q [] = none

-- The qubits of a gate, up to the semicolon. After every comma a qubit must follow, so the number of
-- characters is fuel enough.
unfoldable pub qubit_refs : ℕ → List Char → Option (List ℕ)
qubit_refs zero cs = none
qubit_refs (suc fuel) cs = do
  (q, cs) ← qubit_ref cs
  elim (literal (chars ",") (drop_spaces cs)) [
    | some cs ↦ (qubit_refs fuel (drop_spaces cs) >>= λ qs. some (q ∷ qs))
    | none ↦ end_refs q (drop_spaces cs)
  ]

-- `(?:\(([^)]*)\))?`: the text in the parentheses, if there are any
unfoldable pub parenthesis : List Char → Option (List Char × List Char)
parenthesis cs = elim (literal (chars "(") cs) [
  | none ↦ some ([], cs)
  | some inner ↦
      let (run, rest) = span (λ c. not (code c == 41)) inner in
      (literal (chars ")") rest >>= λ rest. some (run, rest))
]

pub record GateLine : Type 0 where
  pub name : String
  -- the text of the parameters; without parentheses it is empty
  pub params : String
  pub qubits : List ℕ

-- `_GATE_RE.match`, with the numbers that `_QUBIT_REF_RE.findall` reads in the last group
unfoldable pub gate_line : List Char → Option GateLine
gate_line cs = do
  (name, cs) ← many1 is_word cs
  (params, cs) ← parenthesis cs
  (_, cs) ← many1 is_space cs
  qubits ← qubit_refs (suc (length cs)) cs
  some (record { name = text name; params = text params; qubits = qubits })

gate_line_runs :
    gate_line (chars "rx(0.5) q[3] , q[12] ;")
    ≡ some (record { name = "rx"; params = "0.5"; qubits = 3 ∷ 12 ∷ [] })
unfolding gate_line parenthesis qubit_refs qubit_ref index
gate_line_runs = refl

measured_runs : measured (chars "c[0]=measure q[7];") ≡ some 7
unfolding measured qubit_ref index
measured_runs = refl
