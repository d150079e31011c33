-- ===== src/Qasm/Unbroken.antt =====
-- The lines that src/coda_node/server/qasm.py prints are whole lines: their numerals and operands have no
-- end of a line in them, and a semicolon ends them.
use Prim.Native.Char.{Char}
use coda_self_service.Prelude.{◌≡◌, refl, ℕ, true, false, not, List, [], ◌∷◌, ◌++◌, all, arith}
use coda_self_service.Prelude.Text.{chars, str_nat, is_digit, is_space}
use coda_self_service.Prelude.Lines.{is_break}
use coda_self_service.Prelude.Splitting.{all-append, all_weaken}
use coda_self_service.Qasm.{is_word}
use coda_self_service.Prelude.Numerals.{str_nat-IsNumeral}
use coda_self_service.Qasm.Printed.{ref_chars, refs_tail, refs_chars, is_plain}
use coda_self_service.Qasm.Layout.{Ends, last, after, Ends-append, unbroken}

digit-whole : (c : Char) → is_digit c ≡ true → not (is_break c) ≡ true
digit-whole c h = ground arith

pub word-whole : (c : Char) → is_word c ≡ true → not (is_break c) ≡ true
word-whole c h = ground arith

pub word-start : (c : Char) → is_word c ≡ true → is_space c ≡ false
word-start c h = ground arith

plain-whole : (c : Char) → is_plain c ≡ true → not (is_break c) ≡ true
plain-whole c h = ground arith

pub unbroken-plain : (cs : List Char) → all is_plain cs ≡ true → unbroken cs ≡ true
unbroken-plain cs h = all_weaken is_plain _ cs plain-whole h

pub unbroken-append :
    (xs ys : List Char) → unbroken xs ≡ true → unbroken ys ≡ true → unbroken (xs ++ ys) ≡ true
unbroken-append xs ys h k = all-append (λ c. not (is_break c)) xs ys h k

-- a numeral, and what follows it
pub unbroken-str_nat :
    (n : ℕ) (rest : List Char) → unbroken rest ≡ true → unbroken (chars (str_nat n) ++ rest) ≡ true
unbroken-str_nat n rest h =
    let digits = (str_nat-IsNumeral n).digits in
    all-append _ (chars (str_nat n)) rest
      (all_weaken is_digit _ (chars (str_nat n)) digit-whole digits) h

unbroken-refs_tail : (ns : List ℕ) → unbroken (refs_tail ns) ≡ true
unbroken-refs_tail [] = refl
unbroken-refs_tail (n ∷ ns) = unbroken-str_nat n ("]" ∷ refs_tail ns) (unbroken-refs_tail ns)

pub unbroken-refs_chars : (n : ℕ) (ns : List ℕ) → unbroken (refs_chars n ns) ≡ true
unbroken-refs_chars n ns = unbroken-str_nat n ("]" ∷ refs_tail ns) (unbroken-refs_tail ns)

pub Ends-ref_chars : (n : ℕ) {rest : List Char} → Ends rest → Ends (ref_chars n rest)
Ends-ref_chars n h = after "q" (after "[" (Ends-append (chars (str_nat n)) (after "]" h)))

Ends-refs_tail : (ns : List ℕ) → Ends (refs_tail ns)
Ends-refs_tail [] = last
Ends-refs_tail (n ∷ ns) = after "," (after " " (Ends-ref_chars n (Ends-refs_tail ns)))

pub Ends-refs_chars : (n : ℕ) (ns : List ℕ) → Ends (refs_chars n ns)
Ends-refs_chars n ns = Ends-ref_chars n (Ends-refs_tail ns)
