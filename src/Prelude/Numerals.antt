-- ===== src/Prelude/Numerals.antt =====
-- The decimal numerals that are printed are read back.
use Prim.Native.Char.{Char, code}
use coda_self_service.Prelude.Splitting.{
  chars-append, chars-text, all-append, all_weaken, all_split, untrue,
}
use Prim.Native.Nat.{ℕ, zero, suc, ◌+◌, ◌*◌, ◌-◌, ◌/◌, ◌%◌, ◌≤◌, ◌<◌}
use Prim.Native.String.{◌++◌ as ◌<>◌}
use mathlib.Core.Path.{◌≡◌, refl, sym, ap, subst, ◌∙◌}
use mathlib.Core.Logic.{inl, inr}
use mathlib.Core.Bool.{Bool, true, false, not}
use mathlib.Core.Option.{some}
use mathlib.Core.List.{List, [], ◌∷◌, ◌++◌, reverse, reverse-append, reverse-reverse}
use native.Mathlib.Omega.{arith}
use coda_self_service.Prelude.Tests.{ltb, ◌==◌, Bool-cases}
use coda_self_service.Prelude.Lists.{all}
use coda_self_service.Prelude.Int.{pos}
use coda_self_service.Prelude.Text.{
  chars, is_digit, is_space, digit, decimal, str_nat, str_int, number, digits, signed, int_of,
  drop_spaces, strip_chars, strip,
}

number_snoc :
    (n : ℕ) (cs : List Char) (d : Char) → number n (cs ++ d ∷ []) ≡ number n cs * 10 + (code d - 48)
number_snoc n [] d = refl
number_snoc n (c ∷ cs) d = number_snoc (n * 10 + (code c - 48)) cs d

-- a numeral of the number
pub record IsNumeral (n : ℕ) (cs : List Char) : Type 0 where
  pub first : Char
  pub rest : List Char
  pub shape : cs ≡ first ∷ rest
  pub digits : all is_digit cs ≡ true
  pub value : number 0 cs ≡ n

-- the character of a digit
record IsDigit (n : ℕ) (cs : List Char) : Type 0 where
  char : Char
  alone : cs ≡ char ∷ []
  digit : is_digit char ≡ true
  value : code char - 48 ≡ n

abbrev digit_char : (n : ℕ) → n < 10 → IsDigit n (chars (digit n))
digit_char zero h = record { char = "0"; alone = refl; digit = refl; value = refl }
digit_char (suc zero) h = record { char = "1"; alone = refl; digit = refl; value = refl }
digit_char (suc (suc zero)) h = record { char = "2"; alone = refl; digit = refl; value = refl }
digit_char (suc (suc (suc zero))) h = record {
  char = "3";
  alone = refl;
  digit = refl;
  value = refl;
}
digit_char (suc (suc (suc (suc zero)))) h = record {
  char = "4";
  alone = refl;
  digit = refl;
  value = refl;
}
digit_char (suc (suc (suc (suc (suc zero))))) h = record {
  char = "5";
  alone = refl;
  digit = refl;
  value = refl;
}
digit_char (suc (suc (suc (suc (suc (suc zero)))))) h = record {
  char = "6";
  alone = refl;
  digit = refl;
  value = refl;
}
digit_char (suc (suc (suc (suc (suc (suc (suc zero))))))) h = record {
  char = "7";
  alone = refl;
  digit = refl;
  value = refl;
}
digit_char (suc (suc (suc (suc (suc (suc (suc (suc zero)))))))) h = record {
  char = "8";
  alone = refl;
  digit = refl;
  value = refl;
}
digit_char (suc (suc (suc (suc (suc (suc (suc (suc (suc zero))))))))) h = record {
  char = "9";
  alone = refl;
  digit = refl;
  value = refl;
}
digit_char (suc (suc (suc (suc (suc (suc (suc (suc (suc (suc n)))))))))) h = absurd (omega arith)

digit-IsNumeral : (n : ℕ) → n < 10 → IsNumeral n (chars (digit n))
digit-IsNumeral n h =
    let d = digit_char n h in
    record {
      first = d.char;
      rest = [];
      shape = d.alone;
      digits = rw d.alone (rw d.digit refl);
      value = rw d.alone (omega (arith, d.value));
    }

append_digit :
    (n : ℕ) (cs ds : List Char)
    → IsNumeral (n / 10) cs
    → IsDigit (n % 10) ds
    → IsNumeral n (cs ++ ds)
append_digit n cs ds h d = record {
  first = h.first;
  rest = h.rest ++ ds;
  shape = ap (λ cs. cs ++ ds) h.shape;
  digits = rw d.alone (all-append is_digit cs _ h.digits (rw d.digit refl));
  value = rw (d.alone, number_snoc 0 cs d.char, h.value, d.value) (omega arith);
}

decimal-IsNumeral : (fuel n : ℕ) → n ≤ fuel → IsNumeral n (chars (decimal fuel n))
unfolding decimal
decimal-IsNumeral zero n h = digit-IsNumeral n (omega arith)
decimal-IsNumeral (suc fuel) n h = elim (Bool-cases (ltb n 10)) [
  | inl small ↦ rw small (digit-IsNumeral n (ground arith))
  | inr large ↦
      rw (large, chars-append (decimal fuel (n / 10)) (digit (n % 10)))
        (append_digit n _ _ (decimal-IsNumeral fuel (n / 10) (ground arith))
          (digit_char (n % 10) (omega arith)))
]

pub str_nat-IsNumeral : (n : ℕ) → IsNumeral n (chars (str_nat n))
unfolding str_nat
str_nat-IsNumeral n = decimal-IsNumeral n n (omega arith)

-- `digits` of a list of digits
digits-number :
    (n : ℕ) (cs : List Char) → all is_digit cs ≡ true → digits n true cs ≡ some (number n cs)
digits-number n [] h = refl
digits-number n (c ∷ cs) h =
    let (first, rest) = all_split is_digit c cs h in
    rw first (digits-number (n * 10 + (code c - 48)) cs rest)

not-sign : (c : Char) → is_digit c ≡ true → ((code c == 45) ≡ false) × ((code c == 43) ≡ false)
not-sign c h = ground arith

signed-number :
    (c : Char) (cs : List Char)
    → all is_digit (c ∷ cs) ≡ true
    → signed (c ∷ cs) ≡ some (pos (number 0 (c ∷ cs)))
signed-number c cs h =
    let (first, rest) = all_split is_digit c cs h in
    let (minus, plus) = not-sign c first in
    rw (minus, plus, first, digits-number (0 * 10 + (code c - 48)) cs rest) refl

signed-IsNumeral : (n : ℕ) (cs : List Char) → IsNumeral n cs → signed cs ≡ some (pos n)
signed-IsNumeral n cs h =
    let digits = subst (λ cs. all is_digit cs ≡ true) h.shape h.digits in
    let value = subst (λ cs. number 0 cs ≡ n) h.shape h.value in
    rw h.shape (signed-number h.first h.rest digits) ∙ ap (λ n. some (pos n)) value

digit-unspaced : (c : Char) → is_digit c ≡ true → not (is_space c) ≡ true
digit-unspaced c h = ground arith

abbrev unspaced : List Char → Bool
unspaced cs = all (λ c. not (is_space c)) cs

unspaced-reverse : (cs : List Char) → unspaced cs ≡ true → unspaced (reverse cs) ≡ true
unspaced-reverse [] h = refl
unspaced-reverse (c ∷ cs) h =
    let (first, rest) = all_split (λ c. not (is_space c)) c cs h in
    rw (reverse-append (c ∷ []) cs) (
      all-append (λ c. not (is_space c)) (reverse cs) (c ∷ []) (unspaced-reverse cs rest)
        (rw first refl))

drop_spaces-unspaced : (cs : List Char) → unspaced cs ≡ true → drop_spaces cs ≡ cs
drop_spaces-unspaced [] h = refl
drop_spaces-unspaced (c ∷ cs) h = rw (untrue (all_split (λ c. not (is_space c)) c cs h).0) refl

-- white space is stripped at both ends, but not inside
strip_chars-unspaced :
    (c : Char) (cs : List Char) → unspaced (c ∷ cs) ≡ true → strip_chars (c ∷ cs) ≡ c ∷ cs
strip_chars-unspaced c cs h =
    ap (λ cs. reverse (drop_spaces (reverse cs))) (drop_spaces-unspaced (c ∷ cs) h)
    ∙ ap reverse (drop_spaces-unspaced (reverse (c ∷ cs)) (unspaced-reverse (c ∷ cs) h))
    ∙ reverse-reverse (c ∷ cs)

strip_chars-newline :
    (c : Char) (cs : List Char)
    → unspaced (c ∷ cs) ≡ true
    → strip_chars (c ∷ cs ++ "\n" ∷ []) ≡ c ∷ cs
strip_chars-newline c cs h =
    ap (λ cs. reverse (drop_spaces (reverse cs))) kept
    ∙ ap (λ cs. reverse (drop_spaces cs)) (reverse-append (c ∷ cs) ("\n" ∷ []))
    ∙ ap reverse (drop_spaces-unspaced (reverse (c ∷ cs)) (unspaced-reverse (c ∷ cs) h))
    ∙ reverse-reverse (c ∷ cs)
  where
    kept : drop_spaces (c ∷ cs ++ "\n" ∷ []) ≡ c ∷ cs ++ "\n" ∷ []
    kept = rw (untrue (all_split (λ c. not (is_space c)) c cs h).0) refl

written : (n : ℕ) → chars (str_int (pos n) <> "\n") ≡ chars (str_nat n) ++ "\n" ∷ []
unfolding str_int str_nat
written n = chars-append (str_nat n) "\n"

-- A number that is written with a newline behind it is read by `int(text.strip())`.
pub int_of-strip-str_int : (n : ℕ) → int_of (strip (str_int (pos n) <> "\n")) ≡ some (pos n)
unfolding int_of
int_of-strip-str_int n =
    let h = str_nat-IsNumeral n in
    let clear =
      all_weaken is_digit (λ c. not (is_space c)) (chars (str_nat n)) digit-unspaced h.digits in
    let spaceless = subst (λ cs. unspaced cs ≡ true) h.shape clear in
    ap (λ cs. signed (strip_chars cs))
      (chars-text _
        ∙ ap strip_chars (written n ∙ ap (λ cs. cs ++ "\n" ∷ []) h.shape)
        ∙ strip_chars-newline h.first h.rest spaceless)
    ∙ ap signed (strip_chars-unspaced h.first h.rest spaceless ∙ sym h.shape)
    ∙ signed-IsNumeral n (chars (str_nat n)) h
