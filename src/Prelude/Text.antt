-- ===== src/Prelude/Text.antt =====
-- Python's operations on texts: `int()`, `str()`, `strip`, slices. White space and digits are those of
-- ASCII.
use Prim.Native.Char.{Char, code}
use Prim.Native.Nat.{ℕ, zero, suc, ◌+◌, ◌-◌, ◌*◌, ◌/◌, ◌%◌}
use Prim.Native.String.{String, ◌++◌ as ◌<>◌}
use mathlib.Core.Path.{◌≡◌, refl}
use mathlib.Core.Bool.{Bool, true, false, ◌&&◌, ◌||◌}
use mathlib.Core.List.{List, [], ◌∷◌, reverse}
use mathlib.Core.Option.{Option, none, some}
use coda_self_service.Prelude.Tests.{ltb, leb, ◌==◌, if◌then◌else◌}
use coda_self_service.Prelude.Int.{ℤ, pos, negsuc, neg}

-- `s[:n]`
abbrev pub clip : ℕ → String → String
clip zero s = ""
clip (suc n) String.[] = String.[]
clip (suc n) (String.◌∷◌ c s) = String.◌∷◌ c (clip n s)

-- the truth value of a text
abbrev pub is_blank : String → Bool
is_blank String.[] = true
is_blank (String.◌∷◌ c s) = false

abbrev pub chars : String → List Char
chars String.[] = []
chars (String.◌∷◌ c s) = c ∷ chars s

abbrev pub text : List Char → String
text [] = ""
text (c ∷ cs) = String.◌∷◌ c (text cs)

abbrev pub is_space : Char → Bool
is_space c = let n = code c in n == 32 || (leb 9 n && leb n 13) || (leb 28 n && leb n 31)

abbrev pub is_digit : Char → Bool
is_digit c = let n = code c in leb 48 n && leb n 57

abbrev pub drop_spaces : List Char → List Char
drop_spaces [] = []
drop_spaces (c ∷ cs) = let rest = drop_spaces cs in if is_space c then rest else c ∷ cs

-- what follows the expected characters
abbrev pub literal : List Char → List Char → Option (List Char)
literal [] cs = some cs
literal (x ∷ xs) [] = none
literal (x ∷ xs) (c ∷ cs) = let rest = literal xs cs in if code x == code c then rest else none

-- `s.rstrip()`
abbrev pub rstrip_chars : List Char → List Char
rstrip_chars cs = reverse (drop_spaces (reverse cs))

-- `s.strip()`
abbrev pub strip_chars : List Char → List Char
strip_chars cs = rstrip_chars (drop_spaces cs)

abbrev pub strip : String → String
strip s = text (strip_chars (chars s))

abbrev pub rstrip : String → String
rstrip s = text (rstrip_chars (chars s))

-- the number of a list of digits, after those that make `n`
abbrev pub number : ℕ → List Char → ℕ
number n [] = n
number n (c ∷ cs) = number (n * 10 + (code c - 48)) cs

-- The digits of a numeral, single underscores between digits allowed. The flag says that the
-- character before was a digit.
abbrev pub digits : ℕ → Bool → List Char → Option ℕ
digits n after [] = if after then some n else none
digits n after (c ∷ cs) =
    let more = digits (n * 10 + (code c - 48)) true cs in
    let gap = digits n false cs in
    if is_digit c then more else if code c == 95 && after then gap else none

abbrev pub signed : List Char → Option ℤ
signed [] = none
signed (c ∷ cs) =
    if code c == 45
    then elim (digits 0 false cs) [ none ↦ none | some n ↦ some (neg n) ]
    else if code c == 43
    then elim (digits 0 false cs) [ none ↦ none | some n ↦ some (pos n) ]
    else elim (digits 0 false (c ∷ cs)) [ none ↦ none | some n ↦ some (pos n) ]

-- `int(s)`; `none` is the ValueError
unfoldable pub int_of : String → Option ℤ
int_of s = signed (strip_chars (chars s))

-- The decimal digit of a number below ten.
abbrev pub digit : ℕ → String
digit n =
    if n == 0
    then "0"
    else if n == 1
    then "1"
    else if n == 2
    then "2"
    else if n == 3
    then "3"
    else if n == 4
    then "4"
    else if n == 5
    then "5"
    else if n == 6
    then "6"
    else if n == 7
    then "7"
    else if n == 8
    then "8"
    else "9"

-- The fuel is the number itself: each round divides it by ten.
unfoldable pub decimal : ℕ → ℕ → String
decimal zero n = digit n
decimal (suc fuel) n =
    let rest = decimal fuel (n / 10) in if ltb n 10 then digit n else rest <> digit (n % 10)

unfoldable pub str_nat : ℕ → String
unfolding decimal
str_nat n = decimal n n

-- `str(i)`
unfoldable pub str_int : ℤ → String
unfolding str_nat
str_int (pos n) = str_nat n
str_int (negsuc n) = "-" <> str_nat (suc n)

int_of_padded : int_of " -1_204\n" ≡ some (negsuc 1203)
unfolding int_of
int_of_padded = refl

int_of_refused : int_of "1__2" ≡ none
unfolding int_of
int_of_refused = refl

str_int_runs : str_int (negsuc 1203) ≡ "-1204"
unfolding str_int
str_int_runs = refl
