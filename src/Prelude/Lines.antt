-- ===== src/Prelude/Lines.antt =====
-- Python's `splitlines`, `split`, `join`, `lower` and `in` on texts; letters and white space are ASCII.
use Prim.Native.Char.{Char, code}
use Prim.Native.String.{String, ◌++◌ as ◌<>◌, find, len}
use mathlib.Core.Path.{◌≡◌, refl}
use mathlib.Core.Bool.{Bool, true, false, ◌&&◌, ◌||◌}
use mathlib.Core.List.{List, [], ◌∷◌, map}
use coda_self_service.Prelude.Tests.{leb, ◌==◌, if◌then◌else◌}
use coda_self_service.Prelude.Text.{chars, text, is_space}

-- `needle in s`
abbrev pub has_text : String → String → Bool
has_text s needle = leb (find s needle) (len s)

-- the line boundaries of `splitlines`
abbrev pub is_break : Char → Bool
is_break c =
    let n = code c in
    (leb 10 n && leb n 13) || (leb 28 n && leb n 30) || n == 133 || n == 8232 || n == 8233

-- "\r\n" is one boundary; the flag says that the character before was "\r"
abbrev pub join_crlf : Bool → List Char → List Char
join_crlf after [] = []
join_crlf after (c ∷ cs) =
    let rest = join_crlf (code c == 13) cs in if after && code c == 10 then rest else c ∷ rest

abbrev pub push : Char → List (List Char) → List (List Char)
push c [] = (c ∷ []) ∷ []
push c (line ∷ lines) = (c ∷ line) ∷ lines

abbrev pub cut_lines : List Char → List (List Char)
cut_lines [] = []
cut_lines (c ∷ cs) = let rest = cut_lines cs in if is_break c then [] ∷ rest else push c rest

abbrev pub cut_at : Char → List Char → List (List Char)
cut_at sep [] = [] ∷ []
cut_at sep (c ∷ cs) =
    let rest = cut_at sep cs in if code c == code sep then [] ∷ rest else push c rest

abbrev partition_chars : Char → List Char → List Char × (Bool × List Char)
partition_chars sep [] = ([], (false, []))
partition_chars sep (c ∷ cs) =
    let (before, rest) = partition_chars sep cs in
    if code c == code sep then ([], (true, cs)) else (c ∷ before, rest)

-- `s.partition(sep)`: what stands before the first separator, whether there is one, and what follows
unfoldable pub partition : Char → String → String × (Bool × String)
partition sep s =
    let (before, (found, after)) = partition_chars sep (chars s) in
    (text before, (found, text after))

-- The words between white space; the flag says that the character before belongs to a word.
abbrev pub cut_words : List Char → List (List Char)
cut_words [] = [] ∷ []
cut_words (c ∷ cs) = let rest = cut_words cs in if is_space c then [] ∷ rest else push c rest

abbrev pub texts : List (List Char) → List String
texts = map text

abbrev pub nonempty : List (List Char) → List String
nonempty [] = []
nonempty ([] ∷ words) = nonempty words
nonempty ((c ∷ cs) ∷ words) = text (c ∷ cs) ∷ nonempty words

unfoldable pub splitlines : String → List String
splitlines s = texts (cut_lines (join_crlf false (chars s)))

-- `s.split(sep)` for a separator of one character
unfoldable pub split_at : Char → String → List String
split_at sep s = texts (cut_at sep (chars s))

-- `s.split()`
unfoldable pub split : String → List String
split s = nonempty (cut_words (chars s))

-- `sep.join(parts)`
unfoldable pub join : String → List String → String
join sep [] = ""
join sep (part ∷ []) = part
join sep (part ∷ next ∷ parts) = part <> sep <> join sep (next ∷ parts)

abbrev translate : List Char → List Char → Char → Char
translate [] ys c = c
translate (x ∷ xs) [] c = c
translate (x ∷ xs) (y ∷ ys) c = let rest = translate xs ys c in if code x == code c then y else rest

unfoldable pub lower : String → String
lower s = text (
    map (translate (chars "ABCDEFGHIJKLMNOPQRSTUVWXYZ") (chars "abcdefghijklmnopqrstuvwxyz"))
      (chars s))

splitlines_runs : splitlines "a\r\n\nb\n" ≡ "a" ∷ "" ∷ "b" ∷ []
unfolding splitlines
splitlines_runs = refl

partition_runs : partition ":" "pkg.mod:f:g" ≡ ("pkg.mod", (true, "f:g"))
unfolding partition
partition_runs = refl

split_runs : split "  up \t x " ≡ "up" ∷ "x" ∷ []
unfolding split
split_runs = refl

lower_runs : lower "TAP-Windows 9" ≡ "tap-windows 9"
unfolding lower
lower_runs = refl
