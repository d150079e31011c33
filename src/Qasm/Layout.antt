-- ===== src/Qasm/Layout.antt =====
-- Printed lines, joined with "\n", are what `strip` and `splitlines` give back.
use Prim.Native.Char.{Char, code}
use coda_self_service.Prelude.{
  ◌≡◌, refl, sym, ap, subst, ◌∙◌, String, ◌<>◌, Bool, true, false, not, List, [], ◌∷◌, ◌++◌,
  reverse, reverse-append, reverse-reverse, append-nil, all, All, arith, ◌==◌,
}
use coda_self_service.Prelude.Text.{
  chars, text, strip, strip_chars, rstrip_chars, drop_spaces, is_space,
}
use coda_self_service.Prelude.Lines.{is_break, join_crlf, cut_lines, push, texts, splitlines, join}
use coda_self_service.Prelude.Splitting.{
  chars-append, chars-text, text-chars, all-append, all_split, all_weaken, untrue,
}

-- the list ends with a semicolon
pub data Ends : List Char → Type 0 where
  last : Ends (";" ∷ [])
  after : {cs : List Char} (c : Char) → Ends cs → Ends (c ∷ cs)

pub Ends-append : (xs : List Char) {ys : List Char} → Ends ys → Ends (xs ++ ys)
Ends-append [] h = h
Ends-append (x ∷ xs) h = after x (Ends-append xs h)

abbrev pub unbroken : List Char → Bool
unbroken cs = all (λ c. not (is_break c)) cs

-- A line that no white space surrounds and that no other line is part of.
pub record Solid (cs : List Char) : Type 0 where
  pub first : Char
  pub rest : List Char
  pub shape : cs ≡ first ∷ rest
  pub starts : is_space first ≡ false
  pub ends : Ends cs
  pub whole : unbroken cs ≡ true

snoc : {cs : List Char} → Ends cs → (ys : List Char) × (cs ≡ ys ++ ";" ∷ [])
snoc last = ([], refl)
snoc (after c h) = let (ys, e) = snoc h in (c ∷ ys, ap (λ cs. c ∷ cs) e)

-- white space `ws` behind the semicolon is dropped
rstrip_chars-Ends :
    {cs : List Char} (ws : List Char)
    → Ends cs
    → ((rest : List Char) → drop_spaces (reverse ws ++ ";" ∷ rest) ≡ ";" ∷ rest)
    → rstrip_chars (cs ++ ws) ≡ cs
rstrip_chars-Ends {cs} ws h drops =
    let (ys, e) = snoc h in
    rw e (
      ap (λ cs. reverse (drop_spaces cs))
        (reverse-append (ys ++ ";" ∷ []) ws
          ∙ ap (λ cs. reverse ws ++ cs) (reverse-append ys (";" ∷ [])))
      ∙ ap reverse (drops (reverse ys))
      ∙ sym (ap reverse (reverse-append ys (";" ∷ [])))
      ∙ reverse-reverse (ys ++ ";" ∷ []))

-- nothing is dropped in front
strip_chars-Ends :
    (cs : List Char) (c : Char) (rest ws : List Char)
    → cs ≡ c ∷ rest
    → is_space c ≡ false
    → Ends cs
    → ((rest : List Char) → drop_spaces (reverse ws ++ ";" ∷ rest) ≡ ";" ∷ rest)
    → strip_chars (cs ++ ws) ≡ cs
strip_chars-Ends cs c rest ws shape starts ends drops =
    ap rstrip_chars kept ∙ rstrip_chars-Ends ws ends drops
  where
    kept : drop_spaces (cs ++ ws) ≡ cs ++ ws
    kept = rw (shape, starts) refl

pub strip_chars-Solid : {cs : List Char} → Solid cs → strip_chars cs ≡ cs
strip_chars-Solid {cs} h =
    ap strip_chars (sym (append-nil cs))
    ∙ strip_chars-Ends cs h.first h.rest [] h.shape h.starts h.ends (λ rest. refl)

cut_lines-alone :
    (x : Char) (xs : List Char) → unbroken (x ∷ xs) ≡ true → cut_lines (x ∷ xs) ≡ (x ∷ xs) ∷ []
cut_lines-alone x [] h = rw (untrue (all_split (λ c. not (is_break c)) x [] h).0) refl
cut_lines-alone x (y ∷ ys) h =
    let (first, rest) = all_split (λ c. not (is_break c)) x (y ∷ ys) h in
    let more = cut_lines-alone y ys rest in rw (untrue first) (ap (push x) more)

cut_lines-line :
    (xs rest : List Char) → unbroken xs ≡ true → cut_lines (xs ++ "\n" ∷ rest) ≡ xs ∷ cut_lines rest
cut_lines-line [] rest h = refl
cut_lines-line (x ∷ xs) rest h =
    let (first, others) = all_split (λ c. not (is_break c)) x xs h in
    rw (untrue first) (ap (push x) (cut_lines-line xs rest others))

abbrev no_return : List Char → Bool
no_return cs = all (λ c. not (code c == 13)) cs

join_crlf-id : (cs : List Char) → no_return cs ≡ true → join_crlf false cs ≡ cs
join_crlf-id [] h = refl
join_crlf-id (c ∷ cs) h =
    let (first, rest) = all_split (λ c. not (code c == 13)) c cs h in
    rw (untrue first) (ap (λ cs. c ∷ cs) (join_crlf-id cs rest))

-- the characters of the lines
abbrev pub glue : String → List String → List Char
glue line [] = chars line
glue line (next ∷ lines) = chars line ++ "\n" ∷ glue next lines

chars-join :
    (line : String) (lines : List String) → chars (join "\n" (line ∷ lines)) ≡ glue line lines
unfolding join
chars-join line [] = refl
chars-join line (next ∷ lines) =
    chars-append line ("\n" <> join "\n" (next ∷ lines))
    ∙ ap (λ cs. chars line ++ cs)
        (chars-append "\n" (join "\n" (next ∷ lines))
          ∙ ap (λ cs. "\n" ∷ cs) (chars-join next lines))

abbrev pub AllSolid : List String → Type 0
AllSolid lines = All (λ line. Solid (chars line)) lines

not-break : (c : Char) → not (is_break c) ≡ true → not (code c == 13) ≡ true
not-break c h = ground arith

glue-Ends : (line : String) (lines : List String) → AllSolid (line ∷ lines) → Ends (glue line lines)
glue-Ends line [] (h, _) = h.ends
glue-Ends line (more ∷ lines) (h, hs) =
    Ends-append (chars line) (after "\n" (glue-Ends more lines hs))

glue-no_return :
    (line : String) (lines : List String)
    → AllSolid (line ∷ lines)
    → no_return (glue line lines) ≡ true
glue-no_return line [] (h, _) = all_weaken _ _ (chars line) not-break h.whole
glue-no_return line (more ∷ lines) (h, hs) =
    all-append _ (chars line) _ (all_weaken _ _ (chars line) not-break h.whole)
      (rw (glue-no_return more lines hs) refl)

glue-shape :
    (line : String) (lines : List String) {c : Char} {rest : List Char}
    → chars line ≡ c ∷ rest
    → (others : List Char) × (glue line lines ≡ c ∷ others)
glue-shape line [] {c} {rest} h = (rest, h)
glue-shape line (more ∷ lines) {c} {rest} h =
    (rest ++ "\n" ∷ glue more lines, ap (λ cs. cs ++ "\n" ∷ glue more lines) h)

cut_lines-Solid : {cs : List Char} → Solid cs → cut_lines cs ≡ cs ∷ []
cut_lines-Solid {cs} h =
    let alone = cut_lines-alone h.first h.rest (subst (λ cs. unbroken cs ≡ true) h.shape h.whole) in
    subst (λ cs. cut_lines cs ≡ cs ∷ []) (sym h.shape) alone

cut_lines-glue :
    (line : String) (lines : List String)
    → AllSolid (line ∷ lines)
    → texts (cut_lines (glue line lines)) ≡ line ∷ lines
cut_lines-glue line [] (h, _) =
    ap texts (cut_lines-Solid h) ∙ ap (λ line. line ∷ []) (text-chars line)
cut_lines-glue line (more ∷ lines) (h, hs) =
    ap texts (cut_lines-line (chars line) (glue more lines) h.whole)
    ∙ ap (λ rest. text (chars line) ∷ rest) (cut_lines-glue more lines hs)
    ∙ ap (λ line. line ∷ more ∷ lines) (text-chars line)

-- The lines of a text that was joined of such lines, with a newline at its end.
pub splitlines-join :
    (line : String) (lines : List String)
    → AllSolid (line ∷ lines)
    → splitlines (strip (join "\n" (line ∷ lines) <> "\n")) ≡ line ∷ lines
unfolding splitlines
splitlines-join line lines h =
    ap (λ cs. texts (cut_lines (join_crlf false cs)))
      (chars-text _
        ∙ ap strip_chars (
            chars-append (join "\n" (line ∷ lines)) "\n"
            ∙ ap (λ cs. cs ++ "\n" ∷ []) (chars-join line lines))
        ∙ strip_chars-Ends (glue line lines) h.0.first _ ("\n" ∷ [])
            (glue-shape line lines h.0.shape).1 h.0.starts (glue-Ends line lines h) (λ rest. refl))
    ∙ ap (λ cs. texts (cut_lines cs)) (join_crlf-id (glue line lines) (glue-no_return line lines h))
    ∙ cut_lines-glue line lines h
