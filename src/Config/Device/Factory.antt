-- ===== src/Config/Device/Factory.antt =====
-- src/coda_node/server/config.py, `_load_executor_factory_from_device_config`: what it reads of a device
-- configuration that names its factory in quotation marks.
use Prim.Native.Char.{Char, code}
use coda_self_service.Prelude.{
  ◌≡◌, refl, sym, ap, ◌⊎◌, ◌∙◌, String, Bool, true, false, not, Option, none, some, List, [], ◌∷◌,
  ◌++◌, append_assoc, reverse, reverse-append, reverse-reverse, all, All, Bool-cases, inl, inr,
  ◌&&◌, ◌==◌, arith,
}
use coda_self_service.Prelude.Text.{
  chars, text, drop_spaces, rstrip_chars, strip_chars, is_space, literal,
}
use coda_self_service.Prelude.Lines.{splitlines}
use coda_self_service.Prelude.Splitting.{chars-text, all_split, untrue}
use coda_self_service.Effects.{ok}
use coda_self_service.Config.Device.{
  Site, prefixed, before_comment, strip_inline_yaml_comment, final_char, without_last, unquote,
  nonblank, factory_value, chars_value, starts_indented, after_colon, or_next, factory_in,
  line_value, first_factory, load_executor_factory,
}

drop_spaces-append :
    (xs : List Char) (c : Char) (ys : List Char)
    → is_space c ≡ false
    → drop_spaces (xs ++ c ∷ ys) ≡ drop_spaces xs ++ c ∷ ys
drop_spaces-append [] c ys h = rw h refl
drop_spaces-append (x ∷ xs) c ys h = elim (Bool-cases (is_space x)) [
  | inl space ↦ rw space (drop_spaces-append xs c ys h)
  | inr solid ↦ rw solid refl
]

-- what is stripped stands behind the last character that is no space
rstrip_chars-append :
    (xs : List Char) (c : Char) (ys : List Char)
    → is_space c ≡ false
    → rstrip_chars (xs ++ c ∷ ys) ≡ xs ++ c ∷ rstrip_chars ys
rstrip_chars-append xs c ys h =
    ap (λ cs. reverse (drop_spaces cs))
      (reverse-append xs (c ∷ ys)
        ∙ ap (λ cs. cs ++ reverse xs) (reverse-append (c ∷ []) ys)
        ∙ append_assoc (reverse ys) (c ∷ []) (reverse xs))
    ∙ ap reverse (drop_spaces-append (reverse ys) c (reverse xs) h)
    ∙ reverse-append (drop_spaces (reverse ys)) (c ∷ reverse xs)
    ∙ ap (λ cs. cs ++ rstrip_chars ys)
        (reverse-append (c ∷ []) (reverse xs) ∙ ap (λ cs. cs ++ c ∷ []) (reverse-reverse xs))
    ∙ append_assoc xs (c ∷ []) (rstrip_chars ys)

abbrev no_quotes : List Char → Bool
no_quotes = all (λ c. not (code c == 34))

abbrev pub comment : Option (List Char) → List Char
comment none = []
comment (some note) = " " ∷ "#" ∷ note

-- A line of the device configuration: the key, white space, the colon, white space, the name in quotation marks, and
-- possibly a blank and a comment.
abbrev pub quoted : List Char → List Char → List Char → Option (List Char) → List Char
quoted left right name note =
    chars "executor_factory"
    ++ (left ++ (":" ∷ (right ++ ("\"" ∷ (name ++ ("\"" ∷ comment note))))))

-- a line that begins with a blank or a tab
abbrev pub IsIndented : List Char → Type 0
IsIndented [] = ⊥
IsIndented (c ∷ cs) = (code c ≡ 32) ⊎ (code c ≡ 9)

abbrev pub BeginsWith : List Char → List Char → Type 0
BeginsWith [] cs = Unit
BeginsWith (x ∷ xs) [] = ⊥
BeginsWith (x ∷ xs) (c ∷ cs) = (code x ≡ code c) × BeginsWith xs cs

-- a line that is indented or that does not begin with the key, white space aside
abbrev pub IsOther : String → Type 0
IsOther line =
    IsIndented (chars line) ⊎ ¬ BeginsWith (chars "executor_factory") (strip_chars (chars line))

literal-none : (xs cs : List Char) → ¬ BeginsWith xs cs → literal xs cs ≡ none
literal-none [] cs h = absurd (h tt)
literal-none (x ∷ xs) [] h = refl
literal-none (x ∷ xs) (c ∷ cs) h =
    elim (Bool-cases (code x == code c)) as (λ _. literal (x ∷ xs) (c ∷ cs) ≡ none) [
      | inl same ↦ rw same (literal-none xs cs λ b. h (ground (arith, same), b))
      | inr other ↦ rw other refl
    ]

IsIndented-starts : (cs : List Char) → IsIndented cs → starts_indented cs ≡ true
IsIndented-starts [] h = absurd h
IsIndented-starts (c ∷ cs) h = ground (arith, h)

line_value-IsOther : (line : String) → IsOther line → line_value line ≡ none
line_value-IsOther line (inl indented) = rw (IsIndented-starts (chars line) indented) refl
line_value-IsOther line (inr other) =
    elim (Bool-cases (starts_indented (chars line))) as (λ _. line_value line ≡ none) [
      | inl indented ↦ rw indented refl
      | inr flush ↦
          rw (flush, literal-none (chars "executor_factory") (strip_chars (chars line)) other) refl
    ]

drop_spaces-spaces :
    (gap : List Char) (c : Char) (cs : List Char)
    → all is_space gap ≡ true
    → is_space c ≡ false
    → drop_spaces (gap ++ c ∷ cs) ≡ c ∷ cs
drop_spaces-spaces [] c cs h solid = rw solid refl
drop_spaces-spaces (x ∷ gap) c cs h solid =
    let (space, spaces) = all_split is_space x gap h in
    rw space (drop_spaces-spaces gap c cs spaces solid)

abbrev prefix : List Char → Option (List Char) → Option (List Char)
prefix xs none = none
prefix xs (some ys) = some (xs ++ ys)

prefix-append :
    (c : Char) (xs : List Char) (o : Option (List Char))
    → prefixed c (prefix xs o) ≡ prefix (c ∷ xs) o
prefix-append c xs none = refl
prefix-append c xs (some ys) = refl

never : (b : Bool) → (b && false) ≡ false
never true = refl
never false = refl

-- nothing in the quotation marks begins a comment
before_comment-quoted :
    (name rest : List Char)
    → no_quotes name ≡ true
    → before_comment false true (name ++ "\"" ∷ rest)
      ≡ prefix (name ++ "\"" ∷ []) (before_comment false false rest)
before_comment-quoted [] rest h = refl
before_comment-quoted (x ∷ name) rest h =
    let (differs, others) = all_split (λ c. not (code c == 34)) x name h in
    rw (untrue differs, never (code x == 39), never (code x == 35 && true))
      (ap (prefixed x) (before_comment-quoted name rest others)
        ∙ prefix-append x (name ++ "\"" ∷ []) (before_comment false false rest))

-- what stands behind the quoted name is stripped, and so is the comment
strip_inline_yaml_comment-quoted :
    (name : List Char) (note : Option (List Char))
    → no_quotes name ≡ true
    → strip_inline_yaml_comment ("\"" ∷ name ++ "\"" ∷ comment note) ≡ "\"" ∷ name ++ "\"" ∷ []
unfolding strip_inline_yaml_comment
strip_inline_yaml_comment-quoted name none h =
    rw (before_comment-quoted name [] h) (rstrip_chars-append ("\"" ∷ name) "\"" [] refl)
strip_inline_yaml_comment-quoted name (some note) h =
    rw (before_comment-quoted name (comment (some note)) h) (
      ap rstrip_chars (append_assoc ("\"" ∷ name) ("\"" ∷ []) (" " ∷ []))
      ∙ rstrip_chars-append ("\"" ∷ name) "\"" (" " ∷ []) refl)

final_char-append : (c : Char) (xs : List Char) (d : Char) → final_char c (xs ++ d ∷ []) ≡ d
final_char-append c [] d = refl
final_char-append c (x ∷ xs) d = final_char-append x xs d

without_last-append :
    (c : Char) (xs : List Char) (d : Char) → without_last c (xs ++ d ∷ []) ≡ c ∷ xs
without_last-append c [] d = refl
without_last-append c (x ∷ xs) d = ap (λ cs. c ∷ cs) (without_last-append x xs d)

unquote-quoted : (name : List Char) → unquote ("\"" ∷ name ++ "\"" ∷ []) ≡ name
unquote-quoted [] = refl
unquote-quoted (c ∷ cs) = rw (final_char-append c cs "\"") (without_last-append c cs "\"")

abbrev trimmed : Option (List Char) → Option (List Char)
trimmed none = none
trimmed (some note) = some (rstrip_chars note)

rstrip_chars-quoted :
    (xs : List Char) (note : Option (List Char))
    → rstrip_chars (xs ++ "\"" ∷ comment note) ≡ xs ++ "\"" ∷ comment (trimmed note)
rstrip_chars-quoted xs none = rstrip_chars-append xs "\"" [] refl
rstrip_chars-quoted xs (some note) =
    rstrip_chars-append xs "\"" (comment (some note)) refl
    ∙ ap (λ cs. xs ++ "\"" ∷ cs) (rstrip_chars-append (" " ∷ []) "#" note refl)

-- the front of the line, up to the name
abbrev front : List Char → List Char → List Char → List Char
front left right name = chars "executor_factory" ++ (left ++ (":" ∷ (right ++ ("\"" ∷ name))))

quoted-front :
    (left right name : List Char) (note : Option (List Char))
    → quoted left right name note ≡ front left right name ++ "\"" ∷ comment note
quoted-front left right name note =
    ap (λ cs. chars "executor_factory" ++ cs)
      (ap (λ cs. left ++ (":" ∷ cs)) (sym (append_assoc right ("\"" ∷ name) ("\"" ∷ comment note)))
        ∙ sym (append_assoc left (":" ∷ (right ++ ("\"" ∷ name))) ("\"" ∷ comment note)))

-- what the expression takes of a line that is stripped
factory_value-quoted :
    (left right name : List Char) (note : Option (List Char))
    → all is_space left ≡ true
    → all is_space right ≡ true
    → factory_value (quoted left right name note)
      ≡ some ("\"" ∷ name ++ "\"" ∷ comment (trimmed note))
factory_value-quoted left right name note before after =
    ap (λ cs. after_colon (literal (chars ":") cs))
      (drop_spaces-spaces left ":" (right ++ ("\"" ∷ (name ++ ("\"" ∷ comment note)))) before refl)
    ∙ ap (λ cs. nonblank (rstrip_chars cs))
        (drop_spaces-spaces right "\"" (name ++ ("\"" ∷ comment note)) after refl)
    ∙ ap nonblank (rstrip_chars-quoted ("\"" ∷ name) note)

line_value-quoted :
    (left right name : List Char) (note : Option (List Char))
    → all is_space left ≡ true
    → all is_space right ≡ true
    → line_value (text (quoted left right name note))
      ≡ some ("\"" ∷ name ++ "\"" ∷ comment (trimmed (trimmed note)))
line_value-quoted left right name note before after =
    ap chars_value (chars-text (quoted left right name note))
    ∙ ap (λ cs. factory_value (rstrip_chars cs)) (quoted-front left right name note)
    ∙ ap factory_value (
        rstrip_chars-quoted (front left right name) note
        ∙ sym (quoted-front left right name (trimmed note)))
    ∙ factory_value-quoted left right name (trimmed note) before after

first_factory-after :
    (others : List String) (line : String) (lines : List String) (value : List Char)
    → All IsOther others
    → line_value line ≡ some value
    → first_factory (others ++ line ∷ lines)
      ≡ text (strip_chars (unquote (strip_inline_yaml_comment value)))
first_factory-after [] line lines value clear found =
    ap (λ v. or_next v (first_factory lines)) found
first_factory-after (other ∷ others) line lines value (first, clear) found =
    ap (λ v. or_next v (first_factory (others ++ line ∷ lines))) (line_value-IsOther other first)
    ∙ first_factory-after others line lines value clear found

-- The first line that is not indented and begins with executor_factory names the factory in quotation marks, after a
-- colon with or without white space on both sides, and ends there or goes on with a blank and a comment. Any
-- character but the quotation mark may stand in the name. Then `load_executor_factory` gives the name without
-- white space at its ends.
pub load_executor_factory-quoted :
    (site : Site) (path content : String) (others lines : List String) (left right name : List Char)
    (note : Option (List Char))
    → site.read_text path ≡ ok content
    → splitlines content ≡ others ++ text (quoted left right name note) ∷ lines
    → All IsOther others
    → all is_space left ≡ true
    → all is_space right ≡ true
    → no_quotes name ≡ true
    → load_executor_factory site path ≡ ok (text (strip_chars name))
unfolding load_executor_factory
load_executor_factory-quoted site path content others lines left right name note file split clear
      before after plain =
    ap factory_in file
    ∙ ap (λ lines. ok (first_factory lines)) split
    ∙ ap ok (
        first_factory-after others (text (quoted left right name note)) lines _ clear
          (line_value-quoted left right name note before after)
        ∙ ap (λ value. text (strip_chars (unquote value)))
            (strip_inline_yaml_comment-quoted name (trimmed (trimmed note)) plain)
        ∙ ap (λ value. text (strip_chars value)) (unquote-quoted name))
