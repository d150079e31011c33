-- ===== src/Prelude/Splitting.antt =====
-- Laws of texts as lists of characters, of `split` and `splitlines`.
use Prim.Native.Char.{Char, code}
use Prim.Native.String.append
use Prim.Native.String.{String, ◌++◌ as ◌<>◌}
use mathlib.Core.Path.{◌≡◌, refl, sym, ap, ◌∙◌}
use mathlib.Core.Bool.{Bool, true, false, not}
use mathlib.Core.List.{List, [], ◌∷◌, ◌++◌, append_assoc, reverse, reverse-append, reverse-reverse}
use native.Mathlib.Omega.{arith}
use coda_self_service.Prelude.Tests.{◌==◌, Bool-cases}
use mathlib.Core.Logic.{inl, inr}
use coda_self_service.Prelude.Lists.{all}
use coda_self_service.Prelude.Text.{chars, text, strip, is_space, drop_spaces, rstrip_chars}
use coda_self_service.Prelude.Lines.{split_at, cut_at, split, cut_words, nonempty}

pub chars-append : (s t : String) → chars (s <> t) ≡ chars s ++ chars t
chars-append String.[] t = ap chars (append.nil t)
chars-append (String.◌∷◌ c s) t =
    ap chars (append.cons c s t) ∙ ap (λ cs. c ∷ cs) (chars-append s t)

pub chars-append_assoc : (s t u : String) → chars ((s <> t) <> u) ≡ chars (s <> (t <> u))
chars-append_assoc s t u =
    rw (chars-append (s <> t) u, chars-append s t, chars-append s (t <> u), chars-append t u)
      (append_assoc (chars s) (chars t) (chars u))

pub chars-text : (cs : List Char) → chars (text cs) ≡ cs
chars-text [] = refl
chars-text (c ∷ cs) = ap (λ cs. c ∷ cs) (chars-text cs)

pub text-chars : (s : String) → text (chars s) ≡ s
text-chars String.[] = refl
text-chars (String.◌∷◌ c s) = ap (String.◌∷◌ c) (text-chars s)

pub all-append {ℓ} :
    {A : Type ℓ} (p : A → Bool) (xs ys : List A)
    → all p xs ≡ true
    → all p ys ≡ true
    → all p (xs ++ ys) ≡ true
all-append p [] ys h k = k
all-append p (x ∷ xs) ys h k = grind (arith, all-append p xs ys)

pub untrue : {b : Bool} → not b ≡ true → b ≡ false
untrue {b = true} h = cc h
untrue {b = false} h = refl

pub all_split {ℓ} :
    {A : Type ℓ} (p : A → Bool) (x : A) (xs : List A)
    → all p (x ∷ xs) ≡ true
    → (p x ≡ true) × (all p xs ≡ true)
all_split p x xs h = ground arith

pub all_weaken {ℓ} :
    {A : Type ℓ} (p q : A → Bool) (xs : List A)
    → ((x : A) → p x ≡ true → q x ≡ true)
    → all p xs ≡ true
    → all q xs ≡ true
all_weaken p q [] h k = refl
all_weaken p q (x ∷ xs) h k =
    let (first, rest) = all_split p x xs k in rw (h x first, all_weaken p q xs h rest) refl

cut_at_alone :
    (sep : Char) (cs : List Char)
    → all (λ c. not (code c == code sep)) cs ≡ true
    → cut_at sep cs ≡ cs ∷ []
cut_at_alone sep [] h = refl
cut_at_alone sep (c ∷ cs) h =
    let (differs, rest) = all_split (λ c. not (code c == code sep)) c cs h in
    rw (untrue differs, cut_at_alone sep cs rest) refl

-- a text without the separator
pub split_at_alone :
    (sep : Char) (s : String)
    → all (λ c. not (code c == code sep)) (chars s) ≡ true
    → split_at sep s ≡ s ∷ []
unfolding split_at
split_at_alone sep s h = rw (cut_at_alone sep (chars s) h, text-chars s) refl

drop_spaces-cons : (c : Char) (cs : List Char) → is_space c ≡ false → drop_spaces (c ∷ cs) ≡ c ∷ cs
drop_spaces-cons c cs h = rw h refl

drop_spaces-words :
    (cs : List Char) → nonempty (cut_words (drop_spaces cs)) ≡ nonempty (cut_words cs)
drop_spaces-words [] = refl
drop_spaces-words (c ∷ cs) =
    elim (Bool-cases (is_space c))
      as (λ _. nonempty (cut_words (drop_spaces (c ∷ cs))) ≡ nonempty (cut_words (c ∷ cs))) [
        | inl space ↦ rw space (drop_spaces-words cs)
        | inr other ↦ ap (λ xs. nonempty (cut_words xs)) (drop_spaces-cons c cs other)
      ]

cut_words-first :
    (cs : List Char)
    → (word : List Char) × (words : List (List Char)) × (cut_words cs ≡ word ∷ words)
cut_words-first [] = ([], [], refl)
cut_words-first (c ∷ cs) =
    elim (Bool-cases (is_space c))
      as (λ _.
        (word : List Char) × (words : List (List Char)) × (cut_words (c ∷ cs) ≡ word ∷ words)) [
          | inl space ↦ ([], cut_words cs, rw space refl)
          | inr other ↦
              let (word, words, e) = cut_words-first cs in (c ∷ word, words, rw (other, e) refl)
        ]

cut_words-last :
    (cs : List Char) (c : Char)
    → is_space c ≡ true
    → cut_words (cs ++ c ∷ []) ≡ cut_words cs ++ [] ∷ []
cut_words-last [] c h = rw h refl
cut_words-last (x ∷ cs) c h =
    elim (Bool-cases (is_space x))
      as (λ _. cut_words ((x ∷ cs) ++ c ∷ []) ≡ cut_words (x ∷ cs) ++ [] ∷ []) [
        | inl space ↦ rw (space, cut_words-last cs c h) refl
        | inr other ↦
            let (word, words, e) = cut_words-first cs in rw (other, cut_words-last cs c h, e) refl
      ]

nonempty-last : (words : List (List Char)) → nonempty (words ++ [] ∷ []) ≡ nonempty words
nonempty-last [] = refl
nonempty-last ([] ∷ words) = nonempty-last words
nonempty-last ((c ∷ cs) ∷ words) = ap (λ ws. text (c ∷ cs) ∷ ws) (nonempty-last words)

drop_spaces-space :
    (c : Char) (cs : List Char) → is_space c ≡ true → drop_spaces (c ∷ cs) ≡ drop_spaces cs
drop_spaces-space c cs h = rw h refl

reverse_space :
    (c : Char) (cs : List Char)
    → is_space c ≡ true
    → nonempty (cut_words (reverse (c ∷ cs))) ≡ nonempty (cut_words (reverse cs))
reverse_space c cs space =
    ap (λ xs. nonempty (cut_words xs)) (reverse-append (c ∷ []) cs)
    ∙ ap nonempty (cut_words-last (reverse cs) c space)
    ∙ nonempty-last (cut_words (reverse cs))

reverse_words :
    (cs : List Char)
    → nonempty (cut_words (reverse (drop_spaces cs))) ≡ nonempty (cut_words (reverse cs))
reverse_words [] = refl
reverse_words (c ∷ cs) =
    elim (Bool-cases (is_space c))
      as (λ _.
        nonempty (cut_words (reverse (drop_spaces (c ∷ cs))))
        ≡ nonempty (cut_words (reverse (c ∷ cs)))) [
          | inl space ↦
              ap (λ xs. nonempty (cut_words (reverse xs))) (drop_spaces-space c cs space)
              ∙ reverse_words cs
              ∙ sym (reverse_space c cs space)
          | inr other ↦ ap (λ xs. nonempty (cut_words (reverse xs))) (drop_spaces-cons c cs other)
        ]

-- the words of a text are those of the text without the white space around it
pub split-strip : (s : String) → split (strip s) ≡ split s
unfolding split
split-strip s =
    let cs = drop_spaces (chars s) in
    ap (λ cs. nonempty (cut_words cs)) (chars-text (rstrip_chars cs))
    ∙ reverse_words (reverse cs)
    ∙ ap (λ cs. nonempty (cut_words cs)) (reverse-reverse cs)
    ∙ drop_spaces-words (chars s)
