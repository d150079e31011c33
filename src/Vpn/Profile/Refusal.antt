-- ===== src/Vpn/Profile/Refusal.antt =====
-- src/coda_node/vpn/service.py, `_validate_vpn_profile`: which profiles are refused.
use coda_self_service.Prelude.{
  ◌⊎◌, inl, inr, Bool-cases, ap, sym, subst, ◌∙◌, ◌||◌, ◌≡◌, refl, ℕ, suc, ◌+◌, String, ◌<>◌, true,
  false, List, [], ◌∷◌, ◌++◌, contains, All, length, arith, str_eq, str_eq_iff,
}
use coda_self_service.Prelude.Text.{str_nat}
use coda_self_service.Prelude.Lines.{splitlines, split, lower}
use coda_self_service.Prelude.Splitting.{split-strip}
use coda_self_service.Effects.{Result, node_error, ok, raise}
use coda_self_service.Vpn.Profile.{
  dangerous_directives, directive_of, first_word, check_lines, validate_vpn_profile,
}

-- the directives by which OpenVPN runs commands or loads code
abbrev pub commands : List String
commands =
    "script-security" ∷ "up" ∷ "down" ∷ "client-connect" ∷ "client-disconnect" ∷ "learn-address"
    ∷ "auth-user-pass-verify" ∷ "tls-verify" ∷ "ipchange" ∷ "route-up" ∷ "route-pre-down" ∷ "plugin"
    ∷ []

abbrev pub IsOneOf : List String → String → Type 0
IsOneOf [] s = ⊥
IsOneOf (x ∷ xs) s = (x ≡ s) ⊎ IsOneOf xs s

-- The first word of the line is the directive, in whatever letter case and behind whatever white space.
abbrev pub Begins : String → String → Type 0
Begins line directive =
    (word : String) × (words : List String) × ((split line ≡ word ∷ words)
      × (lower word ≡ directive))

-- a line with a directive that runs a command
abbrev pub IsHarmful : String → String → Type 0
IsHarmful line directive = IsOneOf commands directive × Begins line directive

abbrev pub IsHarmless : String → Type 0
IsHarmless line = (directive : String) → ¬ IsHarmful line directive

-- what the refusal says
abbrev pub refusal : String → ℕ → String
refusal directive n =
    "Refusing OpenVPN profile: forbidden directive '" <> directive <> "' on line " <> str_nat n

-- what becomes of the lines of a profile
pub data Verdict (lines : List String) : Result (Unit {0}) → Type 0 where
  accepted : All IsHarmless lines → Verdict lines (ok tt)
  refused :
      (before : List String) (line : String) (later : List String) (directive : String)
      → lines ≡ before ++ line ∷ later
      → All IsHarmless before
      → IsHarmful line directive
      → Verdict lines (raise (node_error (refusal directive (1 + length before))))

contains-IsOneOf : (xs : List String) (s : String) → contains xs s ≡ true → IsOneOf xs s
contains-IsOneOf [] s h = cc h
contains-IsOneOf (x ∷ xs) s h = elim (Bool-cases (str_eq x s)) as (λ _. IsOneOf (x ∷ xs) s) [
  | inl same ↦ inl ((str_eq_iff x s).0 same)
  | inr other ↦ inr (contains-IsOneOf xs s (sym (ap (λ b. b || contains xs s) other) ∙ h))
]

IsOneOf-contains : (xs : List String) (s : String) → IsOneOf xs s → contains xs s ≡ true
IsOneOf-contains [] s h = absurd h
IsOneOf-contains (x ∷ xs) s (inl same) = rw ((str_eq_iff x s).1 same) refl
IsOneOf-contains (x ∷ xs) s (inr later) = grind (arith, IsOneOf-contains xs s later)

-- the directive that the code reads is the first word of the line
directive_of-split : (line : String) → directive_of line ≡ lower (first_word (split line))
unfolding directive_of
directive_of-split line = ap (λ words. lower (first_word words)) (split-strip line)

Begins-directive_of :
    (line directive : String) → Begins line directive → directive_of line ≡ directive
Begins-directive_of line directive (word, words, (e, same)) =
    directive_of-split line ∙ ap (λ ws. lower (first_word ws)) e ∙ same

no_command : ¬ IsOneOf commands (lower "")
unfolding lower
no_command h = cc (IsOneOf-contains commands "" h)

bad-IsHarmful :
    (line : String)
    → contains dangerous_directives (directive_of line) ≡ true
    → IsHarmful line (directive_of line)
bad-IsHarmful line bad =
    let one = contains-IsOneOf commands (directive_of line) bad in
    (one, begins (split line) refl (subst (IsOneOf commands) (directive_of-split line) one))
  where
    begins :
        (words : List String)
        → split line ≡ words
        → IsOneOf commands (lower (first_word (split line)))
        → Begins line (directive_of line)
    begins [] e one =
        absurd (no_command (subst (λ ws. IsOneOf commands (lower (first_word ws))) e one))
    begins (word ∷ words) e one =
        (word, words, (e, sym (directive_of-split line ∙ ap (λ ws. lower (first_word ws)) e)))

good-IsHarmless :
    (line : String) → contains dangerous_directives (directive_of line) ≡ false → IsHarmless line
good-IsHarmless line good directive (one, begins) =
    cc (good, IsOneOf-contains commands directive one, Begins-directive_of line directive begins)

-- what the code answers for the lines from the n-th on
abbrev Answer : ℕ → List String → Type 0
Answer n lines =
    ((check_lines n lines ≡ ok tt) × All IsHarmless lines)
    ⊎ ((before : List String) × (line : String) × (later : List String) × (directive : String)
        × ((lines ≡ before ++ line ∷ later)
            × (All IsHarmless before
                × (IsHarmful line directive
                    × (check_lines n lines
                        ≡ raise (node_error (refusal directive (n + length before))))))))

check_lines-first :
    (n : ℕ) (line : String) (lines : List String)
    → contains dangerous_directives (directive_of line) ≡ true
    → check_lines n (line ∷ lines) ≡ raise (node_error (refusal (directive_of line) (n + 0)))
unfolding check_lines
check_lines-first n line lines bad = let e : n + 0 ≡ n = omega arith in rw (bad, e) refl

check_lines-next :
    (n : ℕ) (line : String) (lines : List String)
    → contains dangerous_directives (directive_of line) ≡ false
    → check_lines n (line ∷ lines) ≡ check_lines (n + 1) lines
unfolding check_lines
check_lines-next n line lines good = rw good refl

later_number : (n : ℕ) (before : List String) → n + 1 + length before ≡ n + suc (length before)
later_number n before = omega arith

check_lines-Answer : (n : ℕ) (lines : List String) → Answer n lines
unfolding check_lines
check_lines-Answer n [] = inl (refl, tt)
check_lines-Answer n (line ∷ lines) =
    elim (Bool-cases (contains dangerous_directives (directive_of line)))
      as (λ _. Answer n (line ∷ lines)) [
        | inl bad ↦ inr (
          [],
          line,
          lines,
          directive_of line,
          (refl, (tt, (bad-IsHarmful line bad, check_lines-first n line lines bad))),
        )
        | inr good ↦ elim (check_lines-Answer (n + 1) lines) as (λ _. Answer n (line ∷ lines)) [
          | inl (e, h) ↦
              inl (check_lines-next n line lines good ∙ e, (good-IsHarmless line good, h))
          | inr (before, bad_line, later, directive, (e, (h, (harmful, r)))) ↦ inr (
            line ∷ before,
            bad_line,
            later,
            directive,
            (
              ap (λ ls. line ∷ ls) e,
              (
                (good-IsHarmless line good, h),
                (
                  harmful,
                  check_lines-next n line lines good
                      ∙ r
                      ∙ ap (λ m. raise (node_error (refusal directive m))) (later_number n before),
                ),
              ),
            ),
          )
        ]
      ]

-- A profile is accepted if no line of it begins with a directive that runs a command, in whatever letter case
-- and behind whatever white space. Otherwise it is refused, and the refusal names the directive of the first
-- such line, in lower case, and the number of that line, counted from 1.
pub validate_vpn_profile-Verdict :
    (profile : String) → Verdict (splitlines profile) (validate_vpn_profile profile)
unfolding validate_vpn_profile
validate_vpn_profile-Verdict profile =
    elim (check_lines-Answer 1 (splitlines profile))
      as (λ _. Verdict (splitlines profile) (check_lines 1 (splitlines profile))) [
        | inl (e, h) ↦ rw e (accepted h)
        | inr (before, line, later, directive, (e, (h, (bad, r)))) ↦
            rw r (refused before line later directive e h bad)
      ]
