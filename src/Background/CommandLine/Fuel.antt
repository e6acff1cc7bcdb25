-- ===== src/Background/CommandLine/Fuel.antt =====
-- src/app/background_lifecycle.c: the loop over the command line ends.
use gdox.Common.{
  ℕ, zero, suc, ◌≤◌, ◌<◌, ◌≡◌, refl, ap, false, Bool-cases, inl, inr, Option-cases, List-cases,
  ◌==◌, Option, some, List, [], ◌∷◌, length, arith,
}
use gdox.Common.Text.{scan_until, scan_until-le}
use gdox.Background.CommandLine.{
  is_space, is_quote, skip_spaces, quoted_argument, close_quote, read_argument, next_argument,
  matches, scan_arguments,
}

skip_spaces-le : (l : List ℕ) → length (skip_spaces l) ≤ length l
unfolding skip_spaces
skip_spaces-le [] = omega arith
skip_spaces-le (c ∷ l) = let later = skip_spaces-le l in ground arith

quoted-le : (word l : List ℕ) → length (quoted_argument word l).1 ≤ length l
unfolding quoted_argument
quoted-le word [] = omega arith
quoted-le word (c ∷ l) = let later = scan_until-le is_space (c ∷ l) in ground arith

close-le : (l : List ℕ) → length (close_quote l) ≤ length l
close-le [] = omega arith
close-le (c ∷ l) = omega arith

word-le :
    (c : ℕ) (l : List ℕ) → is_space c ≡ false → length (scan_until is_space (c ∷ l)).1 ≤ length l
unfolding scan_until
word-le c l h = let later = scan_until-le is_space l in ground arith

read_argument-le :
    (c : ℕ) (l : List ℕ) → is_space c ≡ false → length (read_argument c l).1 ≤ length l
unfolding read_argument
read_argument-le c l h = elim (Bool-cases (is_quote c)) [
  | inl quote ↦
      let (word, rest) = scan_until (λ d. d == c) l in
      rw quote (
        omega (
          arith,
          scan_until-le (λ (d : ℕ). d == c) l,
          close-le rest,
          quoted-le word (close_quote rest),
        ))
  | inr plain ↦ rw plain (word-le c l h)
]

skip_spaces_head :
    (l : List ℕ) (c : ℕ) (rest : List ℕ) → skip_spaces l ≡ c ∷ rest → is_space c ≡ false
unfolding skip_spaces
skip_spaces_head [] c rest e = absurd (ground (arith, e))
skip_spaces_head (d ∷ l) c rest e =
    let later = skip_spaces_head l c rest in ground (arith, e, later)

pub scan_nothing : (fuel : ℕ) → scan_arguments fuel [] ≡ false
unfolding scan_arguments next_argument skip_spaces
scan_nothing zero = refl
scan_nothing (suc fuel) = refl

-- A round leaves a shorter line.
pub next_argument-lt :
    (line : List ℕ) (word : Option (List ℕ)) (rest : List ℕ)
    → next_argument line ≡ some (word, rest)
    → length rest < length line
unfolding next_argument
next_argument-lt line word rest e = elim (List-cases (skip_spaces line)) [
  | inl none_left ↦ absurd (ground (arith, e, none_left))
  | inr (c, l, found) ↦
      let taken : read_argument c l ≡ (word, rest) = ground (arith, e, found) in
      let short = read_argument-le c l (skip_spaces_head line c l found) in
      let fewer = skip_spaces-le line in
      omega (arith, ap length found, ap (λ (p : Option (List ℕ) × List ℕ). length p.1) taken)
]

scan_more :
    (fuel more : ℕ) (line : List ℕ)
    → length line ≤ fuel
    → fuel ≤ more
    → scan_arguments more line ≡ scan_arguments fuel line
unfolding scan_arguments
scan_more zero more [] h g = scan_nothing more
scan_more zero more (c ∷ l) h g = absurd (omega arith)
scan_more (suc fuel) zero line h g = absurd (omega arith)
scan_more (suc fuel) (suc more) line h g = elim (Option-cases (next_argument line)) [
  | inl e ↦ rw (scan_arguments, e) refl
  | inr ((word, rest), e) ↦ elim (Bool-cases (matches word)) [
    | inl m ↦ rw (scan_arguments, e, m) refl
    | inr m ↦
        let shorter = next_argument-lt line word rest e in
        rw (scan_arguments, e, m) (scan_more fuel more rest (omega arith) (omega arith))
  ]
]

-- The length of the line is enough fuel: more gives the same answer.
pub scan_arguments_enough :
    (line : List ℕ) (more : ℕ)
    → length line ≤ more
    → scan_arguments more line ≡ scan_arguments (length line) line
scan_arguments_enough line more h = scan_more (length line) more line (omega arith) h
