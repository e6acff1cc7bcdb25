-- ===== src/Background/CommandLine/Agree.antt =====
-- src/app/background_lifecycle.c: the two ways to ask for a hidden start against each other.
use gdox.Common.{
  ℕ, zero, suc, ◌≤◌, ◌<◌, ◌≡◌, refl, ◌∙◌, ap, true, false, Option, none, some, List, [], ◌∷◌, ◌++◌,
  length, length-append, ◌==◌, if◌then◌else◌, arith,
}
use gdox.Background.CommandLine.{
  is_space, is_quote, skip_spaces, quoted_argument, read_argument, next_argument, scan_arguments,
  some_requests, arguments_request_hidden, command_line_requests_hidden,
}
use gdox.Common.Compare.{same_bytes}
use gdox.Common.Text.{scan_until}
use gdox.Background.CommandLine.{background_argument}
use gdox.Background.CommandLine.Fuel.{scan_nothing}

-- An argument as it is written: between two quotes of one kind (`some quote`) or plainly, with
-- the white space behind it.
pub record Written : Type 0 where
  pub quote : Option ℕ
  pub word : List ℕ
  pub gap : List ℕ

abbrev pub All : (ℕ → Type 0) → List ℕ → Type 0
All P [] = Unit {0}
All P (c ∷ l) = P c × All P l

abbrev pub IsSpace : ℕ → Type 0
IsSpace c = is_space c ≡ true

-- A plain word starts with no quote.
abbrev pub IsPlain : List ℕ → Type 0
IsPlain [] = ⊥
IsPlain (c ∷ l) = (is_quote c ≡ false) × All (λ d. is_space d ≡ false) (c ∷ l)

abbrev pub IsWord : Option ℕ → List ℕ → Type 0
IsWord none word = IsPlain word
IsWord (some q) word = (is_quote q ≡ true) × (is_space q ≡ false) × All (λ d. (d == q) ≡ false) word

-- Behind an argument that is not the last there is white space.
abbrev pub Separates : List ℕ → List Written → Type 0
Separates (c ∷ gap) rest = Unit {0}
Separates [] [] = Unit {0}
Separates [] (a ∷ rest) = ⊥

abbrev pub AreWritten : List Written → Type 0
AreWritten [] = Unit {0}
AreWritten (a ∷ rest) =
    IsWord a.quote a.word × All IsSpace a.gap × Separates a.gap rest × AreWritten rest

abbrev pub quote_text : Option ℕ → List ℕ → List ℕ → List ℕ
quote_text none word rest = word ++ rest
quote_text (some q) word rest = q ∷ (word ++ (q ∷ rest))

-- The line that holds the arguments.
abbrev pub line_of : List Written → List ℕ
line_of [] = []
line_of (a ∷ rest) = quote_text a.quote a.word (a.gap ++ line_of rest)

abbrev pub words : List Written → List (Option (List ℕ))
words [] = []
words (a ∷ rest) = some a.word ∷ words rest

-- The line is at its end, or at white space.
abbrev Ends : List ℕ → Type 0
Ends [] = Unit {0}
Ends (c ∷ l) = IsSpace c

skip_gap : (gap l : List ℕ) → All IsSpace gap → skip_spaces (gap ++ l) ≡ skip_spaces l
unfolding skip_spaces
skip_gap [] l h = refl
skip_gap (c ∷ gap) l h = rw (h.0) (skip_gap gap l h.1)

scan_word :
    (word l : List ℕ)
    → All (λ d. is_space d ≡ false) word
    → Ends l
    → scan_until is_space (word ++ l) ≡ (word, l)
unfolding scan_until
scan_word [] [] h e = refl
scan_word [] (c ∷ l) h e = rw e refl
scan_word (c ∷ word) l h e = rw (h.0, scan_word word l h.1 e) refl

scan_quoted :
    (q : ℕ) (word l : List ℕ)
    → All (λ d. (d == q) ≡ false) word
    → scan_until (λ d. d == q) (word ++ (q ∷ l)) ≡ (word, q ∷ l)
unfolding scan_until
scan_quoted q [] l h = ground arith
scan_quoted q (c ∷ word) l h = let later = scan_quoted q word l h.1 in ground (arith, h.0)

gap-Ends :
    (gap : List ℕ) (rest : List Written)
    → All IsSpace gap
    → Separates gap rest
    → Ends (gap ++ line_of rest)
gap-Ends [] [] h s = tt
gap-Ends [] (a ∷ rest) h s = absurd s
gap-Ends (c ∷ gap) rest h s = h.0

quoted-Ends : (word l : List ℕ) → Ends l → quoted_argument word l ≡ (some word, l)
unfolding quoted_argument
quoted-Ends word [] e = refl
quoted-Ends word (c ∷ l) e = rw e refl

next_at_word :
    (c : ℕ) (l : List ℕ) → is_space c ≡ false → next_argument (c ∷ l) ≡ some (read_argument c l)
unfolding next_argument skip_spaces
next_at_word c l h = ground (arith, h)

read_plain :
    (c : ℕ) (word l : List ℕ)
    → is_quote c ≡ false
    → scan_until is_space (c ∷ (word ++ l)) ≡ (c ∷ word, l)
    → read_argument c (word ++ l) ≡ (some (c ∷ word), l)
unfolding read_argument
read_plain c word l q s = ground (arith, q, s)

read_quoted :
    (q : ℕ) (word l : List ℕ)
    → is_quote q ≡ true
    → scan_until (λ d. d == q) (word ++ (q ∷ l)) ≡ (word, q ∷ l)
    → read_argument q (word ++ (q ∷ l)) ≡ quoted_argument word l
unfolding read_argument
read_quoted q word l e s = rw (e, s) refl

next_written :
    (quote : Option ℕ) (word l : List ℕ)
    → IsWord quote word
    → Ends l
    → next_argument (quote_text quote word l) ≡ some (some word, l)
next_written none [] l h e = absurd h
next_written none (c ∷ word) l (plain, letters) e =
    next_at_word c (word ++ l) letters.0
    ∙ ap some (read_plain c word l plain (scan_word (c ∷ word) l letters e))
next_written (some q) word l (is_quote_q, no_space, inner) e =
    next_at_word q (word ++ (q ∷ l)) no_space
    ∙ ap some (read_quoted q word l is_quote_q (scan_quoted q word l inner) ∙ quoted-Ends word l e)

scan_step :
    (fuel : ℕ) (line word rest : List ℕ)
    → next_argument line ≡ some (some word, rest)
    → scan_arguments (suc fuel) line
      ≡ (if same_bytes word background_argument then true else scan_arguments fuel rest)
unfolding scan_arguments
scan_step fuel line word rest e = ground (arith, e)

scan_gap :
    (fuel : ℕ) (gap l : List ℕ)
    → All IsSpace gap
    → scan_arguments fuel (gap ++ l) ≡ scan_arguments fuel l
unfolding scan_arguments next_argument
scan_gap zero gap l h = refl
scan_gap (suc fuel) gap l h = rw (scan_arguments, next_argument, skip_gap gap l h) refl

scan_line :
    (fuel : ℕ) (l : List Written)
    → AreWritten l
    → length l ≤ fuel
    → scan_arguments fuel (line_of l) ≡ some_requests (words l)
unfolding some_requests
scan_line fuel [] h e = scan_nothing fuel
scan_line zero (a ∷ rest) h e = absurd (omega arith)
scan_line (suc fuel) (a ∷ rest) (word, spaces, apart, later) e =
    let found =
      next_written a.quote a.word (a.gap ++ line_of rest) word (gap-Ends a.gap rest spaces apart) in
    let ih = scan_line fuel rest later (omega arith) in
    scan_step fuel (line_of (a ∷ rest)) a.word (a.gap ++ line_of rest) found
    ∙ ap (λ r. if same_bytes a.word background_argument then true else r)
        (scan_gap fuel a.gap (line_of rest) spaces ∙ ih)

line_fits : (l : List Written) → AreWritten l → length l ≤ length (line_of l)
line_fits [] h = omega arith
line_fits (a ∷ rest) (word, spaces, apart, later) =
    let ih = line_fits rest later in
    let gap = length-append a.gap (line_of rest) in
    let fits = text_fits a.quote a.word (a.gap ++ line_of rest) word in omega arith
  where
    text_fits :
        (quote : Option ℕ) (w l : List ℕ)
        → IsWord quote w
        → length l < length (quote_text quote w l)
    text_fits none [] l h = absurd h
    text_fits none (c ∷ w) l h = omega (arith, length-append w l)
    text_fits (some q) w l h = omega (arith, length-append w (q ∷ l))

-- For arguments written with white space between them, plainly or in quotes, the command line asks
-- for a hidden start exactly when the vector of the program's name and the same arguments does.
pub command_line-arguments :
    (program : Option (List ℕ)) (l : List Written)
    → AreWritten l
    → command_line_requests_hidden (some (line_of l))
      ≡ arguments_request_hidden (some (program ∷ words l))
unfolding command_line_requests_hidden arguments_request_hidden
command_line-arguments program l h = scan_line (length (line_of l)) l h (line_fits l h)
