-- ===== src/Background/CommandLine.antt =====
-- src/app/background_lifecycle.c: whether the program was asked to start hidden, by an argument
-- vector or by a command line in one text. A text is its bytes up to the NUL.
pub mod Agree
pub mod Fuel
use gdox.Common.{
  ℕ, zero, suc, Bool, true, false, not, ◌&&◌, ◌||◌, Option, none, some, List, [], ◌∷◌, length, leb,
  ◌==◌, if◌then◌else◌,
}
use gdox.Common.Compare.{same_bytes}
use gdox.Common.Text.{scan_until}

-- `background_argument`, "--background"
abbrev pub background_argument : List ℕ
background_argument = 45 ∷ 45 ∷ 98 ∷ 97 ∷ 99 ∷ 107 ∷ 103 ∷ 114 ∷ 111 ∷ 117 ∷ 110 ∷ 100 ∷ []

-- `isspace` of the C library, in the C locale
unfoldable pub is_space : ℕ → Bool
is_space c = c == 32 || (leb 9 c && leb c 13)

abbrev pub is_quote : ℕ → Bool
is_quote c = c == 34 || c == 39

-- The loop over the arguments from the second on; an argument that is `none` is a NULL pointer.
pub some_requests : List (Option (List ℕ)) → Bool
some_requests [] = false
some_requests (none ∷ l) = some_requests l
some_requests (some a ∷ l) =
    let rest = some_requests l in if same_bytes a background_argument then true else rest

-- `gdox_background_arguments_request_hidden`; `argument_count` is the length of the vector.
pub arguments_request_hidden : Option (List (Option (List ℕ))) → Bool
arguments_request_hidden none = false
arguments_request_hidden (some []) = false
arguments_request_hidden (some (program ∷ arguments)) = some_requests arguments

-- `while (isspace(*cursor)) ++cursor`
unfoldable pub skip_spaces : List ℕ → List ℕ
skip_spaces [] = []
skip_spaces (c ∷ l) = let rest = skip_spaces l in if is_space c then rest else c ∷ l

-- The branch of a quoted argument, from behind its closing quote on: with more text right behind
-- the quote, all of it is skipped and the argument is not compared (`none`).
unfoldable pub quoted_argument : List ℕ → List ℕ → Option (List ℕ) × List ℕ
quoted_argument word [] = (some word, [])
quoted_argument word (c ∷ l) =
    if not (is_space c) then (none, (scan_until is_space (c ∷ l)).1) else (some word, c ∷ l)

-- `if (*cursor == quote) ++cursor`
abbrev pub close_quote : List ℕ → List ℕ
close_quote [] = []
close_quote (c ∷ l) = l

-- One argument from its first byte on: its bytes, if they are to be compared, and what is left.
unfoldable pub read_argument : ℕ → List ℕ → Option (List ℕ) × List ℕ
unfolding quoted_argument
read_argument c l =
    if is_quote c
    then (let (word, rest) = scan_until (λ d. d == c) l in quoted_argument word (close_quote rest))
    else (let (word, rest) = scan_until is_space (c ∷ l) in (some word, rest))

-- One round of the outer loop; `none` is its end.
unfoldable pub next_argument : List ℕ → Option (Option (List ℕ) × List ℕ)
next_argument line = elim (skip_spaces line) [ [] ↦ none | c ∷ l ↦ some (read_argument c l) ]

abbrev pub matches : Option (List ℕ) → Bool
matches none = false
matches (some word) = same_bytes word background_argument

-- The outer loop. Each round but the last takes at least one byte, so that the length of the line
-- is enough fuel.
pub scan_arguments : ℕ → List ℕ → Bool
scan_arguments zero line = false
scan_arguments (suc fuel) line = elim (next_argument line) [
  | none ↦ false
  | some (word, rest) ↦ elim (matches word) [ true ↦ true | false ↦ scan_arguments fuel rest ]
]

-- `gdox_background_command_line_requests_hidden`
pub command_line_requests_hidden : Option (List ℕ) → Bool
command_line_requests_hidden none = false
command_line_requests_hidden (some line) = scan_arguments (length line) line
