-- ===== src/DiscUri.antt =====
-- src/core/disc_uri.c: the address that the emulators are given. A text is the list of its
-- characters in front of its NUL.
pub mod Accepted
pub mod Digits
use gdox.Common.{
  ℕ, ◌+◌, ◌-◌, ◌*◌, Bool, true, false, not, ◌&&◌, ◌||◌, Option, none, some, List, [], ◌∷◌, take,
  drop, ltb, leb, ◌==◌, if◌then◌else◌, u32,
}
use gdox.Common.Compare.{same_bytes}
use gdox.Fault.{invalid_argument, Outcome, ok, failed}

-- `prefix`, "nbd://127.0.0.1:"
unfoldable pub uri_prefix : List ℕ
uri_prefix = 110 ∷ 98 ∷ 100 ∷ 58 ∷ 47 ∷ 47 ∷ 49 ∷ 50 ∷ 55 ∷ 46 ∷ 48 ∷ 46 ∷ 48 ∷ 46 ∷ 49 ∷ 58 ∷ []

unfoldable pub is_digit : ℕ → Bool
is_digit c = leb 48 c && leb c 57

-- `lower_hex`
unfoldable pub lower_hex : ℕ → Bool
lower_hex c = leb 48 c && leb c 57 || leb 97 c && leb c 102

-- The `while` that reads the port, with the digits and the port so far; `none` at a sixth digit.
unfoldable pub read_port : ℕ → ℕ → List ℕ → Option (ℕ × List ℕ)
read_port digits port [] = some (port, [])
read_port digits port (c ∷ cs) = elim (is_digit c) [
  | false ↦ some (port, c ∷ cs)
  | true ↦ elim (digits == 5) [
    | true ↦ none
    | false ↦ read_port (digits + 1) (u32 (port * 10 + (c - 48))) cs
  ]
]

-- The `while` over the token, with the characters so far
unfoldable pub read_token : ℕ → List ℕ → ℕ × List ℕ
read_token token_bytes [] = (token_bytes, [])
read_token token_bytes (c ∷ cs) = elim (lower_hex c) [
  | false ↦ (token_bytes, c ∷ cs)
  | true ↦ read_token (token_bytes + 1) cs
]

-- From the token on
unfoldable pub validate_token : List ℕ → Outcome
validate_token text =
    let (token_bytes, rest) = read_token 0 text in
    elim rest [
      | [] ↦ if token_bytes == 32 then ok else failed invalid_argument
      | c ∷ cs ↦ failed invalid_argument
    ]

-- From the slash behind the port on
unfoldable pub validate_slash : ℕ → List ℕ → Outcome
validate_slash port [] = failed invalid_argument
validate_slash port (c ∷ cs) =
    if not (c == 47) || port == 0 || ltb 0xffff port
    then failed invalid_argument
    else validate_token cs

-- From the port on
unfoldable pub validate_port : List ℕ → Outcome
validate_port [] = failed invalid_argument
validate_port (c ∷ cs) =
    if ltb c 49 || ltb 57 c then failed invalid_argument else elim (read_port 0 0 (c ∷ cs)) [
      | none ↦ failed invalid_argument
      | some (port, rest) ↦ validate_slash port rest
    ]

-- `gdox_disc_uri_validate`; `none` is NULL.
unfoldable pub disc_uri_validate : Option (List ℕ) → Outcome
disc_uri_validate none = failed invalid_argument
disc_uri_validate (some uri) =
    if not (same_bytes (take 16 uri) uri_prefix)
    then failed invalid_argument
    else validate_port (drop 16 uri)
