-- ===== src/Nbd/Token.antt =====
-- src/platform/nbd_token.c: the secret in the name of an export, on Linux.
use gdox.Common.{
  ℕ, true, false, Option, none, some, List, [], ◌∷◌, ◌++◌, length, leb, if◌then◌else◌,
}
use gdox.Fault.{io, Outcome, ok, failed}
use gdox.Hash.Hex.{lower_digits, hex_text}

-- `GDOX_NBD_TOKEN_BYTES`
abbrev pub token_bytes : ℕ
token_bytes = 16

-- What one call of `getrandom` answers: bytes, -1 with EINTR, or another failure.
pub data Answer : Type 0 where
  got : List ℕ → Answer
  interrupted refused : Answer

-- `random_bytes`, with the answers of the calls that it makes; `none` where it still waits for one.
unfoldable pub random_bytes : List Answer → List ℕ → Option (Outcome × List ℕ)
random_bytes [] token = if leb token_bytes (length token) then some (ok, token) else none
random_bytes (answer ∷ answers) token = elim (leb token_bytes (length token)) [
  | true ↦ some (ok, token)
  | false ↦ elim answer [
    | interrupted ↦ random_bytes answers token
    | refused ↦ some (failed io, token)
    | got bytes ↦ elim bytes [
      | [] ↦ some (failed io, token)
      | b ∷ more ↦ random_bytes answers (token ++ (b ∷ more))
    ]
  ]
]

-- `gdox_nbd_create_token`: the text in front of its NUL, where it is written.
unfoldable pub create_token : List Answer → Option (Outcome × Option (List ℕ))
create_token answers = elim (random_bytes answers []) [
  | none ↦ none
  | some (result, token) ↦ elim result [
    | failed code ↦ some (failed code, none)
    | ok ↦ some (ok, some (hex_text lower_digits token))
  ]
]
