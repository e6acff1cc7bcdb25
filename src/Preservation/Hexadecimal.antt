-- ===== src/Preservation/Hexadecimal.antt =====
-- src/core/preservation_catalog.c against src/core/hash.c and src/platform/nbd_token.c: what is
-- written in hexadecimal is read back.
use Prim.Native.Nat.{bit_and}
use mathlib.Core.Path.{subst}
use gdox.Common.{
  ℕ, ◌+◌, ◌*◌, ◌/◌, ◌<◌, ◌≡◌, refl, ap, sym, ◌∙◌, Bool, true, false, Bool-cases, some, List, [],
  ◌∷◌, ◌++◌, append-nil, append_assoc, get_or, length, length-append, leb, leb→le, inl, inr, ==_iff,
  arith,
}
use gdox.Common.Digits.{and_low_nibble}
use gdox.Fault.{ok}
use gdox.Hash.Hex.{lower_digits, upper_digits, hex_text, hash_hex, length-hex_text}
use gdox.Nbd.Token.{Answer, got, interrupted, refused, random_bytes, create_token, token_bytes}
use gdox.Preservation.{hex_nibble, parse_pairs, parse_hex}

-- Bytes are below 256.
abbrev pub AreBytes : List ℕ → Type 0
AreBytes [] = Unit {0}
AreBytes (b ∷ bytes) = (b < 256) × AreBytes bytes

-- The digits of a table that are read back as their places.
abbrev Reads16 : List ℕ → Type 0
Reads16 digits = (n : ℕ) → n < 16 → hex_nibble (get_or digits n 0) ≡ some n

lower_reads : Reads16 lower_digits
unfolding hex_nibble
lower_reads n h = ground (arith, h)

upper_reads : Reads16 upper_digits
unfolding hex_nibble
upper_reads n h = ground (arith, h)

parse-hex_text :
    (digits bytes : List ℕ)
    → Reads16 digits
    → AreBytes bytes
    → parse_pairs (hex_text digits bytes) ≡ some bytes
unfolding parse_pairs hex_text
parse-hex_text digits [] reads h = refl
parse-hex_text digits (b ∷ bytes) reads (small, rest) =
    let high = reads (b / 16) (omega arith) in
    let low = reads (bit_and b 15) (omega (arith, and_low_nibble b)) in
    let whole : b / 16 * 16 + bit_and b 15 ≡ b = omega (arith, and_low_nibble b) in
    rw (high, low, parse-hex_text digits bytes reads rest) (ap (λ k. some (k ∷ bytes)) whole)

-- What `gdox_hash_hex` writes of some bytes, in either case of its digits, `parse_hex` reads back.
pub parse_hex-hash_hex :
    (bytes : List ℕ) (uppercase : Bool)
    → AreBytes bytes
    → parse_hex (hash_hex bytes uppercase) (length bytes) ≡ some bytes
unfolding parse_hex hash_hex
parse_hex-hash_hex bytes true h =
    rw ((==_iff _ _).1 (length-hex_text upper_digits bytes))
      (parse-hex_text upper_digits bytes upper_reads h)
parse_hex-hash_hex bytes false h =
    rw ((==_iff _ _).1 (length-hex_text lower_digits bytes))
      (parse-hex_text lower_digits bytes lower_reads h)

-- The bytes that some answers give.
abbrev pub given : List Answer → List ℕ
given [] = []
given (got bytes ∷ answers) = bytes ++ given answers
given (interrupted ∷ answers) = given answers
given (refused ∷ answers) = given answers

-- No call fails, or gives nothing.
abbrev pub AllAnswer : List Answer → Type 0
AllAnswer [] = Unit {0}
AllAnswer (got [] ∷ answers) = ⊥
AllAnswer (got (b ∷ bytes) ∷ answers) = AllAnswer answers
AllAnswer (interrupted ∷ answers) = AllAnswer answers
AllAnswer (refused ∷ answers) = ⊥

full :
    (answers : List Answer) (token : List ℕ)
    → length token ≡ token_bytes
    → random_bytes answers token ≡ some (ok, token)
unfolding random_bytes
full [] token e = ground (arith, e)
full (answer ∷ answers) token e = ground (arith, e)

nothing_left : (l : List ℕ) → length l ≡ 0 → l ≡ []
nothing_left [] e = refl
nothing_left (x ∷ l) e = absurd (omega arith)

pause :
    (answers : List Answer) (token : List ℕ)
    → length token < token_bytes
    → random_bytes (interrupted ∷ answers) token ≡ random_bytes answers token
unfolding random_bytes
pause answers token h = ground (arith, h)

piece :
    (b : ℕ) (bytes : List ℕ) (answers : List Answer) (token : List ℕ)
    → length token < token_bytes
    → random_bytes (got (b ∷ bytes) ∷ answers) token ≡ random_bytes answers (token ++ (b ∷ bytes))
unfolding random_bytes
piece b bytes answers token h = ground (arith, h)

fill :
    (answers later : List Answer) (token : List ℕ)
    → AllAnswer answers
    → length token + length (given answers) ≡ token_bytes
    → random_bytes (answers ++ later) token ≡ some (ok, token ++ given answers)
fill [] later token h e =
    full later token (omega arith) ∙ ap (λ l. some (ok, l)) (sym (append-nil token))
fill (interrupted ∷ answers) later token h e = elim (Bool-cases (leb token_bytes (length token))) [
  | inl e' ↦
      full (interrupted ∷ (answers ++ later)) token
        (omega (arith, leb→le token_bytes (length token) e', e))
      ∙ ap (λ l. some (ok, l))
          (sym (append-nil token)
            ∙ ap (λ l. token ++ l)
                (sym (
                  nothing_left (given answers)
                    (omega (arith, leb→le token_bytes (length token) e', e)))))
  | inr e' ↦ pause (answers ++ later) token (ground (arith, e')) ∙ fill answers later token h e
]
fill (got [] ∷ answers) later token h e = absurd h
fill (got (b ∷ bytes) ∷ answers) later token h e =
    let counted : length (token ++ (b ∷ bytes)) + length (given answers) ≡ token_bytes =
      omega
        (arith, e, length-append (b ∷ bytes) (given answers), length-append token (b ∷ bytes)) in
    piece b bytes (answers ++ later) token
      (omega (arith, e, length-append (b ∷ bytes) (given answers)))
    ∙ (fill answers later (token ++ (b ∷ bytes)) h counted
        ∙ ap (λ l. some (ok, l)) (append_assoc token (b ∷ bytes) (given answers)))
fill (refused ∷ answers) later token h e = absurd h

-- Where the random source gives sixteen bytes in all, in pieces of any size and with calls that are
-- interrupted among them, the token is written: 32 digits, from which the bytes are read back, so
-- that two tokens differ where their bytes do.
pub create_token_lem :
    (answers later : List Answer)
    → AllAnswer answers
    → length (given answers) ≡ token_bytes
    → AreBytes (given answers)
    → let text = hash_hex (given answers) false in
      (create_token (answers ++ later) ≡ some (ok, some text))
      × (length text ≡ 32)
      × (parse_hex text token_bytes ≡ some (given answers))
unfolding create_token hash_hex
create_token_lem answers later h e bytes =
    let filled = fill answers later [] h (omega (arith, e)) in
    let read = parse_hex-hash_hex (given answers) false bytes in
    (
      rw (create_token, filled) refl,
      omega (arith, length-hex_text lower_digits (given answers), e),
      subst (λ n. parse_hex (hash_hex (given answers) false) n ≡ some (given answers)) e read,
    )
