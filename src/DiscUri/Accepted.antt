-- ===== src/DiscUri/Accepted.antt =====
-- src/core/disc_uri.c: which texts are addresses of a disc.
use gdox.Common.{
  ℕ, ◌+◌, ◌-◌, ◌*◌, ◌≤◌, ◌<◌, ◌≡◌, refl, ap, ◌∙◌, ◌↔◌, true, false, ◌||◌, Option-cases, some, List,
  [], ◌∷◌, ◌++◌, length, get_or, take, drop, ltb, arith, inl, inr,
}
use gdox.Common.Compare.{same_bytes, same_bytes-≡, same_bytes_refl}
use gdox.Fault.{ok}
use gdox.DiscUri.{
  uri_prefix, read_port, read_token, validate_token, validate_slash, validate_port,
  disc_uri_validate,
}
use gdox.DiscUri.Digits.{
  AreDigits, AreHex, spelt, room, spelt-grows, digit_range, read_port-digits, read_port-reads,
  read_token-hex, read_token-reads,
}

-- A port in decimal without leading zeros, and a token of 32 digits in hexadecimal
pub record Parts (text digits token : List ℕ) : Type 0 where
  pub spells : text ≡ digits ++ (47 ∷ token)
  pub decimal : AreDigits digits
  pub leading : 49 ≤ get_or digits 0 0
  pub port : spelt 0 digits ≤ 0xffff
  pub hexadecimal : AreHex token
  pub characters : length token ≡ 32

token-ok : (text : List ℕ) → AreHex text → length text ≡ 32 → validate_token text ≡ ok
unfolding validate_token
token-ok text h e =
    let read = read_token-hex 0 text h in
    let empty : (read_token 0 text).1 ≡ [] = ap (λ r. r.1) read in
    let bytes : (read_token 0 text).0 ≡ 32 = ap (λ r. r.0) read ∙ omega arith in ground arith

token-reads : (text : List ℕ) → validate_token text ≡ ok → AreHex text × (length text ≡ 32)
unfolding validate_token
token-reads text h =
    let empty : (read_token 0 text).1 ≡ [] = ground arith in
    let (are, count) = read_token-reads 0 text empty in (are, ground arith)

-- A port below 2^16 without leading zeros has five digits at most.
few_digits : (ds : List ℕ) → AreDigits ds → 49 ≤ get_or ds 0 0 → spelt 0 ds ≤ 0xffff → length ds ≤ 5
few_digits [] h l s = omega arith
few_digits (a ∷ []) h l s = omega arith
few_digits (a ∷ b ∷ []) h l s = omega arith
few_digits (a ∷ b ∷ c ∷ []) h l s = omega arith
few_digits (a ∷ b ∷ c ∷ d ∷ []) h l s = omega arith
few_digits (a ∷ b ∷ c ∷ d ∷ e ∷ []) h l s = omega arith
few_digits (a ∷ b ∷ c ∷ d ∷ e ∷ f ∷ ds) h l s =
    absurd (omega (arith, spelt-grows (spelt 0 (a ∷ b ∷ c ∷ d ∷ e ∷ f ∷ [])) ds))

slash-ok :
    (port : ℕ) (token : List ℕ)
    → 0 < port
    → port ≤ 0xffff
    → validate_token token ≡ ok
    → validate_slash port (47 ∷ token) ≡ ok
unfolding validate_slash
slash-ok port token low high h = ground arith

-- What a text behind the port has to be
slash-reads :
    (port : ℕ) (rest : List ℕ)
    → validate_slash port rest ≡ ok
    → (token : List ℕ) × (rest ≡ 47 ∷ token) × (port ≤ 0xffff) × (validate_token token ≡ ok)
unfolding validate_slash
slash-reads port [] h = absurd (ground arith)
slash-reads port (c ∷ cs) h =
    let slash : c ≡ 47 = ground arith in (cs, ap (λ d. d ∷ cs) slash, ground arith, ground arith)

first_positive : (ds : List ℕ) → AreDigits ds → 49 ≤ get_or ds 0 0 → 0 < spelt 0 ds
first_positive [] h l = absurd (omega arith)
first_positive (c ∷ cs) h l = omega (arith, spelt-grows (0 * 10 + (c - 48)) cs)

port-ok : (text digits token : List ℕ) → Parts text digits token → validate_port text ≡ ok
unfolding validate_port room
port-ok text [] token p = absurd (omega (arith, p.leading))
port-ok text (c ∷ cs) token p =
    let read =
      read_port-digits 0 0 (c ∷ cs) token p.decimal
        (omega (arith, few_digits (c ∷ cs) p.decimal p.leading p.port)) (omega arith) in
    let range = digit_range c p.decimal.0 in
    let leading = p.leading in
    let first : ltb c 49 || ltb 57 c ≡ false = ground arith in
    ap validate_port p.spells
    ∙ rw (validate_port, first, read)
        (slash-ok (spelt 0 (c ∷ cs)) token (first_positive (c ∷ cs) p.decimal p.leading) p.port
          (token-ok token p.hexadecimal p.characters))

-- Which checks a port has passed
record Passed (c : ℕ) (cs : List ℕ) (port : ℕ) (rest : List ℕ) : Type 0 where
  read : read_port 0 0 (c ∷ cs) ≡ some (port, rest)
  above : 49 ≤ c
  slash : validate_slash port rest ≡ ok

port-Passed :
    (c : ℕ) (cs : List ℕ)
    → validate_port (c ∷ cs) ≡ ok
    → (port : ℕ) × (rest : List ℕ) × Passed c cs port rest
unfolding validate_port
port-Passed c cs h =
    let above : 49 ≤ c = ground arith in
    elim (Option-cases (read_port 0 0 (c ∷ cs))) [
      | inl none_read ↦ absurd (ground arith)
      | inr ((port, rest), read) ↦
          (port, rest, record { read = read; above = above; slash = ground arith })
    ]

leads :
    (c : ℕ) (cs ds rest : List ℕ) (token : List ℕ)
    → c ∷ cs ≡ ds ++ rest
    → rest ≡ 47 ∷ token
    → 49 ≤ c
    → 49 ≤ get_or ds 0 0
leads c cs [] rest token e r h = absurd (omega (arith, ap (λ t. get_or t 0 0) (e ∙ r)))
leads c cs (d ∷ ds) rest token e r h = omega (arith, ap (λ t. get_or t 0 0) e)

port-reads :
    (text : List ℕ)
    → validate_port text ≡ ok
    → (digits : List ℕ) × (token : List ℕ) × Parts text digits token
unfolding validate_port room
port-reads [] h = absurd (ground arith)
port-reads (c ∷ cs) h =
    let (port, rest, p) = port-Passed c cs h in
    let (token, spells, small, accepted) = slash-reads port rest p.slash in
    let (ds, cut, are, value) =
      read_port-reads 0 0 (c ∷ cs) port rest p.read (omega arith) (omega arith) in
    let (hex, count) = token-reads token accepted in
    (
      ds,
      token,
      record {
        spells = cut ∙ ap (λ t. ds ++ t) spells;
        decimal = are;
        leading = leads c cs ds rest token cut spells p.above;
        port = omega arith;
        hexadecimal = hex;
        characters = count;
      },
    )

-- A text without the first bytes, behind them
behind :
    (text prefix : List ℕ)
    → take (length prefix) text ≡ prefix
    → text ≡ prefix ++ drop (length prefix) text
behind text [] e = refl
behind [] (p ∷ ps) e = absurd (nil_cons e)
  where
    nil_cons : {x : ℕ} {xs : List ℕ} → [] ≡ x ∷ xs → ⊥
    nil_cons e = cc
behind (t ∷ ts) (p ∷ ps) e =
    let same : t ≡ p = ap (λ l. get_or l 0 0) e in
    let rest : take (length ps) ts ≡ ps = ap (λ l. drop 1 l) e in
    ap (λ x. x ∷ ts) same ∙ ap (λ l. p ∷ l) (behind ts ps rest)

-- A text is accepted as the address of a disc exactly when it is the prefix, a port between 1
-- and 65535 in decimal without leading zeros, a slash and 32 lower-case hexadecimal digits.
pub disc_uri_validate-ok_iff :
    (uri : List ℕ)
    → (disc_uri_validate (some uri) ≡ ok) ↔ (
        (text : List ℕ) × (uri ≡ uri_prefix ++ text)
        × (digits : List ℕ) × (token : List ℕ) × Parts text digits token)
unfolding disc_uri_validate uri_prefix
disc_uri_validate-ok_iff uri = (
  λ h.
      let same : same_bytes (take 16 uri) uri_prefix ≡ true = ground arith in
      let rest : validate_port (drop 16 uri) ≡ ok = ground arith in
      let cut = behind uri uri_prefix (same_bytes-≡ (take 16 uri) uri_prefix same) in
      let (digits, token, parts) = port-reads (drop 16 uri) rest in
      (drop 16 uri, cut, digits, token, parts),
  λ (text, e, digits, token, parts).
      ap (λ u. disc_uri_validate (some u)) e
      ∙ rw (same_bytes_refl uri_prefix) (port-ok text digits token parts),
)
