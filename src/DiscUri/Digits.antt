-- ===== src/DiscUri/Digits.antt =====
-- src/core/disc_uri.c: what the loops over the port and the token read.
use gdox.Common.{
  ℕ, zero, suc, ◌+◌, ◌-◌, ◌*◌, ◌≤◌, ◌<◌, ◌≡◌, refl, sym, ap, ◌∙◌, Bool-cases, true, false, none,
  some, List, [], ◌∷◌, ◌++◌, length, ◌==◌, u32, arith, inl, inr,
}
use gdox.DiscUri.{is_digit, lower_hex, read_port, read_token}

abbrev pub AreDigits : List ℕ → Type 0
AreDigits [] = Unit
AreDigits (c ∷ cs) = (is_digit c ≡ true) × AreDigits cs

abbrev pub AreHex : List ℕ → Type 0
AreHex [] = Unit
AreHex (c ∷ cs) = (lower_hex c ≡ true) × AreHex cs

-- The number that decimal digits spell behind others
abbrev pub spelt : ℕ → List ℕ → ℕ
spelt n [] = n
spelt n (c ∷ cs) = spelt (n * 10 + (c - 48)) cs

pub spelt-grows : (n : ℕ) (cs : List ℕ) → n ≤ spelt n cs
spelt-grows n [] = omega arith
spelt-grows n (c ∷ cs) = omega (arith, spelt-grows (n * 10 + (c - 48)) cs)

pub digit_range : (c : ℕ) → is_digit c ≡ true → (48 ≤ c) × (c ≤ 57)
unfolding is_digit
digit_range c h = (ground arith, ground arith)

-- What a port of so many digits stays below
unfoldable pub room : ℕ → ℕ
room zero = 1
room (suc n) = 10 * room n

room-bounded : (n : ℕ) → n ≤ 5 → room n ≤ 100_000
unfolding room
room-bounded zero h = omega arith
room-bounded (suc zero) h = omega arith
room-bounded (suc (suc zero)) h = omega arith
room-bounded (suc (suc (suc zero))) h = omega arith
room-bounded (suc (suc (suc (suc zero)))) h = omega arith
room-bounded (suc (suc (suc (suc (suc zero))))) h = omega arith
room-bounded (suc (suc (suc (suc (suc (suc n)))))) h = absurd (omega arith)

digit_step :
    (digits port c : ℕ) (cs : List ℕ)
    → is_digit c ≡ true
    → digits < 5
    → port < room digits
    → (read_port digits port (c ∷ cs) ≡ read_port (suc digits) (port * 10 + (c - 48)) cs)
      × (port * 10 + (c - 48) < room (suc digits))
unfolding read_port room
digit_step digits port c cs hc few small =
    let range = digit_range c hc in
    let bound = room-bounded digits (omega arith) in
    let other : (digits == 5) ≡ false = ground arith in
    let word : u32 (port * 10 + (c - 48)) ≡ port * 10 + (c - 48) = omega (arith, range, bound) in
    let next : digits + 1 ≡ suc digits = omega arith in
    (rw (read_port, hc, other, word, next) refl, omega (arith, range))

digit_stop :
    (digits port c : ℕ) (cs : List ℕ)
    → is_digit c ≡ false
    → read_port digits port (c ∷ cs) ≡ some (port, c ∷ cs)
unfolding read_port
digit_stop digits port c cs h = rw (read_port, h) refl

sixth_digit :
    (digits port c : ℕ) (cs : List ℕ)
    → is_digit c ≡ true
    → (digits == 5) ≡ true
    → read_port digits port (c ∷ cs) ≡ none
unfolding read_port
sixth_digit digits port c cs h e = rw (read_port, h, e) refl

-- The port of digits that are five at most
pub read_port-digits :
    (digits port : ℕ) (ds token : List ℕ)
    → AreDigits ds
    → digits + length ds ≤ 5
    → port < room digits
    → read_port digits port (ds ++ (47 ∷ token)) ≡ some (spelt port ds, 47 ∷ token)
unfolding is_digit
read_port-digits digits port [] token h few small = digit_stop digits port 47 token refl
read_port-digits digits port (c ∷ cs) token (hc, hcs) few small =
    let (step, small') = digit_step digits port c (cs ++ (47 ∷ token)) hc (omega arith) small in
    step ∙ read_port-digits (suc digits) (port * 10 + (c - 48)) cs token hcs (omega arith) small'

-- What was read of a text is digits.
pub read_port-reads :
    (digits port : ℕ) (text : List ℕ) (p : ℕ) (rest : List ℕ)
    → read_port digits port text ≡ some (p, rest)
    → digits ≤ 5
    → port < room digits
    → (ds : List ℕ) × (text ≡ ds ++ rest) × AreDigits ds × (p ≡ spelt port ds)
unfolding read_port
read_port-reads digits port [] p rest e few small = ([], cc, tt, cc)
read_port-reads digits port (c ∷ cs) p rest e few small = elim (Bool-cases (is_digit c)) [
  | inr h ↦ let stop = digit_stop digits port c cs h in ([], cc, tt, cc)
  | inl h ↦ elim (Bool-cases (digits == 5)) [
    | inl last ↦ absurd (none_some (sym (sixth_digit digits port c cs h last) ∙ e))
    | inr more ↦
        let (step, small') = digit_step digits port c cs h (ground arith) small in
        let (ds, spells, are, p_is) =
          read_port-reads (suc digits) (port * 10 + (c - 48)) cs p rest (sym step ∙ e)
            (ground arith) small' in
        (c ∷ ds, ap (λ t. c ∷ t) spells, (h, are), p_is)
  ]
]
  where
    none_some : {A : Type 0} {a : A} → none ≡ some a → ⊥
    none_some e = cc

hex_step :
    (n c : ℕ) (cs : List ℕ) → lower_hex c ≡ true → read_token n (c ∷ cs) ≡ read_token (n + 1) cs
unfolding read_token
hex_step n c cs h = rw (read_token, h) refl

pub read_token-hex : (n : ℕ) (cs : List ℕ) → AreHex cs → read_token n cs ≡ (n + length cs, [])
unfolding read_token
read_token-hex n [] h = ap (λ k. (k, [])) count
  where
    count : n ≡ n + 0
    count = omega arith
read_token-hex n (c ∷ cs) (hc, hcs) =
    hex_step n c cs hc ∙ read_token-hex (n + 1) cs hcs ∙ ap (λ k. (k, [])) count
  where
    count : n + 1 + length cs ≡ n + suc (length cs)
    count = omega arith

hex_stop : (n c : ℕ) (cs : List ℕ) → lower_hex c ≡ false → read_token n (c ∷ cs) ≡ (n, c ∷ cs)
unfolding read_token
hex_stop n c cs h = rw (read_token, h) refl

pub read_token-reads :
    (n : ℕ) (cs : List ℕ)
    → (read_token n cs).1 ≡ []
    → AreHex cs × ((read_token n cs).0 ≡ n + length cs)
unfolding read_token
read_token-reads n [] e = (tt, omega arith)
read_token-reads n (c ∷ cs) e = elim (Bool-cases (lower_hex c)) [
  | inr h ↦ absurd (cons_nil (sym (ap (λ r. r.1) (hex_stop n c cs h)) ∙ e))
  | inl h ↦
      let step = hex_step n c cs h in
      let (are, count) = read_token-reads (n + 1) cs (sym (ap (λ r. r.1) step) ∙ e) in
      ((h, are), ap (λ r. r.0) step ∙ count ∙ sum)
]
  where
    cons_nil : {x : ℕ} {xs : List ℕ} → x ∷ xs ≡ [] → ⊥
    cons_nil e = cc

    sum : n + 1 + length cs ≡ n + suc (length cs)
    sum = omega arith
