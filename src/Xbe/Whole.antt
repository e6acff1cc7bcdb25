-- ===== src/Xbe/Whole.antt =====
-- src/core/xbe_patch_source.c: what the transform of a whole executable changes.
use mathlib.Core.Path.{subst}
use gdox.Common.{
  ℕ, zero, suc, ◌+◌, ◌-◌, ◌≤◌, ◌<◌, ◌≡◌, ◌≢◌, refl, sym, ap, ◌∙◌, ◌↔◌, Bool, true, false,
  Bool-cases, inl, inr, ◌&&◌, List, [], ◌∷◌, length, get_or, take, drop, set, length-set,
  get_or-set_self, get_or-set_ne, ltb, leb, if◌then◌else◌, ◌==◌, arith,
}
use gdox.Common.Compare.{same_bytes}
use gdox.Xbe.{media_check_signature, xbe_magic, signature_at, patch_rounds, patch_complete_file}

abbrev AllPositive : List ℕ → Type 0
AllPositive [] = Unit {0}
AllPositive (y ∷ ys) = (0 < y) × AllPositive ys

-- A range that starts as `s` does, byte by byte
same_prefix_iff :
    (s d : List ℕ)
    → AllPositive s
    → (same_bytes (take (length s) d) s ≡ true)
      ↔ ((j : ℕ) → j < length s → get_or d j 0 ≡ get_or s j 0)
unfolding same_bytes
same_prefix_iff [] d h = (λ e j less. absurd (omega arith), λ e. refl)
same_prefix_iff (y ∷ ys) [] h =
    (λ e. absurd (ground (arith, e)), λ e. absurd (omega (arith, e 0 (omega arith), h.0)))
same_prefix_iff (y ∷ ys) (x ∷ xs) (positive, rest) =
    let (to, from) = same_prefix_iff ys xs rest in
    (
      λ e j less. heads y ys x xs (ground (arith, e)) (to (ground (arith, e))) j less,
      λ e.
          let first : x ≡ y = e 0 (omega arith) in
          let later = from (λ j less. e (suc j) (omega arith)) in ground (arith, first, later),
    )
  where
    heads :
        (y : ℕ) (ys : List ℕ) (x : ℕ) (xs : List ℕ)
        → x ≡ y
        → ((j : ℕ) → j < length ys → get_or xs j 0 ≡ get_or ys j 0)
        → (j : ℕ) → j < length (y ∷ ys)
        → get_or (x ∷ xs) j 0 ≡ get_or (y ∷ ys) j 0
    heads y ys x xs e later zero less = e
    heads y ys x xs e later (suc j) less = later j (omega arith)

get_or-drop : (o : ℕ) (l : List ℕ) (j : ℕ) → get_or (drop o l) j 0 ≡ get_or l (o + j) 0
get_or-drop zero l j = let e : j ≡ 0 + j = omega arith in ap (λ k. get_or l k 0) e
get_or-drop (suc o) [] j = refl
get_or-drop (suc o) (x ∷ l) j =
    let e : suc (o + j) ≡ suc o + j = omega arith in
    get_or-drop o l j ∙ ap (λ k. get_or (x ∷ l) k 0) e

-- There is a media check at an offset when its eight bytes stand there.
pub signature_at_iff :
    (l : List ℕ) (o : ℕ)
    → (signature_at l o ≡ true)
      ↔ ((j : ℕ) → j < 8 → get_or l (o + j) 0 ≡ get_or media_check_signature j 0)
unfolding signature_at
signature_at_iff l o =
    let (to, from) = same_prefix_iff media_check_signature (drop o l) (omega arith) in
    (
      λ e j less. sym (get_or-drop o l j) ∙ to e j less,
      λ e. from (λ j less. get_or-drop o l j ∙ e j less),
    )

-- Whether a byte is the last of a media check that starts in front of `o`.
unfoldable pub is_branch : List ℕ → ℕ → ℕ → Bool
is_branch l o i = leb 7 i && ltb i (o + 7) && signature_at l (i - 7)

-- The bytes `l`, with the media checks in front of `o` patched
abbrev Patched : ℕ → List ℕ → List ℕ → Type 0
Patched o l l' = (i : ℕ) → get_or l' i 0 ≡ (if is_branch l o i then 0xeb else get_or l i 0)

-- The bytes of the media check but the last are not its last, and none is what is written.
early : (j : ℕ) → j < 7 → get_or media_check_signature j 0 ≢ 0x7d
early j h e = ground (arith, h, e)

other : (j : ℕ) → j < 8 → get_or media_check_signature j 0 ≢ 0xeb
other j h e = ground (arith, h, e)

-- A byte that was patched was the last of a media check.
branch_byte : (l : List ℕ) (o i : ℕ) → is_branch l o i ≡ true → (i < o + 7) × (get_or l i 0 ≡ 0x7d)
unfolding is_branch
branch_byte l o i e =
    let here : signature_at l (i - 7) ≡ true = ground (arith, e) in
    let last = (signature_at_iff l (i - 7)).0 here 7 (omega arith) in
    let place : i - 7 + 7 ≡ i = ground (arith, e) in
    (ground (arith, e), sym (ap (λ k. get_or l k 0) place) ∙ last)

still_there :
    (l l' : List ℕ) (o : ℕ) → Patched o l l' → signature_at l o ≡ true → signature_at l' o ≡ true
still_there l l' o p e = (signature_at_iff l' o).1 (λ j less.
    let byte = (signature_at_iff l o).0 e j less in
    elim (Bool-cases (is_branch l o (o + j))) [
      | inr b ↦ p (o + j) ∙ rw b byte
      | inl b ↦
          let (before, was) = branch_byte l o (o + j) b in
          absurd (early j (omega arith) (sym byte ∙ was))
    ])

was_there :
    (l l' : List ℕ) (o : ℕ) → Patched o l l' → signature_at l' o ≡ true → signature_at l o ≡ true
was_there l l' o p e = (signature_at_iff l o).1 (λ j less.
    let byte = (signature_at_iff l' o).0 e j less in
    elim (Bool-cases (is_branch l o (o + j))) [
      | inr b ↦ sym (rw b at (p (o + j))) ∙ byte
      | inl b ↦ absurd (other j less (sym byte ∙ rw b at (p (o + j))))
    ])

same_check : (l l' : List ℕ) (o : ℕ) → Patched o l l' → signature_at l' o ≡ signature_at l o
same_check l l' o p =
    let to = was_there l l' o p in
    let from = still_there l l' o p in
    elim (Bool-cases (signature_at l o)) [
      | inl e ↦ from e ∙ sym e
      | inr e ↦ elim (Bool-cases (signature_at l' o)) [
        | inl e' ↦ absurd (ground (arith, e, to e'))
        | inr e' ↦ e' ∙ sym e
      ]
    ]

-- One more offset
is_branch_next :
    (l : List ℕ) (o i : ℕ)
    → is_branch l (o + 1) i ≡ (if i == o + 7 then signature_at l o else is_branch l o i)
unfolding is_branch
is_branch_next l o i = elim (Bool-cases (i == o + 7)) [
  | inl e ↦
      let at : i ≡ o + 7 = ground (arith, e) in
      let back : o + 7 - 7 ≡ o = omega arith in rw (at, back) (ground arith)
  | inr e ↦ rw e (ground (arith, e))
]

behind_all : (l : List ℕ) (o : ℕ) → is_branch l o (o + 7) ≡ false
unfolding is_branch
behind_all l o = ground arith

Patched-next :
    (l l' : List ℕ) (o : ℕ)
    → o + 7 < length l'
    → Patched o l l'
    → Patched (o + 1) l (if signature_at l' o then set l' (o + 7) 0xeb else l')
Patched-next l l' o inside p i =
    let next = is_branch_next l o i in
    let self = get_or-set_self l' (o + 7) 0xeb 0 inside in
    let ne = get_or-set_ne l' (o + 7) i 0xeb 0 in
    rw (next, same_check l l' o p)
      (elim (Bool-cases (i == o + 7)) [
        | inl e ↦
            let at : i ≡ o + 7 = ground (arith, e) in
            let before : is_branch l o i ≡ false = rw at (behind_all l o) in
            elim (Bool-cases (signature_at l o)) [
              | inl s ↦ rw (s, e, at) self
              | inr s ↦ rw (s, e) (p i ∙ rw before refl)
            ]
        | inr e ↦
            let apart : o + 7 ≢ i = λ q. ground (arith, e, q) in
            elim (Bool-cases (signature_at l o)) [
              | inl s ↦ rw (s, e) (ne apart ∙ p i)
              | inr s ↦ rw (s, e) (p i)
            ]
      ])

length-patch_rounds : (rounds o : ℕ) (l : List ℕ) → length (patch_rounds rounds o l) ≡ length l
unfolding patch_rounds
length-patch_rounds zero o l = refl
length-patch_rounds (suc rounds) o l = elim (Bool-cases (signature_at l o)) [
  | inl e ↦
      rw e (length-patch_rounds rounds (o + 1) (set l (o + 7) 0xeb) ∙ length-set l (o + 7) 0xeb)
  | inr e ↦ rw e (length-patch_rounds rounds (o + 1) l)
]

patch_rounds-Patched :
    (rounds o : ℕ) (l l' : List ℕ)
    → o + rounds + 7 ≤ length l'
    → Patched o l l'
    → Patched (o + rounds) l (patch_rounds rounds o l')
unfolding patch_rounds
patch_rounds-Patched zero o l l' inside p =
    let e : o ≡ o + 0 = omega arith in subst (λ k. Patched k l l') e p
patch_rounds-Patched (suc rounds) o l l' inside p =
    let e : o + 1 + rounds ≡ o + suc rounds = omega arith in
    let l'' = if signature_at l' o then set l' (o + 7) 0xeb else l' in
    let size : length l'' ≡ length l' = elim (Bool-cases (signature_at l' o)) [
      | inl s ↦ rw s (length-set l' (o + 7) 0xeb)
      | inr s ↦ rw s refl
    ] in
    subst (λ k. Patched k l (patch_rounds rounds (o + 1) l'')) e
      (patch_rounds-Patched rounds (o + 1) l l'' (omega (arith, size))
        (Patched-next l l' o (omega arith) p))

none_yet : (l : List ℕ) (i : ℕ) → is_branch l 0 i ≡ false
unfolding is_branch
none_yet l i = ground arith

pub length-patch_complete_file :
    (bytes : List ℕ) (size : ℕ) → length (patch_complete_file bytes size).1 ≡ length bytes
unfolding patch_complete_file
length-patch_complete_file bytes size =
    let kept = length-patch_rounds (size - 8 + 1) 0 bytes in ground (arith, kept)

changes_all :
    (bytes : List ℕ) (size : ℕ)
    → size ≤ length bytes
    → (patch_complete_file bytes size).0 ≡ true
    → Patched (size - 7) bytes (patch_complete_file bytes size).1
unfolding patch_complete_file
changes_all bytes size fits e =
    let long : 8 ≤ size = ground (arith, e) in
    let whole : patch_complete_file bytes size ≡ (true, patch_rounds (size - 8 + 1) 0 bytes) =
      ground (arith, e) in
    let count : 0 + (size - 8 + 1) ≡ size - 7 = omega arith in
    rw whole (
      subst (λ k. Patched k bytes (patch_rounds (size - 8 + 1) 0 bytes)) count
        (patch_rounds-Patched (size - 8 + 1) 0 bytes bytes (omega arith)
          (λ i. rw (none_yet bytes i) refl)))

-- Of an executable in a buffer: the transform keeps the length, and changes exactly the last byte of
-- each media check that lies in the executable, to 0xeb; that a check overlaps one that was
-- patched before it makes no difference. What is shorter than a check or has not the magic of an
-- executable stays as it is.
pub patch_complete_file_lem :
    (bytes : List ℕ) (size : ℕ)
    → size ≤ length bytes
    → let (changed, patched) = patch_complete_file bytes size in
      (length patched ≡ length bytes)
      × (changed ≡ false → patched ≡ bytes)
      × ((changed ≡ true) ↔ ((8 ≤ size) × (same_bytes (take 4 bytes) xbe_magic ≡ true)))
      × (changed ≡ true
          → (i : ℕ)
          → get_or patched i 0 ≡ (if is_branch bytes (size - 7) i then 0xeb else get_or bytes i 0))
unfolding patch_complete_file
patch_complete_file_lem bytes size fits = (
  length-patch_complete_file bytes size,
  ground arith,
  (λ e. (ground (arith, e), ground (arith, e)), λ e. ground (arith, e)),
  changes_all bytes size fits,
)
