-- ===== src/SessionStorage/Paths.antt =====
-- src/platform/session_storage_policy.c: the paths and the markers that it accepts.
use gdox.Common.{
  ℕ, zero, suc, ◌+◌, ◌≤◌, ◌<◌, ◌≡◌, ◌≢◌, refl, sym, ap, ◌∙◌, inl, inr, ◌↔◌, Bool, true, false,
  Bool-cases, some, List, [], ◌∷◌, ◌++◌, length, drop, length-append, if◌then◌else◌, arith,
}
use gdox.Common.Text.{scan_until, scan_until-le}
use gdox.SessionStorage.{
  is_separator, refuses_component, check_components, relative_path_is_safe, marker_prefix,
  owner_marker_format, has_byte,
}

abbrev pub push : ℕ → List (List ℕ) → List (List ℕ)
push c [] = (c ∷ []) ∷ []
push c (p ∷ ps) = (c ∷ p) ∷ ps

-- The components of a path: what stands between its separators, empty where two of them meet, or
-- one stands at an end.
unfoldable pub components : List ℕ → List (List ℕ)
components [] = [] ∷ []
components (c ∷ l) = let rest = components l in if is_separator c then [] ∷ rest else push c rest

abbrev pub dot : List ℕ
dot = 46 ∷ []

abbrev pub dot_dot : List ℕ
dot_dot = 46 ∷ 46 ∷ []

-- A component that names an entry of the directory that it stands in.
abbrev pub IsEntry : List ℕ → Type 0
IsEntry p = (p ≢ []) × (p ≢ dot) × (p ≢ dot_dot)

abbrev pub AllEntries : List (List ℕ) → Type 0
AllEntries [] = Unit {0}
AllEntries (p ∷ ps) = IsEntry p × AllEntries ps

refuses_component_iff : (p : List ℕ) → (refuses_component p ≡ false) ↔ IsEntry p
unfolding refuses_component
refuses_component_iff [] = ground arith
refuses_component_iff (a ∷ []) = ground arith
refuses_component_iff (a ∷ b ∷ []) = ground arith
refuses_component_iff (a ∷ b ∷ c ∷ l) = ground arith

-- What is left of a scan is the rest of the components.
abbrev after_scan : List ℕ → List (List ℕ)
after_scan [] = []
after_scan (s ∷ r) = components r

components-scan :
    (l : List ℕ)
    → components l ≡ (scan_until is_separator l).0 ∷ after_scan (scan_until is_separator l).1
unfolding components scan_until
components-scan [] = refl
components-scan (c ∷ l) = let later = components-scan l in ground (arith, later)

-- The body of the loop, at what the scan gave.
abbrev round : ℕ → List ℕ → List ℕ → Bool
round fuel part [] = if refuses_component part then false else true
round fuel part (s ∷ []) = false
round fuel part (s ∷ d ∷ m) =
    if refuses_component part then false else check_components fuel (d ∷ m)

check-round :
    (fuel c : ℕ) (l part rest : List ℕ)
    → scan_until is_separator (c ∷ l) ≡ (part, rest)
    → check_components (suc fuel) (c ∷ l) ≡ round fuel part rest
unfolding check_components
check-round fuel c l part [] e = rw (check_components, e) (ground arith)
check-round fuel c l part (s ∷ []) e = rw (check_components, e) (ground arith)
check-round fuel c l part (s ∷ d ∷ m) e = rw (check_components, e) (ground arith)

round_iff :
    (fuel : ℕ) (part rest : List ℕ)
    → ((d : ℕ) (m : List ℕ)
        → length (d ∷ m) ≤ fuel
        → (check_components fuel (d ∷ m) ≡ true) ↔ AllEntries (components (d ∷ m)))
    → length rest ≤ fuel + 1
    → (round fuel part rest ≡ true) ↔ AllEntries (part ∷ after_scan rest)
round_iff fuel part [] ih short = let entry = refuses_component_iff part in ground (arith, entry)
round_iff fuel part (s ∷ []) ih short = unfold components in ground arith
round_iff fuel part (s ∷ d ∷ m) ih short =
    let entry = refuses_component_iff part in
    let later = ih d m (omega arith) in ground (arith, entry, later)

check_components_iff :
    (fuel c : ℕ) (l : List ℕ)
    → length (c ∷ l) ≤ fuel
    → (check_components fuel (c ∷ l) ≡ true) ↔ AllEntries (components (c ∷ l))
check_components_iff zero c l h = absurd (omega arith)
check_components_iff (suc fuel) c l h =
    let (part, rest) = scan_until is_separator (c ∷ l) in
    rw (check-round fuel c l part rest refl, components-scan (c ∷ l))
      (round_iff fuel part rest (λ d m short. check_components_iff fuel d m short)
        (omega (arith, scan_until-le is_separator (c ∷ l))))

separator_first : (c : ℕ) (l : List ℕ) → is_separator c ≡ true → AllEntries (components (c ∷ l)) → ⊥
unfolding components
separator_first c l h e = ground (arith, h, e)

-- A path is accepted exactly when each component between its separators names an entry of the
-- directory that it stands in: none is empty, "." or "..", so that the path neither starts at a
-- root nor leaves the directory it is resolved in.
pub relative_path_is_safe_iff :
    (path : List ℕ) → (relative_path_is_safe (some path) ≡ true) ↔ AllEntries (components path)
unfolding relative_path_is_safe
relative_path_is_safe_iff [] = unfold components in ground arith
relative_path_is_safe_iff (c ∷ l) = elim (Bool-cases (is_separator c)) [
  | inl h ↦ (λ e. absurd (ground (arith, e, h)), λ e. absurd (separator_first c l h e))
  | inr h ↦ rw (relative_path_is_safe, h) (check_components_iff (length (c ∷ l)) c l (omega arith))
]

cancel_last : (z : ℕ) (xs ys : List ℕ) → xs ++ (z ∷ []) ≡ ys ++ (z ∷ []) → xs ≡ ys
cancel_last z [] [] e = refl
cancel_last z [] (y ∷ ys) e = absurd (omega (arith, ap length e, length-append ys (z ∷ [])))
cancel_last z (x ∷ xs) [] e = absurd (omega (arith, ap length e, length-append xs (z ∷ [])))
cancel_last z (x ∷ xs) (y ∷ ys) e =
    let first : x ≡ y = ground (arith, e) in
    let later = cancel_last z xs ys (ground (arith, e)) in
    ap (λ k. k ∷ xs) first ∙ ap (λ t. y ∷ t) later

-- What a text that the call wrote says of the name.
abbrev Marks : List ℕ → List ℕ → Type 0
Marks name text =
    (name ≢ [])
    × (has_byte 10 name ≡ false)
    × (has_byte 13 name ≡ false)
    × (text ≡ marker_prefix ++ (name ++ (10 ∷ [])))
    × (length text < 512)

format-Marks : (name text : List ℕ) → owner_marker_format (some name) ≡ some text → Marks name text
unfolding owner_marker_format
format-Marks [] text e = absurd (ground (arith, e))
format-Marks (c ∷ l) text e =
    (ground arith, ground (arith, e), ground (arith, e), ground (arith, e), ground (arith, e))

-- A name whose marker is written is not empty and has no line break; the marker fits its buffer
-- with the NUL, and two names with one marker are the same.
pub owner_marker_format_lem :
    (name other text : List ℕ)
    → owner_marker_format (some name) ≡ some text
    → (name ≢ [])
      × (has_byte 10 name ≡ false)
      × (has_byte 13 name ≡ false)
      × (text ≡ marker_prefix ++ (name ++ (10 ∷ [])))
      × (length text < 512)
      × (owner_marker_format (some other) ≡ some text → other ≡ name)
owner_marker_format_lem name other text e =
    let (some_name, no_line_feed, no_return, written, fits) = format-Marks name text e in
    (
      some_name,
      no_line_feed,
      no_return,
      written,
      fits,
      λ e'.
          let (_, _, _, rewritten, _) = format-Marks other text e' in
          cancel_last 10 other name (ap (drop 27) (sym rewritten ∙ written)),
    )
