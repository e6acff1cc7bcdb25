-- ===== src/SessionStorage.antt =====
-- src/platform/session_storage_policy.c and its header: which relative paths the session storage
-- accepts, the marker that names a session's owner, and what becomes of a session that was found.
-- A text is its bytes up to the NUL; a text that is `none` is a NULL pointer.
pub mod Paths
use gdox.Common.{
  ℕ, zero, suc, Bool, true, false, ◌&&◌, ◌||◌, Option, none, some, List, [], ◌∷◌, ◌++◌, length, leb,
  ◌==◌, if◌then◌else◌,
}
use gdox.Common.Compare.{same_bytes}
use gdox.Common.Text.{scan_until}

-- A byte of "/\\", which `strpbrk` looks for
abbrev pub is_separator : ℕ → Bool
is_separator c = c == 47 || c == 92

-- The test of one component.
unfoldable pub refuses_component : List ℕ → Bool
refuses_component [] = true
refuses_component (a ∷ []) = a == 46
refuses_component (a ∷ b ∷ []) = a == 46 && b == 46
refuses_component (a ∷ b ∷ c ∷ l) = false

-- The `while` over the components. Each round but the last passes a separator, so that the length
-- of the path is enough fuel.
pub check_components : ℕ → List ℕ → Bool
check_components fuel [] = true
check_components zero (c ∷ l) = false
check_components (suc fuel) (c ∷ l) =
    let (part, rest) = scan_until is_separator (c ∷ l) in
    elim (refuses_component part) [
      | true ↦ false
      | false ↦ elim rest [
        | [] ↦ true
        | separator ∷ later ↦ elim later [ [] ↦ false | d ∷ m ↦ check_components fuel (d ∷ m) ]
      ]
    ]

-- `gdox_session_relative_path_is_safe`
pub relative_path_is_safe : Option (List ℕ) → Bool
relative_path_is_safe none = false
relative_path_is_safe (some []) = false
relative_path_is_safe (some (c ∷ l)) =
    if c == 47 || c == 92 then false else check_components (length (c ∷ l)) (c ∷ l)

-- `GDOX_SESSION_MARKER_CAPACITY`
abbrev pub marker_capacity : ℕ
marker_capacity = 512

-- `GDOX_SESSION_MARKER_PREFIX`, "GDOX-SESSION-OWNER-V1\nname="
abbrev pub marker_prefix : List ℕ
marker_prefix =
    71 ∷ 68 ∷ 79 ∷ 88 ∷ 45 ∷ 83 ∷ 69 ∷ 83 ∷ 83 ∷ 73 ∷ 79 ∷ 78 ∷ 45 ∷ 79 ∷ 87 ∷ 78 ∷ 69 ∷ 82 ∷ 45
    ∷ 86 ∷ 49 ∷ 10 ∷ 110 ∷ 97 ∷ 109 ∷ 101 ∷ 61 ∷ []

-- `strchr(text, byte) != NULL`
unfoldable pub has_byte : ℕ → List ℕ → Bool
has_byte byte [] = false
has_byte byte (c ∷ l) = let later = has_byte byte l in c == byte || later

-- `gdox_session_owner_marker_format` with a place for the text and its length: the text, if the
-- call returns `true`.
pub owner_marker_format : Option (List ℕ) → Option (List ℕ)
owner_marker_format none = none
owner_marker_format (some []) = none
owner_marker_format (some (c ∷ l)) =
    let text = marker_prefix ++ ((c ∷ l) ++ (10 ∷ [])) in
    if has_byte 10 (c ∷ l) || has_byte 13 (c ∷ l)
    then none
    else if leb marker_capacity (length text)
    then none
    else some text

-- `gdox_session_lock_observation`
pub data LockObservation : Type 0 where
  not_inspected acquired contended lock_failed : LockObservation

-- `gdox_session_recovery_state`
pub data RecoveryState : Type 0 where
  preserve active stale error : RecoveryState

-- `gdox_session_recovery_decide`
pub recovery_decide : Bool → LockObservation → RecoveryState
recovery_decide false lock = preserve
recovery_decide true acquired = stale
recovery_decide true contended = active
recovery_decide true lock_failed = error
recovery_decide true not_inspected = preserve
