-- ===== src/Tests/Policies.antt =====
-- The theorems on the background lifecycle, the session storage, the monitor of drives and
-- the address of a disc, at concrete inputs.
use gdox.Common.{
  ℕ, ◌+◌, ◌*◌, ◌≤◌, ◌≡◌, ◌↔◌, true, none, some, List, [], ◌∷◌, ◌++◌, replicate, arith,
}
use gdox.Background.{
  stopping, window_closed, open_requested, quit_requested, BackgroundLifecycle,
  background_initialize, background_act,
}
use gdox.Background.History.{Call, request, take, run, opens, Stopped, activations_bounded}
use gdox.Background.CommandLine.{
  background_argument, is_space, arguments_request_hidden, command_line_requests_hidden,
}
use gdox.Background.CommandLine.Agree.{Written, AreWritten, words, line_of, command_line-arguments}
use gdox.SessionStorage.{relative_path_is_safe}
use gdox.SessionStorage.Paths.{components, AllEntries, relative_path_is_safe_iff}
use gdox.Fault.{ok}
use gdox.DiscUri.{uri_prefix, disc_uri_validate}
use gdox.DiscUri.Accepted.{Parts, disc_uri_validate-ok_iff}
use gdox.Monitor.{transient, OpticalPresence, monitor_initialize}
use gdox.Monitor.Stable
use gdox.Monitor.Attempts.{attempts, renewals, attempts_limited}

abbrev hidden_start : BackgroundLifecycle
hidden_start = background_initialize true true

abbrev reopened : BackgroundLifecycle
reopened = background_act hidden_start open_requested

abbrev closed_again : BackgroundLifecycle
closed_again = background_act reopened window_closed

abbrev calls : List Call
calls = request open_requested ∷ take ∷ take ∷ request quit_requested ∷ take ∷ []

activations_bounded_example :
    ((run (some (background_initialize true true)) calls).0 ≤ opens calls)
    × ((l : BackgroundLifecycle) → l.state ≡ stopping → Stopped l (run (some l) calls))
activations_bounded_example = activations_bounded true true calls

-- `-x "--background"`
abbrev written : List Written
written =
    record { quote = none; word = 45 ∷ 120 ∷ []; gap = 32 ∷ [] }
    ∷ record { quote = some 34; word = background_argument; gap = [] }
    ∷ []

are_written : AreWritten written
unfolding is_space
are_written = ground arith

command_line-arguments_example :
    command_line_requests_hidden (some (line_of written))
    ≡ arguments_request_hidden (some (none ∷ words written))
command_line-arguments_example = command_line-arguments none written are_written

-- "a/../b"
abbrev climbing : List ℕ
climbing = 97 ∷ 47 ∷ 46 ∷ 46 ∷ 47 ∷ 98 ∷ []

relative_path_is_safe_iff_example :
    (relative_path_is_safe (some climbing) ≡ true) ↔ AllEntries (components climbing)
relative_path_is_safe_iff_example = relative_path_is_safe_iff climbing

abbrev there : OpticalPresence
there = record { drive_present = true; media_status_known = true; media_present = true }

abbrev seen : Stable.Call
seen = Stable.observe there

-- Three observations of a disc behind one that failed
abbrev settling : List Stable.Call
settling = Stable.observation_failed ∷ seen ∷ seen ∷ seen ∷ []

-- An attempt that fails for a while, and one more
abbrev failing : List Stable.Call
failing = seen ∷ seen ∷ seen ∷ seen ∷ Stable.fail transient ∷ seen ∷ seen ∷ seen ∷ seen ∷ []

attempts_limited_example : attempts monitor_initialize failing ≤ 3 + 3 * renewals 0 failing
attempts_limited_example = attempts_limited failing

abbrev address : List ℕ
address = uri_prefix ++ (49 ∷ 48 ∷ 56 ∷ 48 ∷ 57 ∷ 47 ∷ replicate 32 97)

disc_uri_validate-ok_iff_example : (disc_uri_validate (some address) ≡ ok) ↔ (
    (text : List ℕ) × (address ≡ uri_prefix ++ text)
    × (digits : List ℕ) × (token : List ℕ) × Parts text digits token)
disc_uri_validate-ok_iff_example = disc_uri_validate-ok_iff address
