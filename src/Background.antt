-- ===== src/Background.antt =====
-- src/app/background_lifecycle.c and its header: whether the window is shown, hidden behind a
-- background facility, or the program is stopping. A lifecycle that is `none` is a NULL pointer.
pub mod Reach
pub mod History
pub mod CommandLine
use gdox.Common.{Bool, true, false, ◌&&◌, Option, none, some, if◌then◌else◌}

-- `gdox_background_state`
pub data BackgroundState : Type 0 where
  visible hidden stopping : BackgroundState

-- `gdox_background_action`
pub data BackgroundAction : Type 0 where
  no_action window_closed open_requested quit_requested : BackgroundAction
  facility_available facility_unavailable : BackgroundAction

-- `gdox_background_lifecycle`
pub record BackgroundLifecycle : Type 0 where
  pub state : BackgroundState
  pub background_available : Bool
  pub window_activation_pending : Bool

-- `gdox_background_lifecycle_initialize`; what the record held before is overwritten.
unfoldable pub background_initialize :
    (start_hidden background_available : Bool) → BackgroundLifecycle
background_initialize start_hidden background_available = record {
  state = if start_hidden && background_available then hidden else visible;
  background_available = background_available;
  window_activation_pending = false;
}

-- The `case hidden` of the action that takes the facility away.
abbrev pub shown_again : BackgroundState → BackgroundState
shown_again visible = visible
shown_again hidden = visible
shown_again stopping = stopping

-- The `switch` of `gdox_background_lifecycle_apply`.
unfoldable pub background_switch : BackgroundAction → BackgroundLifecycle → BackgroundLifecycle
background_switch no_action l = l
background_switch window_closed l = record l {
  state = if l.background_available then hidden else stopping;
}
background_switch open_requested l = record l { state = visible; window_activation_pending = true }
background_switch quit_requested l = record l {
  state = stopping;
  window_activation_pending = false;
}
background_switch facility_available l = record l { background_available = true }
background_switch facility_unavailable l = record l {
  background_available = false;
  state = shown_again l.state;
}

-- `gdox_background_lifecycle_apply` on a lifecycle that is there
unfoldable pub background_act : BackgroundLifecycle → BackgroundAction → BackgroundLifecycle
unfolding background_switch
background_act l request = elim l.state [
  | stopping ↦ l
  | visible ↦ background_switch request l
  | hidden ↦ background_switch request l
]

-- `gdox_background_lifecycle_apply`
unfoldable pub background_apply :
    Option BackgroundLifecycle → BackgroundAction → Option BackgroundLifecycle
background_apply none request = none
background_apply (some l) request = some (background_act l request)

-- `gdox_background_lifecycle_take_window_activation`, with the lifecycle that it leaves
unfoldable pub take_window_activation :
    Option BackgroundLifecycle → Bool × Option BackgroundLifecycle
take_window_activation none = (false, none)
take_window_activation (some l) =
    (l.window_activation_pending, some (record l { window_activation_pending = false }))
