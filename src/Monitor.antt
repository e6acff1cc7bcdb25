-- ===== src/Monitor.antt =====
-- src/app/optical_monitor.h and optical_monitor.c: when a drive that was observed is tried. The name
-- of the drive in an observation is left out.
pub mod Attempts
pub mod Stable
use gdox.Common.{ℕ, ◌+◌, Bool, true, false, not, ◌&&◌, ◌||◌, ltb, ◌==◌, if◌then◌else◌}

-- GDOX_MEDIA_STABLE_OBSERVATIONS, GDOX_MEDIA_REARM_OBSERVATIONS and
-- GDOX_MEDIA_TRANSIENT_RETRY_LIMIT
abbrev pub stable_limit : ℕ
stable_limit = 4

abbrev pub rearm_limit : ℕ
rearm_limit = 10

abbrev pub transient_retry_limit : ℕ
transient_retry_limit = 2

-- `gdox_optical_monitor_failure`
pub data MonitorFailure : Type 0 where
  transient terminal : MonitorFailure

-- `gdox_optical_eject_completion`
pub data EjectCompletion : Type 0 where
  no_completion tray_ejected released_for_manual_eject : EjectCompletion

-- `gdox_optical_presence`
pub record OpticalPresence : Type 0 where
  pub drive_present : Bool
  pub media_status_known : Bool
  pub media_present : Bool

-- `gdox_optical_monitor`
pub record OpticalMonitor : Type 0 where
  pub stable_observations : ℕ
  pub rearm_observations : ℕ
  pub transient_failures : ℕ
  pub attempt_permitted : Bool
  pub command_required : Bool

-- `gdox_optical_monitor_initialize`
unfoldable pub monitor_initialize : OpticalMonitor
monitor_initialize = record {
  stable_observations = 0;
  rearm_observations = 0;
  transient_failures = 0;
  attempt_permitted = true;
  command_required = false;
}

-- `gdox_optical_monitor_session_ended`
unfoldable pub monitor_session_ended : OpticalMonitor
monitor_session_ended = monitor_initialize

-- `gdox_optical_monitor_block`
unfoldable pub monitor_block : OpticalMonitor
monitor_block = record {
  stable_observations = 0;
  rearm_observations = 0;
  transient_failures = 0;
  attempt_permitted = false;
  command_required = false;
}

-- `gdox_optical_monitor_eject_completed`
unfoldable pub monitor_eject_completed : EjectCompletion → OpticalMonitor
monitor_eject_completed tray_ejected = monitor_session_ended
monitor_eject_completed _ = monitor_block

-- `gdox_optical_monitor_fail`
unfoldable pub monitor_fail : OpticalMonitor → MonitorFailure → OpticalMonitor
monitor_fail m terminal = record m {
  stable_observations = 0;
  rearm_observations = 0;
  attempt_permitted = false;
  command_required = true;
}
monitor_fail m transient =
    if ltb m.transient_failures transient_retry_limit
    then record m {
      stable_observations = 0;
      rearm_observations = 0;
      transient_failures = m.transient_failures + 1;
      attempt_permitted = true;
      command_required = false;
    }
    else record m {
      stable_observations = 0;
      rearm_observations = 0;
      attempt_permitted = false;
      command_required = true;
    }

-- `gdox_optical_monitor_retry`
unfoldable pub monitor_retry : OpticalMonitor
monitor_retry = record {
  stable_observations = stable_limit;
  rearm_observations = 0;
  transient_failures = 0;
  attempt_permitted = true;
  command_required = false;
}

-- `gdox_optical_monitor_observation_failed`
unfoldable pub monitor_observation_failed : OpticalMonitor → OpticalMonitor
monitor_observation_failed m = record m { stable_observations = 0 }

-- `!presence->drive_present || media_absent`
unfoldable pub is_absent : OpticalPresence → Bool
is_absent p = not p.drive_present || p.media_status_known && not p.media_present

-- `if (counter < limit) ++counter`
unfoldable pub count_up : ℕ → ℕ → ℕ
count_up limit counter = if ltb counter limit then counter + 1 else counter

-- `gdox_optical_monitor_observe` where nothing is there
unfoldable pub observe_absent : OpticalMonitor → OpticalMonitor
observe_absent m =
    let rearm = count_up rearm_limit m.rearm_observations in
    let m' = record m { stable_observations = 0; rearm_observations = rearm } in
    if ltb rearm rearm_limit
    then m'
    else record m' { transient_failures = 0; attempt_permitted = true; command_required = false }

-- `gdox_optical_monitor_observe` where a medium is there
unfoldable pub observe_present : OpticalMonitor → Bool × OpticalMonitor
observe_present m =
    let stable = count_up stable_limit m.stable_observations in
    let m' = record m { stable_observations = stable; rearm_observations = 0 } in
    if not m.attempt_permitted || ltb stable stable_limit
    then (false, m')
    else (true, record m' { attempt_permitted = false })

-- `gdox_optical_monitor_observe`
unfoldable pub monitor_observe : OpticalMonitor → OpticalPresence → Bool × OpticalMonitor
monitor_observe m p = if is_absent p then (false, observe_absent m) else observe_present m

-- `gdox_optical_monitor_is_armed`
unfoldable pub monitor_is_armed : OpticalMonitor → Bool
monitor_is_armed m = m.attempt_permitted

-- `gdox_optical_monitor_has_pending_failure`
unfoldable pub has_pending_failure : OpticalMonitor → Bool
has_pending_failure m = m.command_required || not (m.transient_failures == 0)
