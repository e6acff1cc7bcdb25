-- ===== src/Monitor/Stable.antt =====
-- src/app/optical_monitor.c: the monitor over a history of calls.
use gdox.Common.{ℕ, ◌+◌, Bool, false, List, [], ◌∷◌, if◌then◌else◌}
use gdox.Monitor.{
  stable_limit, MonitorFailure, EjectCompletion, OpticalPresence, OpticalMonitor,
  monitor_session_ended, monitor_block, monitor_eject_completed, monitor_fail, monitor_retry,
  monitor_observation_failed, is_absent, monitor_observe,
}

-- The calls on a monitor, by whichever part of the program makes them.
pub data Call : Type 0 where
  observe : OpticalPresence → Call
  observation_failed block session_ended retry : Call
  fail : MonitorFailure → Call
  eject : EjectCompletion → Call

-- Whether the call starts an attempt, and the monitor after it
unfoldable pub call : OpticalMonitor → Call → Bool × OpticalMonitor
call m (observe p) = monitor_observe m p
call m observation_failed = (false, monitor_observation_failed m)
call m block = (false, monitor_block)
call m session_ended = (false, monitor_session_ended)
call m retry = (false, monitor_retry)
call m (fail f) = (false, monitor_fail m f)
call m (eject e) = (false, monitor_eject_completed e)

unfoldable pub after : OpticalMonitor → List Call → OpticalMonitor
after m [] = m
after m (c ∷ cs) = after (call m c).1 cs

-- How many observations of a medium a history ends with, after one more call: a retry counts for
-- as many as an attempt takes.
unfoldable pub run_after : ℕ → Call → ℕ
run_after n (observe p) = if is_absent p then 0 else n + 1
run_after n retry = stable_limit
run_after n c = 0

unfoldable pub run_of : ℕ → List Call → ℕ
run_of n [] = n
run_of n (c ∷ cs) = run_of (run_after n c) cs
