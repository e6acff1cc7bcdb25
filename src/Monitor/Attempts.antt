-- ===== src/Monitor/Attempts.antt =====
-- src/app/optical_monitor.c: how often a drive is tried.
use gdox.Common.{
  ℕ, ◌+◌, ◌-◌, ◌*◌, ◌≤◌, ◌≡◌, refl, Bool, true, false, ◌&&◌, List, [], ◌∷◌, min, ◌==◌,
  if◌then◌else◌, arith,
}
use gdox.Monitor.{
  rearm_limit, transient_retry_limit, transient, terminal, no_completion, tray_ejected,
  released_for_manual_eject, OpticalMonitor, monitor_initialize, monitor_session_ended,
  monitor_block, monitor_eject_completed, monitor_fail, monitor_retry, monitor_observation_failed,
  is_absent, count_up, observe_absent, observe_present, monitor_observe,
}
use gdox.Monitor.Stable.{
  Call, observe, observation_failed, block, session_ended, retry, fail, eject, call,
}

abbrev one_if : Bool → ℕ
one_if b = if b then 1 else 0

-- How many attempts a history starts
unfoldable pub attempts : OpticalMonitor → List Call → ℕ
attempts m [] = 0
attempts m (c ∷ cs) = one_if (call m c).0 + attempts (call m c).1 cs

-- How many observations without a medium a history ends with, after one more call; failed
-- observations do not count.
unfoldable pub absences_after : ℕ → Call → ℕ
absences_after a (observe p) = if is_absent p then a + 1 else 0
absences_after a observation_failed = a
absences_after a c = 0

-- Whether the call renews the attempts: the tenth absence in a row, a retry, a block, an ended
-- session or a completed eject.
unfoldable pub renews : ℕ → Call → Bool
renews a (observe p) = is_absent p && a + 1 == rearm_limit
renews a observation_failed = false
renews a (fail f) = false
renews a c = true

-- How many calls of a history renew the attempts
unfoldable pub renewals : ℕ → List Call → ℕ
renewals a [] = 0
renewals a (c ∷ cs) = one_if (renews a c) + renewals (absences_after a c) cs

-- The attempts that a monitor has left
abbrev left : OpticalMonitor → ℕ
left m = one_if m.attempt_permitted + (transient_retry_limit - m.transient_failures)

-- A monitor after `a` absences in a row
record Follows (m : OpticalMonitor) (a : ℕ) : Type 0 where
  rearm : m.rearm_observations ≡ min a rearm_limit
  permitted : rearm_limit ≤ a → m.attempt_permitted ≡ true
  fresh : rearm_limit ≤ a → m.transient_failures ≡ 0

call-Follows :
    (m : OpticalMonitor) (a : ℕ) (c : Call)
    → Follows m a
    → Follows (call m c).1 (absences_after a c)
      × (one_if (call m c).0 + left (call m c).1 ≤ left m + 3 * one_if (renews a c))
unfolding call absences_after renews monitor_observe observe_absent observe_present count_up
    monitor_observation_failed monitor_fail monitor_eject_completed monitor_session_ended
    monitor_block monitor_initialize monitor_retry
call-Follows m a (observe p) f = (
  record { rearm = ground arith; permitted = λ h. ground arith; fresh = λ h. ground arith },
  ground arith,
)
call-Follows m a observation_failed f =
    (record { rearm = f.rearm; permitted = f.permitted; fresh = f.fresh }, omega arith)
call-Follows m a block f =
    (record { rearm = refl; permitted = λ h. absurd (omega arith); fresh = λ h. refl }, omega arith)
call-Follows m a session_ended f =
    (record { rearm = refl; permitted = λ h. refl; fresh = λ h. refl }, omega arith)
call-Follows m a retry f =
    (record { rearm = refl; permitted = λ h. refl; fresh = λ h. refl }, omega arith)
call-Follows m a (fail terminal) f = (
  record { rearm = refl; permitted = λ h. absurd (omega arith); fresh = λ h. absurd (omega arith) },
  omega arith,
)
call-Follows m a (fail transient) f = (
  record {
    rearm = ground arith;
    permitted = λ h. absurd (omega arith);
    fresh = λ h. absurd (omega arith);
  },
  ground arith,
)
call-Follows m a (eject no_completion) f =
    (record { rearm = refl; permitted = λ h. absurd (omega arith); fresh = λ h. refl }, omega arith)
call-Follows m a (eject tray_ejected) f =
    (record { rearm = refl; permitted = λ h. refl; fresh = λ h. refl }, omega arith)
call-Follows m a (eject released_for_manual_eject) f =
    (record { rearm = refl; permitted = λ h. absurd (omega arith); fresh = λ h. refl }, omega arith)

attempts-left :
    (m : OpticalMonitor) (a : ℕ) (cs : List Call)
    → Follows m a
    → attempts m cs ≤ left m + 3 * renewals a cs
unfolding attempts renewals
attempts-left m a [] f = omega arith
attempts-left m a (c ∷ cs) f =
    let (f', step) = call-Follows m a c f in
    omega (arith, step, attempts-left (call m c).1 (absences_after a c) cs f')

-- However the calls on an initialised monitor are ordered, it starts at most three attempts,
-- the first and two after transient failures, and three more for each call that renews
-- them: a retry, a block, an ended session, a completed eject, or the tenth observation in a row
-- without a medium.
pub attempts_limited : (cs : List Call) → attempts monitor_initialize cs ≤ 3 + 3 * renewals 0 cs
unfolding monitor_initialize
attempts_limited cs =
    attempts-left monitor_initialize 0 cs
      (record { rearm = refl; permitted = λ h. refl; fresh = λ h. refl })
