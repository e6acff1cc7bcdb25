-- ===== src/Background/History.antt =====
-- src/app/background_lifecycle.c: sequences of calls, as the main loop makes them.
use gdox.Common.{ℕ, ◌+◌, ◌≤◌, Bool, true, false, ◌≡◌, refl, Option, some, List, [], ◌∷◌, arith}
use gdox.Background.{
  stopping, BackgroundAction, no_action, window_closed, open_requested, quit_requested,
  facility_available, facility_unavailable, BackgroundLifecycle, background_initialize,
  background_switch, background_act, background_apply, take_window_activation,
}

pub data Call : Type 0 where
  request : BackgroundAction → Call
  take : Call

abbrev pub one_if : Bool → ℕ
one_if true = 1
one_if false = 0

-- The number of calls that took an activation, and the lifecycle at the end. Each call is the one
-- of the program.
pub run : Option BackgroundLifecycle → List Call → ℕ × Option BackgroundLifecycle
run l [] = (0, l)
run l (request a ∷ calls) = run (background_apply l a) calls
run l (take ∷ calls) =
    let (pending, l') = take_window_activation l in
    let (taken, l'') = run l' calls in (one_if pending + taken, l'')

-- The calls that ask for the window.
abbrev pub opens : List Call → ℕ
opens [] = 0
opens (request open_requested ∷ calls) = 1 + opens calls
opens (request no_action ∷ calls) = opens calls
opens (request window_closed ∷ calls) = opens calls
opens (request quit_requested ∷ calls) = opens calls
opens (request facility_available ∷ calls) = opens calls
opens (request facility_unavailable ∷ calls) = opens calls
opens (take ∷ calls) = opens calls

act-opens :
    (l : BackgroundLifecycle) (a : BackgroundAction) (calls : List Call)
    → one_if (background_act l a).window_activation_pending + opens calls
      ≤ one_if l.window_activation_pending + opens (request a ∷ calls)
unfolding background_act background_switch
act-opens l a calls = ground arith

-- What taking an activation leaves of a lifecycle that is there
abbrev taken_from : BackgroundLifecycle → BackgroundLifecycle
taken_from l = record l { window_activation_pending = false }

take_lem :
    (l : BackgroundLifecycle)
    → take_window_activation (some l) ≡ (l.window_activation_pending, some (taken_from l))
unfolding take_window_activation
take_lem l = refl

taken-opens :
    (l : BackgroundLifecycle) (calls : List Call)
    → (run (some l) calls).0 ≤ one_if l.window_activation_pending + opens calls
unfolding run background_apply
taken-opens l [] = omega arith
taken-opens l (request a ∷ calls) =
    omega (arith, taken-opens (background_act l a) calls, act-opens l a calls)
taken-opens l (take ∷ calls) =
    rw (run, take_lem l) (omega (arith, taken-opens (taken_from l) calls))

stays :
    (l : BackgroundLifecycle) (a : BackgroundAction) → l.state ≡ stopping → background_act l a ≡ l
unfolding background_act
stays l a h = ground arith

-- A history that a stopping lifecycle has behind it: it is still there and stopping, its facility is as
-- it was, and no activation was taken but one that was pending.
pub record Stopped (l : BackgroundLifecycle) (result : ℕ × Option BackgroundLifecycle)
    : Type 0 where
  pub last : BackgroundLifecycle
  pub there : result.1 ≡ some last
  pub still : last.state ≡ stopping
  pub same : last.background_available ≡ l.background_available
  pub few : result.0 ≤ one_if l.window_activation_pending

run-Stopped :
    (l : BackgroundLifecycle) (calls : List Call)
    → l.state ≡ stopping
    → Stopped l (run (some l) calls)
unfolding run background_apply
run-Stopped l [] h = record { last = l; there = refl; still = h; same = refl; few = omega arith }
run-Stopped l (request a ∷ calls) h = rw (run, stays l a h) (run-Stopped l calls h)
run-Stopped l (take ∷ calls) h =
    let s = run-Stopped (taken_from l) calls h in
    rw (run, take_lem l)
      (record {
        last = s.last;
        there = s.there;
        still = s.still;
        same = s.same;
        few = omega (arith, s.few);
      })

-- However the calls are ordered, no more activations are taken than opens were requested since
-- the lifecycle was initialised; and from a lifecycle that is stopping on, it stays stopping with
-- the facility as it was, and at most the one pending activation is still taken.
pub activations_bounded :
    (start_hidden available : Bool) (calls : List Call)
    → ((run (some (background_initialize start_hidden available)) calls).0 ≤ opens calls)
      × ((l : BackgroundLifecycle) → l.state ≡ stopping → Stopped l (run (some l) calls))
unfolding background_initialize
activations_bounded start_hidden available calls = (
  omega (arith, taken-opens (background_initialize start_hidden available) calls),
  λ l h. run-Stopped l calls h,
)
