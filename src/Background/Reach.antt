-- ===== src/Background/Reach.antt =====
-- src/app/background_lifecycle.c: what holds of every lifecycle that the calls reach.
use gdox.Common.{Bool, true, ◌≡◌, some}
use gdox.Background.{
  hidden, BackgroundAction, BackgroundLifecycle, background_initialize, background_apply,
  take_window_activation,
}

-- One call on a lifecycle, by whichever part of the program makes it.
pub data Step : BackgroundLifecycle → BackgroundLifecycle → Type 0 where
  act :
      {l l' : BackgroundLifecycle} (request : BackgroundAction)
      → background_apply (some l) request ≡ some l'
      → Step l l'
  take :
      {l l' : BackgroundLifecycle} (pending : Bool)
      → take_window_activation (some l) ≡ (pending, some l')
      → Step l l'

-- The lifecycles that calls reach from an initialised one.
pub data Reachable : BackgroundLifecycle → Type 0 where
  start : (start_hidden available : Bool) → Reachable (background_initialize start_hidden available)
  next : {l l' : BackgroundLifecycle} → Reachable l → Step l l' → Reachable l'

-- Whoever hides the window can bring it back.
abbrev pub CanReturn : BackgroundLifecycle → Type 0
CanReturn l = l.state ≡ hidden → l.background_available ≡ true
