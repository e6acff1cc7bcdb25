-- ===== src/Disc/Lifecycle.antt =====
-- Closing a disc (src/core/disc.c).
use gdox.Common.{◌≡◌, refl, true, arith}
use gdox.Fault.{ErrorCode, invalid_argument, ok, failed}
use gdox.Disc.{Disc}
use gdox.Disc.Dispatch.{closed_disc, opened_disc, disc_is_valid, disc_prepare_close, disc_close}

module _ {C : Type 0} where
  -- Preparing keeps an open disc open, whatever the result.
  pub disc_prepare_close-valid :
      (d : Disc C) → disc_is_valid d ≡ true → disc_is_valid (disc_prepare_close d).1 ≡ true
  unfolding disc_is_valid disc_prepare_close opened_disc
  disc_prepare_close-valid d h = ground arith

  close-unprepared :
      (d : Disc C) (code : ErrorCode)
      → disc_is_valid d ≡ true
      → (disc_prepare_close d).0 ≡ failed code
      → disc_close d ≡ (failed code, (disc_prepare_close d).1)
  unfolding disc_close disc_is_valid
  close-unprepared d code h e = ground arith

  close-prepared :
      (d : Disc C)
      → disc_is_valid d ≡ true
      → (disc_prepare_close d).0 ≡ ok
      → (disc_close d).1 ≡ closed_disc
  unfolding disc_close disc_is_valid
  close-prepared d h e = ground (arith, disc_prepare_close-valid d)

  close-closed : disc_close {C = C} closed_disc ≡ (failed invalid_argument, closed_disc)
  unfolding disc_close opened_disc
  close-closed = refl

  -- Closing an open disc: if its preparation fails, the call fails with that code and leaves the
  -- prepared disc, which is open and can be closed again; if it succeeds, the disc is empty
  -- afterwards, whatever `close` itself returned, and a second close is refused.
  pub disc_close_lem :
      (d : Disc C)
      → disc_is_valid d ≡ true
      → ((code : ErrorCode)
          → (disc_prepare_close d).0 ≡ failed code
          → (disc_close d ≡ (failed code, (disc_prepare_close d).1))
            × (disc_is_valid (disc_close d).1 ≡ true))
        × ((disc_prepare_close d).0 ≡ ok
            → ((disc_close d).1 ≡ closed_disc)
              × (disc_close (disc_close d).1 ≡ (failed invalid_argument, closed_disc)))
  disc_close_lem d h = (
    λ code e.
        let stopped = close-unprepared d code h e in
        (stopped, rw stopped (disc_prepare_close-valid d h)),
    λ e. let emptied = close-prepared d h e in (emptied, rw emptied close-closed),
  )
