-- ===== src/Nbd/Session.antt =====
-- The state of one client's session with the export (src/platform/nbd_protocol.c), and the calls
-- that its functions make on the connection and the export.
pub mod Negotiate
pub mod Transmit
pub mod Progress
pub mod Total
use gdox.Common.{
  ℕ, ◌+◌, ◌-◌, Bool, true, false, ◌&&◌, Option, none, some, List, [], length, leb, ◌==◌,
  if◌then◌else◌,
}
use gdox.Fault.{ErrorCode, transport, no_error}
use gdox.Disc.{Disc}
use gdox.Nbd.Socket.{Socket, SocketError, socket_read_exact, socket_write_all}
use gdox.Nbd.Telemetry.{Telemetry, ReadEvent, telemetry_record}
use gdox.Nbd.Wire.{option_reply_header, simple_reply}

-- What does not change in a session: the export's name and flags, and the answers of the system:
-- whether `malloc` of a number of bytes succeeds, what `realloc` returns, the values that the
-- clock shows one after the other, and whether the mutex can be locked and the socket set up.
pub record Server : Type 0 where
  pub export_name : List ℕ
  pub export_flags : ℕ
  pub malloc : ℕ → Bool
  pub realloc : List ℕ → ℕ → Option (List ℕ)
  pub clock : ℕ → ℕ
  pub can_lock : Bool
  pub can_configure : Bool
  pub can_clear_timeouts : Bool

-- What a session changes of `gdox_nbd_export` and its client; `runtime_error` is `none` while
-- `runtime_failed` is false.
pub record Session (C : Type 0) : Type 0 where
  pub socket : Socket
  pub disc : Disc C
  pub telemetry : Telemetry
  pub runtime_error : Option ErrorCode
  pub ticks : ℕ

-- A call in a session.
abbrev pub M : Type 0 → Type 0 → Type 0
M C A = Session C → A × Session C

abbrev pub pure : {C A : Type 0} → A → M C A
pure a s = (a, s)

infixl 5 ◌>>=◌ ◌>>◌
abbrev pub ◌>>=◌ : {C A B : Type 0} → M C A → (A → M C B) → M C B
◌>>=◌ m f s = let (a, s') = m s in f a s'

abbrev pub ◌>>◌ : {C B : Type 0} → M C (Unit {0}) → M C B → M C B
m >> k = m >>= λ _. k

-- `a && b` for a `b` that acts.
abbrev pub and_then : {C : Type 0} → Bool → M C Bool → M C Bool
and_then true m = m
and_then false m = pure false

module _ {C : Type 0} where
  unfoldable pub read_exact : ℕ → M C (Bool × List ℕ)
  read_exact n s =
      let (done, bytes, socket) = socket_read_exact n s.socket in
      ((done, bytes), record s { socket = socket })

  unfoldable pub write_all : List ℕ → M C Bool
  write_all bytes s =
      let (done, socket) = socket_write_all bytes s.socket in (done, record s { socket = socket })

  -- `gdox_nbd_socket_set_protocol_error` and the like
  unfoldable pub set_error : SocketError → M C (Unit {0})
  set_error error s = (tt, record s { socket = record (s.socket) { error = error } })

  -- `send_option_reply`
  unfoldable pub send_option_reply : ℕ → ℕ → List ℕ → M C Bool
  send_option_reply option reply payload = do
    sent ← write_all (option_reply_header option reply (length payload))
    and_then sent (if length payload == 0 then pure true else write_all payload)

  -- `send_simple_reply`
  unfoldable pub send_simple_reply : ℕ → ℕ → List ℕ → M C Bool
  send_simple_reply reply_error handle bytes = do
    sent ← write_all (simple_reply reply_error handle)
    and_then sent (if length bytes == 0 then pure true else write_all bytes)

module _ {C : Type 0} (server : Server) where
  -- `gdox_monotonic_ms`
  unfoldable pub monotonic_ms : M C ℕ
  monotonic_ms s = (server.clock s.ticks, record s { ticks = s.ticks + 1 })

  unfoldable pub record_read : ReadEvent → M C (Unit {0})
  record_read e s =
      (tt, if server.can_lock then record s { telemetry = telemetry_record s.telemetry e } else s)

  -- `gdox_nbd_export_record_runtime_error`: the first error stays.
  unfoldable pub record_runtime_error : M C (Unit {0})
  record_runtime_error s = (
    tt,
    if server.can_lock
        then elim s.runtime_error [
          | none ↦ record s { runtime_error = some transport }
          | some code ↦ s
        ]
        else s,
  )
