-- ===== src/Nbd/Socket.antt =====
-- The connection as the protocol sees it: what src/platform/nbd_socket.c promises of its reads and
-- writes, over the bytes that the peer sends and those that it still takes. Its loops over `recv`
-- and `send` are in `Receive` and `Send`.
pub mod Receive
pub mod Send
use gdox.Common.{ℕ, ◌-◌, Bool, true, false, List, [], ◌++◌, length, take, drop, leb, if◌then◌else◌}

-- The error codes that the protocol sets or asks for; `other` is any other code of the system.
pub data SocketError : Type 0 where
  no_socket_error protocol_error permission_error no_memory connection_aborted : SocketError
  connection_reset other : SocketError

-- `incoming` is all that the peer will send, and `ending` the error of a read past it; `room` is
-- how many bytes the peer takes before writes fail, with the
-- error `refusal`.
pub record Socket : Type 0 where
  pub incoming : List ℕ
  pub ending : SocketError
  pub outgoing : List ℕ
  pub room : ℕ
  pub refusal : SocketError
  pub error : SocketError

-- `gdox_nbd_socket_read_exact`: the bytes, or nothing if there are not as many.
unfoldable pub socket_read_exact : ℕ → Socket → Bool × List ℕ × Socket
socket_read_exact n s =
    if leb n (length s.incoming)
    then (true, take n s.incoming, record s { incoming = drop n s.incoming })
    else (false, [], record s { incoming = []; error = s.ending })

-- `gdox_nbd_socket_write_all`: a write that fails may have sent the first of its bytes.
unfoldable pub socket_write_all : List ℕ → Socket → Bool × Socket
socket_write_all bytes s =
    if leb (length bytes) s.room
    then (true, record s { outgoing = s.outgoing ++ bytes; room = s.room - length bytes })
    else (
      false,
      record s { outgoing = s.outgoing ++ take s.room bytes; room = 0; error = s.refusal },
    )
