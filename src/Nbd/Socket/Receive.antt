-- ===== src/Nbd/Socket/Receive.antt =====
-- src/platform/nbd_socket.c: the loop over `recv`, and what is known of a system's `recv`.
pub mod Refine
use gdox.Common.{
  ℕ, zero, suc, ◌+◌, ◌-◌, ◌≤◌, ◌<◌, ◌≡◌, refl, sym, ap, ◌∙◌, ◌⊎◌, inl, inr, Bool, true, false,
  Option, none, some, List, [], ◌∷◌, ◌++◌, append-nil, append_assoc, length, length-append, take,
  drop, ltb, leb, Bool-cases, if◌then◌else◌, arith,
}
use gdox.Nbd.Socket.{Socket, SocketError, other, connection_reset, socket_read_exact}

-- INT_MAX
abbrev pub int_max : ℕ
int_max = 2_147_483_647

-- What a call of `receive_bytes` returns: bytes, 0, or -1 with EINTR or another error code.
pub data Received : Type 0 where
  bytes : List ℕ → Received
  ended interrupted : Received
  broken : SocketError → Received

-- What the loop leaves: its result, the bytes in its buffer, the system, and the error code.
pub record ReadExact (K : Type 0) : Type 0 where
  pub done : Bool
  pub output : List ℕ
  pub system : K
  pub error : SocketError

module _ {K : Type 0} (recv : K → ℕ → Received × K) where
  -- The `while` of `gdox_nbd_socket_read_exact`, whose `completed` is the length of `output`; `none`
  -- means that the fuel ran out. The code of EINTR is `other`.
  pub read_exact_loop : ℕ → ℕ → K → List ℕ → SocketError → Option (ReadExact K)
  read_exact_loop zero n k output error = none
  read_exact_loop (suc fuel) n k output error =
      let remaining = n - length output in
      let requested = if ltb int_max remaining then int_max else remaining in
      let (received, k') = recv k requested in
      elim (ltb (length output) n) [
        | false ↦ some (record { done = true; output = output; system = k; error = error })
        | true ↦ elim received [
          | bytes bs ↦ read_exact_loop fuel n k' (output ++ bs) error
          | ended ↦
              some (record { done = false; output = output; system = k'; error = connection_reset })
          | interrupted ↦ read_exact_loop fuel n k' output other
          | broken code ↦ some (record { done = false; output = output; system = k'; error = code })
        ]
      ]

-- What a system's `recv` is known to do: it delivers a stream of bytes in pieces, between which it
-- may be interrupted, and fails only behind the stream; no more interruptions come than `patience`.
pub record Receives {K : Type 0} (recv : K → ℕ → Received × K) : Type 0 where
  pub stream : K → List ℕ
  pub ending : K → SocketError
  pub patience : K → ℕ
  pub same_ending : (k : K) (n : ℕ) → 0 < n → ending (recv k n).1 ≡ ending k
  pub on_bytes :
      (k : K) (n : ℕ) (bs : List ℕ)
      → 0 < n
      → (recv k n).0 ≡ bytes bs
      → (0 < length bs)
        × (length bs ≤ n)
        × (stream k ≡ bs ++ stream (recv k n).1)
        × (patience (recv k n).1 ≤ patience k)
  pub on_end :
      (k : K) (n : ℕ)
      → 0 < n
      → (recv k n).0 ≡ ended
      → (stream k ≡ []) × (ending k ≡ connection_reset)
  pub on_interrupt :
      (k : K) (n : ℕ)
      → 0 < n
      → (recv k n).0 ≡ interrupted
      → (stream (recv k n).1 ≡ stream k) × (patience (recv k n).1 < patience k)
  pub on_break :
      (k : K) (n : ℕ) (code : SocketError)
      → 0 < n
      → (recv k n).0 ≡ broken code
      → (stream k ≡ []) × (ending k ≡ code)
