-- ===== src/Nbd/Socket/Send.antt =====
-- src/platform/nbd_socket.c: the loop over `send`, and what is known of a system's `send`.
pub mod Refine
use gdox.Common.{
  take-length, ℕ, zero, suc, ◌+◌, ◌-◌, ◌≤◌, ◌<◌, ◌≡◌, refl, sym, ap, ◌∙◌, ◌⊎◌, inl, inr, Bool, true,
  false, Option, none, some, List, [], ◌∷◌, ◌++◌, append-nil, append_assoc, length, length-take,
  length-drop, take, drop, min, ltb, leb, ◌==◌, Bool-cases, if◌then◌else◌, arith,
}
use gdox.Nbd.Socket.{Socket, SocketError, other, connection_reset, socket_write_all}
use gdox.Nbd.Socket.Receive.{int_max}

-- What a call of `send_bytes` returns: a number, 0, or -1 with EINTR or another error code.
pub data SendResult : Type 0 where
  wrote : ℕ → SendResult
  closed postponed : SendResult
  failing : SocketError → SendResult

-- What the loop leaves: its result, the system, and the error code.
pub record WriteAll (K : Type 0) : Type 0 where
  pub done : Bool
  pub system : K
  pub error : SocketError

module _ {K : Type 0} (send : K → List ℕ → SendResult × K) where
  -- The `while` of `gdox_nbd_socket_write_all`, whose `rest` is the input from `completed` on; `none`
  -- means that the fuel ran out. The code of EINTR is `other`.
  pub write_all_loop : ℕ → K → List ℕ → SocketError → Option (WriteAll K)
  write_all_loop zero k rest error = none
  write_all_loop (suc fuel) k rest error =
      let remaining = length rest in
      let requested = if ltb int_max remaining then int_max else remaining in
      let (result, k') = send k (take requested rest) in
      elim (remaining == 0) [
        | true ↦ some (record { done = true; system = k; error = error })
        | false ↦ elim result [
          | wrote sent ↦ write_all_loop fuel k' (drop sent rest) error
          | closed ↦ some (record { done = false; system = k'; error = connection_reset })
          | postponed ↦ write_all_loop fuel k' rest other
          | failing code ↦ some (record { done = false; system = k'; error = code })
        ]
      ]

-- What a system's `send` is known to do: it takes bytes in their order, some of those offered at a
-- time, up to its `room`, may be interrupted between, and fails only without room; no more
-- interruptions come than `patience`.
pub record Sends {K : Type 0} (send : K → List ℕ → SendResult × K) : Type 0 where
  pub taken : K → List ℕ
  pub room : K → ℕ
  pub refusal : K → SocketError
  pub patience : K → ℕ
  pub same_refusal : (k : K) (bs : List ℕ) → 0 < length bs → refusal (send k bs).1 ≡ refusal k
  pub on_wrote :
      (k : K) (bs : List ℕ) (sent : ℕ)
      → 0 < length bs
      → (send k bs).0 ≡ wrote sent
      → (0 < sent)
        × (sent ≤ length bs)
        × (room k ≡ room (send k bs).1 + sent)
        × (taken (send k bs).1 ≡ taken k ++ take sent bs)
        × (patience (send k bs).1 ≤ patience k)
  pub on_postpone :
      (k : K) (bs : List ℕ)
      → 0 < length bs
      → (send k bs).0 ≡ postponed
      → (room (send k bs).1 ≡ room k)
        × (taken (send k bs).1 ≡ taken k)
        × (patience (send k bs).1 < patience k)
  pub on_close :
      (k : K) (bs : List ℕ)
      → 0 < length bs
      → (send k bs).0 ≡ closed
      → (room k ≡ 0)
        × (room (send k bs).1 ≡ 0)
        × (taken (send k bs).1 ≡ taken k)
        × (refusal k ≡ connection_reset)
  pub on_failure :
      (k : K) (bs : List ℕ) (code : SocketError)
      → 0 < length bs
      → (send k bs).0 ≡ failing code
      → (room k ≡ 0)
        × (room (send k bs).1 ≡ 0)
        × (taken (send k bs).1 ≡ taken k)
        × (refusal k ≡ code)
