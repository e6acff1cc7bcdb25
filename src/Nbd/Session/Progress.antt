-- ===== src/Nbd/Session/Progress.antt =====
-- What the calls of a session take off the bytes that the client sends.
use gdox.Common.{
  ℕ, zero, suc, ◌∷◌, ◌≤◌, ◌≡◌, refl, ap, ◌∙◌, sym, true, List, [], ◌++◌, append_assoc, append-nil,
  inl, inr, length, length-append, take, drop, leb, Bool-cases, leb→le, length-take, arith,
}
use gdox.Nbd.Socket.{socket_read_exact, socket_write_all}
use gdox.Nbd.Wire.{Request}
use gdox.Nbd.Session.Transmit.{
  transmit_read, perform_read, refuse_read, reply_to_read, report_read_failure, export_length,
  physical_stats, read_disc_request,
}
use gdox.Nbd.Session.{
  Server, Session, read_exact, write_all, send_option_reply, send_simple_reply, monotonic_ms,
  record_read, record_runtime_error,
}

-- From one state to the next, the server has taken some bytes of the client.
pub record Takes {C : Type 0} (s s' : Session C) : Type 0 where
  pub taken : List ℕ
  pub rest : s.socket.incoming ≡ taken ++ s'.socket.incoming

pub none_taken :
    {C : Type 0} (s s' : Session C) → s'.socket.incoming ≡ s.socket.incoming → Takes s s'
none_taken s s' e = record { taken = []; rest = sym e }

pub Takes-trans : {C : Type 0} {s t u : Session C} → Takes s t → Takes t u → Takes s u
Takes-trans {C} {s} {t} {u} p q = record {
  taken = p.taken ++ q.taken;
  rest =
      p.rest ∙ ap (λ x. p.taken ++ x) q.rest ∙ sym (append_assoc p.taken q.taken u.socket.incoming);
}

pub Takes-shorter :
    {C : Type 0} {s t : Session C} → Takes s t → length t.socket.incoming ≤ length s.socket.incoming
Takes-shorter {C} {s} {t} p =
    omega (arith, ap length p.rest, length-append p.taken t.socket.incoming)

take-drop : (n : ℕ) (xs : List ℕ) → xs ≡ take n xs ++ drop n xs
take-drop zero xs = refl
take-drop (suc n) [] = refl
take-drop (suc n) (x ∷ xs) = ap (λ t. x ∷ t) (take-drop n xs)

pub read_exact-Takes : {C : Type 0} (n : ℕ) (s : Session C) → Takes s (read_exact n s).1
unfolding read_exact socket_read_exact
read_exact-Takes n s = elim (Bool-cases (leb n (length s.socket.incoming))) [
  | inl enough ↦ record {
    taken = take n s.socket.incoming;
    rest = rw enough (take-drop n s.socket.incoming);
  }
  | inr short ↦ record {
    taken = s.socket.incoming;
    rest = rw short (sym (append-nil s.socket.incoming));
  }
]

-- A read that succeeds has taken what it returns.
pub read_exact-takes_all :
    {C : Type 0} (n : ℕ) (s : Session C)
    → (read_exact n s).0.0 ≡ true
    → (length (read_exact n s).0.1 ≡ n)
      × (s.socket.incoming ≡ (read_exact n s).0.1 ++ (read_exact n s).1.socket.incoming)
unfolding read_exact socket_read_exact
read_exact-takes_all n s = elim (Bool-cases (leb n (length s.socket.incoming))) [
  | inl enough ↦ rw enough (λ h. (
    omega (arith, length-take n s.socket.incoming, leb→le _ _ enough),
    take-drop n s.socket.incoming,
  ))
  | inr short ↦ rw short (λ h. ground arith)
]

-- Neither a write nor a reply takes anything.
pub write_all-keeps :
    {C : Type 0} (bytes : List ℕ) (s : Session C)
    → (write_all bytes s).1.socket.incoming ≡ s.socket.incoming
unfolding write_all socket_write_all
write_all-keeps bytes s = ground arith

pub send_option_reply-keeps :
    {C : Type 0} (option reply : ℕ) (payload : List ℕ) (s : Session C)
    → (send_option_reply option reply payload s).1.socket.incoming ≡ s.socket.incoming
unfolding send_option_reply write_all socket_write_all
send_option_reply-keeps option reply payload s = ground arith

pub send_simple_reply-keeps :
    {C : Type 0} (e handle : ℕ) (bytes : List ℕ) (s : Session C)
    → (send_simple_reply e handle bytes s).1.socket.incoming ≡ s.socket.incoming
unfolding send_simple_reply write_all socket_write_all
send_simple_reply-keeps e handle bytes s = ground arith

module _ {C : Type 0} (server : Server) where
  pub transmit_read-keeps :
      (request : Request) (buffer : List ℕ) (s : Session C)
      → (transmit_read server request buffer s).1.socket.incoming ≡ s.socket.incoming
  unfolding transmit_read perform_read refuse_read reply_to_read report_read_failure export_length
      monotonic_ms record_read record_runtime_error physical_stats read_disc_request
      send_simple_reply write_all socket_write_all
  transmit_read-keeps request buffer s = ground arith
