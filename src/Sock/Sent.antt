-- ===== src/Sock/Sent.antt =====
-- What src/sock.c sends, against the bytes that the descriptor has been given.
use c_db_k8s.Prelude.{
  ℕ, zero, suc, ◌≤◌, ◌≡◌, refl, sym, ap, ◌∙◌, ◌++◌, Bytes, arith, length, drop, Run, ok, subst,
}
use c_db_k8s.Rwbuf.{consume}
use c_db_k8s.Rwbuf.Valid.{IsValid, contents, unread-contents, length-contents, consume-drop}
use c_db_k8s.Sock.{
  Os, Rc, sock_ok, sock_data, sock_error, sock_again, sock_closed, sock_timeout, Sock,
}
use c_db_k8s.Sock.Fd.{total_or}
use c_db_k8s.Sock.Buffer.{sock_send}
use c_db_k8s.Sock.WriteLoop.{Writes, SameBufs, sock_write_data-WroteData}

module _ {W : Type 0} (os : Os W) (sent : W → Bytes) (law : Writes os sent) where
  -- what the peer has been given and the send buffer make up, together, what they did before
  pub record Sends (w : W) (sock : Sock) (run : Run (Rc × Sock × W)) : Type 0 where
    pub rc : Rc
    pub after : Sock
    pub world : W
    pub runs : run ≡ ok (rc, after, world)
    pub valid : IsValid after.send_buf
    pub stream : sent world ++ contents after.send_buf ≡ sent w ++ contents sock.send_buf
    pub recv : after.recv_buf ≡ sock.recv_buf
    pub wait : after.wait_write ≡ sock.wait_write

  Sends-data :
      (w : W) (sock : Sock) (run : Run (Rc × Sock × W)) (count : ℕ) (after : Sock) (world : W)
      → IsValid sock.send_buf
      → run ≡ ok (sock_data, record after { send_buf = consume after.send_buf count }, world)
      → count ≤ length (contents sock.send_buf)
      → sent world ++ drop count (contents sock.send_buf) ≡ sent w ++ contents sock.send_buf
      → SameBufs sock after
      → Sends w sock run
  Sends-data w sock run count after world v e le moved same =
      let c = consume-drop sock.send_buf count v (omega (arith, le, length-contents v)) in
      record {
        rc = sock_data;
        after = record after { send_buf = consume after.send_buf count };
        world = world;
        runs = e;
        valid = rw same.send c.0;
        stream = rw same.send (ap (λ s. sent world ++ s) c.1 ∙ moved);
        recv = same.recv;
        wait = same.wait;
      }

  Sends-none :
      (w : W) (sock : Sock) (run : Run (Rc × Sock × W)) (rc : Rc) (after : Sock) (world : W)
      → IsValid sock.send_buf
      → run ≡ ok (rc, after, world)
      → sent world ++ contents sock.send_buf ≡ sent w ++ contents sock.send_buf
      → SameBufs sock after
      → Sends w sock run
  Sends-none w sock run rc after world v e moved same = record {
    rc = rc;
    after = after;
    world = world;
    runs = e;
    valid = rw same.send v;
    stream = rw same.send moved;
    recv = same.recv;
    wait = same.wait;
  }

  abbrev finish : (count : ℕ) → Rc → Sock → W → Run (Rc × Sock × W)
  finish nwrite rc sock' w' = elim rc [
    | sock_data ↦ ok (sock_data, record sock' { send_buf = consume sock'.send_buf nwrite }, w')
    | sock_ok ↦ ok (sock_ok, sock', w')
    | sock_error ↦ ok (sock_error, sock', w')
    | sock_again ↦ ok (sock_again, sock', w')
    | sock_closed ↦ ok (sock_closed, sock', w')
    | sock_timeout ↦ ok (sock_timeout, sock', w')
  ]

  finish-Sends :
      (w : W) (sock : Sock) (count : ℕ) (ec : Rc) (after : Sock) (world : W)
      → IsValid sock.send_buf
      → count ≤ length (contents sock.send_buf)
      → sent world ++ drop count (contents sock.send_buf) ≡ sent w ++ contents sock.send_buf
      → SameBufs sock after
      → Sends w sock (finish count (total_or count ec) after world)
  unfolding total_or
  finish-Sends w sock (suc n) ec after world v le moved same =
      Sends-data w sock _ (suc n) after world v refl le moved same
  finish-Sends w sock zero sock_data after world v le moved same =
      Sends-data w sock _ 0 after world v refl le moved same
  finish-Sends w sock zero sock_ok after world v le moved same =
      Sends-none w sock _ sock_ok after world v refl moved same
  finish-Sends w sock zero sock_error after world v le moved same =
      Sends-none w sock _ sock_error after world v refl moved same
  finish-Sends w sock zero sock_again after world v le moved same =
      Sends-none w sock _ sock_again after world v refl moved same
  finish-Sends w sock zero sock_closed after world v le moved same =
      Sends-none w sock _ sock_closed after world v refl moved same
  finish-Sends w sock zero sock_timeout after world v le moved same =
      Sends-none w sock _ sock_timeout after world v refl moved same

  -- Over a kernel whose `write` hands over as many bytes as it says, from the start of what it is
  -- shown, `sock_send` on a valid send buffer ends, and the bytes that the peer has been given
  -- followed by those still in the buffer are what they were before: nothing is lost, sent twice
  -- or reordered. The buffer stays valid and the receive buffer and `wait_write` as they were.
  pub sock_send-Sends :
      (w : W) (sock : Sock) → IsValid sock.send_buf → Sends w sock (sock_send os w sock)
  unfolding sock_send
  sock_send-Sends w sock v =
      let r = sock_write_data-WroteData os sent law w sock (contents sock.send_buf) in
      let run : sock_send os w sock ≡ finish r.count (total_or r.count r.ec) r.after r.world =
        rw (unread-contents v, r.runs) in
      subst (Sends w sock) (sym run)
        (finish-Sends w sock r.count r.ec r.after r.world v r.part r.moved r.same)
