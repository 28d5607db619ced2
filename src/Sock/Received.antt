-- ===== src/Sock/Received.antt =====
-- What src/sock.c receives, against the bytes that the descriptor has handed out.
use c_db_k8s.Prelude.{
  ◌^◌, ◌≤◌, ◌<◌, ◌≡◌, refl, sym, ◌∙◌, ◌⊎◌, inl, inr, true, false, not, ◌&&◌, [], ◌∷◌, ◌++◌,
  append-nil, Bytes, arith, ltb, ◌==◌, length, Run, ok, Bool-cases, subst,
}
use c_db_k8s.Rwbuf.{space, sub64, put, rwbuf_mkspace}
use c_db_k8s.Rwbuf.Valid.{IsValid, contents, space-eq}
use c_db_k8s.Rwbuf.Queue.{put-append, mkspace-fixed}
use c_db_k8s.Sock.{
  Os, Rc, sock_ok, sock_data, sock_error, sock_again, sock_closed, sock_timeout, Sock,
}
use c_db_k8s.Sock.Fd.{total_or}
use c_db_k8s.Sock.Buffer.{recv_space, sock_recv}
use c_db_k8s.Sock.WriteLoop.{SameBufs}
use c_db_k8s.Sock.ReadLoop.{Reads, sock_read_data-GotData}

module _ {W : Type 0} (os : Os W) (taken : W → Bytes) (law : Reads os taken) where
  -- what has been handed out has arrived behind the unread bytes
  pub record Receives (w : W) (sock : Sock) (run : Run (Rc × Sock × W)) : Type 0 where
    pub new : Bytes
    pub rc : Rc
    pub after : Sock
    pub world : W
    pub runs : run ≡ ok (rc, after, world)
    pub valid : IsValid after.recv_buf
    pub arrived : contents after.recv_buf ≡ contents sock.recv_buf ++ new
    pub moved : taken world ≡ taken w ++ new
    pub send : after.send_buf ≡ sock.send_buf

  abbrev finish : Bytes → Rc → Sock → W → Run (Rc × Sock × W)
  finish mem rc sock' w' = elim rc [
    | sock_data ↦ ok (sock_data, record sock' { recv_buf = put sock'.recv_buf mem }, w')
    | sock_ok ↦ ok (sock_ok, sock', w')
    | sock_error ↦ ok (sock_error, sock', w')
    | sock_again ↦ ok (sock_again, sock', w')
    | sock_closed ↦ ok (sock_closed, sock', w')
    | sock_timeout ↦ ok (sock_timeout, sock', w')
  ]

  module _ (w : W) (sock : Sock) (v : IsValid sock.recv_buf) where
    Receives-data :
        (new : Bytes) (after : Sock) (world : W) {run : Run (Rc × Sock × W)}
        → run ≡ ok (sock_data, record after { recv_buf = put after.recv_buf new }, world)
        → length new ≤ space sock.recv_buf
        → taken world ≡ taken w ++ new
        → SameBufs sock after
        → Receives w sock run
    Receives-data new after world e le moved same =
        let p = put-append sock.recv_buf new v (omega (arith, le, space-eq v, v.write_le)) in
        record {
          new = new;
          rc = sock_data;
          after = record after { recv_buf = put after.recv_buf new };
          world = world;
          runs = e;
          valid = rw same.recv p.0;
          arrived = rw same.recv p.1;
          moved = moved;
          send = same.send;
        }

    Receives-none :
        (rc : Rc) (after : Sock) (world : W) {run : Run (Rc × Sock × W)}
        → run ≡ ok (rc, after, world)
        → taken world ≡ taken w ++ []
        → SameBufs sock after
        → Receives w sock run
    Receives-none rc after world e moved same = record {
      new = [];
      rc = rc;
      after = after;
      world = world;
      runs = e;
      valid = rw same.recv v;
      arrived = rw same.recv (sym (append-nil (contents sock.recv_buf)));
      moved = moved;
      send = same.send;
    }

    finish-Receives :
        (new : Bytes) (ec : Rc) (after : Sock) (world : W)
        → length new ≤ space sock.recv_buf
        → taken world ≡ taken w ++ new
        → SameBufs sock after
        → Receives w sock (finish new (total_or (length new) ec) after world)
    unfolding total_or
    finish-Receives (c ∷ s) ec after world le moved same =
        Receives-data (c ∷ s) after world refl le moved same
    finish-Receives [] sock_data after world le moved same =
        Receives-data [] after world refl le moved same
    finish-Receives [] sock_ok after world le moved same =
        Receives-none sock_ok after world refl moved same
    finish-Receives [] sock_error after world le moved same =
        Receives-none sock_error after world refl moved same
    finish-Receives [] sock_again after world le moved same =
        Receives-none sock_again after world refl moved same
    finish-Receives [] sock_closed after world le moved same =
        Receives-none sock_closed after world refl moved same
    finish-Receives [] sock_timeout after world le moved same =
        Receives-none sock_timeout after world refl moved same

    recv_space-Receives : Receives w sock (recv_space os w sock)
    unfolding recv_space
    recv_space-Receives =
        let r = sock_read_data-GotData os taken law w sock (space sock.recv_buf) in
        let run : recv_space os w sock
            ≡ finish r.new (total_or (length r.new) r.ec) r.after r.world =
          simp r.runs in
        subst (Receives w sock) (sym run)
          (finish-Receives r.new r.ec r.after r.world r.part r.moved r.same)

    -- Over a kernel whose `read` hands out no more than it is asked for, where the receive buffer
    -- is valid and has the space that a read wants, `sock_recv` ends; what the descriptor has
    -- handed out has been appended to the unread bytes, the buffer stays valid, and the send
    -- buffer is as it was.
    pub sock_recv-Receives :
        (sock.min_size ≡ 0) ⊎ (sock.min_size ≤ space sock.recv_buf)
        → Receives w sock (sock_recv os w sock)
    unfolding sock_recv
    sock_recv-Receives room =
        let enough : (not (sock.min_size == 0) && ltb (space sock.recv_buf) sock.min_size) ≡ false =
          ground arith in
        let run : sock_recv os w sock ≡ recv_space os w sock = simp enough in
        subst (Receives w sock) (sym run) recv_space-Receives

module _ {W : Type 0} (os : Os W) (w : W) (sock : Sock) where
  -- A valid receive buffer that may not grow and has less than `min_size` bytes of space at its
  -- end makes `sock_recv` fail and note an error, whatever space moving the unread bytes to its
  -- start would give.
  pub sock_recv-fixed :
      IsValid sock.recv_buf
      → sock.recv_buf.is_grow ≡ false
      → space sock.recv_buf < sock.min_size
      → sock.min_size < 2 ^ 62
      → (after : Sock) × (sock_recv os w sock ≡ ok (sock_error, after, w)) × (after.sys_err ≡ true)
  unfolding sock_recv
  sock_recv-fixed v fixed short small =
      let free = space sock.recv_buf in
      let need = sub64 free sock.min_size in
      let r = rwbuf_mkspace os.realloc sock.recv_buf need in
      let test : (not (sock.min_size == 0) && ltb free sock.min_size) ≡ true = ground arith in
      elim (Bool-cases r.0) [
        | inl got ↦ absurd (
            ground (
              arith,
              sym (mkspace-fixed os.realloc sock.recv_buf need v fixed) ∙ got,
              v.small,
              space-eq v,
            ))
        | inr full ↦ (record sock { recv_buf = r.1; sys_err = true }, simp (test, full), refl)
      ]
