-- ===== src/Sock/WriteLoop.antt =====
-- The loop of `sock_write_data` in src/sock.c and the bytes it passes to the kernel.
use c_db_k8s.Prelude.{
  ℕ, zero, suc, ◌+◌, ◌≤◌, ◌≡◌, refl, sym, ap, ◌∙◌, ◌⊎◌, inl, inr, Bool, [], ◌∷◌, ◌++◌, append_assoc,
  append-nil, Bytes, arith, length, take-append-drop, drop-drop, length-drop, take, drop, Run, ok,
  Bool-cases,
}
use c_db_k8s.Sock.{
  Errno, would_block, interrupted, other_errno, Sys, done, failed, Os, Rc, sock_ok, sock_error,
  sock_closed, Sock,
}
use c_db_k8s.Sock.Fd.{io_error, total_or, write_loop, sock_write_data}

-- `sent w` are the bytes that the peer's side of the descriptor has been given: a call hands over
-- as many bytes as it says, from the start of what it is shown, and none where it fails.
pub record Writes {W : Type 0} (os : Os W) (sent : W → Bytes) : Type 0 where
  pub count : (w : W) (mem : Bytes) (n : ℕ) → (os.write w mem).0 ≡ done n → n ≤ length mem
  pub moves :
      (w : W) (mem : Bytes) (n : ℕ)
      → (os.write w mem).0 ≡ done n
      → sent (os.write w mem).1 ≡ sent w ++ take n mem
  pub fails :
      (w : W) (mem : Bytes) (e : Errno)
      → (os.write w mem).0 ≡ failed e
      → sent (os.write w mem).1 ≡ sent w

pub Count-cases :
    (s : Sys ℕ) → ((e : Errno) × (s ≡ failed e)) ⊎ ((s ≡ done 0) ⊎ ((n : ℕ) × (s ≡ done (suc n))))
Count-cases (failed e) = inl (e, refl)
Count-cases (done zero) = inr (inl refl)
Count-cases (done (suc n)) = inr (inr (n, refl))

-- what a call leaves as it was
pub record SameBufs (sock sock' : Sock) : Type 0 where
  pub send : sock'.send_buf ≡ sock.send_buf
  pub recv : sock'.recv_buf ≡ sock.recv_buf
  pub wait : sock'.wait_write ≡ sock.wait_write

pub io_error-SameBufs :
    (e : Errno) (timeout : Bool) (sock : Sock) → SameBufs sock (io_error e timeout sock).1
unfolding io_error
io_error-SameBufs would_block timeout sock = record { send = refl; recv = refl; wait = refl }
io_error-SameBufs interrupted timeout sock = record { send = refl; recv = refl; wait = refl }
io_error-SameBufs other_errno timeout sock = record { send = refl; recv = refl; wait = refl }

module _ {W : Type 0} (os : Os W) (sent : W → Bytes) (law : Writes os sent) where
  -- the loop has written the first `count` bytes
  record Wrote (w : W) (sock : Sock) (mem : Bytes) (twrite : ℕ) (run : Run (ℕ × Rc × Sock × W))
      : Type 0 where
    count : ℕ
    rc : Rc
    after : Sock
    world : W
    runs : run ≡ ok (twrite + count, rc, after, world)
    part : count ≤ length mem
    moved : sent world ++ drop count mem ≡ sent w ++ mem
    same : SameBufs sock after

  write_loop-Wrote :
      (rounds : ℕ) (w : W) (sock : Sock) (mem : Bytes) (twrite : ℕ)
      → length mem ≤ rounds
      → Wrote w sock mem twrite (write_loop os rounds w sock mem twrite)
  unfolding write_loop
  write_loop-Wrote rounds w sock [] twrite h = record {
    count = 0;
    rc = sock_ok;
    after = sock;
    world = w;
    runs = ap (λ n. ok (n, sock_ok, sock, w)) (omega arith);
    part = omega arith;
    moved = refl;
    same = record { send = refl; recv = refl; wait = refl };
  }
  write_loop-Wrote zero w sock (c ∷ mem) twrite h = absurd (omega arith)
  write_loop-Wrote (suc rounds) w sock (c ∷ mem) twrite h =
      let call = os.write w (c ∷ mem) in
      elim (Count-cases call.0) [
        | inl (e, fail) ↦ record {
          count = 0;
          rc = (io_error e sock.send_timeout sock).0;
          after = (io_error e sock.send_timeout sock).1;
          world = call.1;
          runs =
              rw (fail, write_loop)
                (ap
                  (λ n. ok (
                    n,
                    (io_error e sock.send_timeout sock).0,
                    (io_error e sock.send_timeout sock).1,
                    call.1,
                  ))
                  (omega arith));
          part = omega arith;
          moved = ap (λ s. s ++ (c ∷ mem)) (law.fails w (c ∷ mem) e fail);
          same = io_error-SameBufs e sock.send_timeout sock;
        }
        | inr (inl stop) ↦ record {
          count = 0;
          rc = sock_ok;
          after = sock;
          world = call.1;
          runs = rw (stop, write_loop) (ap (λ n. ok (n, sock_ok, sock, call.1)) (omega arith));
          part = omega arith;
          moved = ap (λ s. s ++ (c ∷ mem)) (law.moves w (c ∷ mem) 0 stop ∙ append-nil (sent w));
          same = record { send = refl; recv = refl; wait = refl };
        }
        | inr (inr (n, some_bytes)) ↦
            let le = law.count w (c ∷ mem) (suc n) some_bytes in
            let rest =
              write_loop-Wrote rounds call.1 sock (drop n mem) (twrite + suc n)
                (omega (arith, length-drop n mem)) in
            record {
              count = suc n + rest.count;
              rc = rest.rc;
              after = rest.after;
              world = rest.world;
              runs =
                  rw (some_bytes, write_loop)
                    (rest.runs ∙ ap (λ n. ok (n, rest.rc, rest.after, rest.world)) (omega arith));
              part = omega (arith, rest.part, length-drop n mem);
              moved =
                  ap (λ s. sent rest.world ++ s) (sym (drop-drop (suc n) rest.count (c ∷ mem)))
                  ∙ rest.moved
                  ∙ ap (λ s. s ++ drop n mem) (law.moves w (c ∷ mem) (suc n) some_bytes)
                  ∙ append_assoc (sent w) (take (suc n) (c ∷ mem)) (drop n mem)
                  ∙ ap (λ s. sent w ++ s) (take-append-drop (suc n) (c ∷ mem));
              same = rest.same;
            }
      ]

  -- `sock_write_data` gives the count with the code: `sock_data` where it is not 0
  pub record WroteData (w : W) (sock : Sock) (mem : Bytes) (run : Run (ℕ × Rc × Sock × W))
      : Type 0 where
    pub count : ℕ
    pub ec : Rc
    pub after : Sock
    pub world : W
    pub runs : run ≡ ok (count, total_or count ec, after, world)
    pub part : count ≤ length mem
    pub moved : sent world ++ drop count mem ≡ sent w ++ mem
    pub same : SameBufs sock after

  refused :
      (w : W) (sock : Sock) (mem : Bytes) (ec : Rc) {run : Run (ℕ × Rc × Sock × W)}
      → run ≡ ok (0, ec, sock, w)
      → WroteData w sock mem run
  unfolding total_or
  refused w sock mem ec e = record {
    count = 0;
    ec = ec;
    after = sock;
    world = w;
    runs = e;
    part = omega arith;
    moved = refl;
    same = record { send = refl; recv = refl; wait = refl };
  }

  pub sock_write_data-WroteData :
      (w : W) (sock : Sock) (mem : Bytes) → WroteData w sock mem (sock_write_data os w sock mem)
  unfolding sock_write_data
  sock_write_data-WroteData w sock mem = elim (Bool-cases sock.sys_err) [
    | inl bad ↦ refused w sock mem sock_error (simp bad)
    | inr good ↦ elim (Bool-cases sock.fin_sent) [
      | inl shut ↦ refused w sock mem sock_closed (simp (good, shut))
      | inr open_end ↦
          let r = write_loop-Wrote (length mem) w sock mem 0 (omega arith) in
          let zero_first : 0 + r.count ≡ r.count = omega arith in
          record {
            count = r.count;
            ec = r.rc;
            after = r.after;
            world = r.world;
            runs = simp (good, open_end, r.runs, zero_first);
            part = r.part;
            moved = r.moved;
            same = r.same;
          }
    ]
  ]
