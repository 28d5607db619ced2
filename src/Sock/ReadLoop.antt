-- ===== src/Sock/ReadLoop.antt =====
-- The loop of `sock_read_data` in src/sock.c and the bytes it takes from the kernel.
use c_db_k8s.Prelude.{
  ℕ, zero, suc, ◌-◌, ◌≤◌, ◌≡◌, refl, sym, ap, ◌∙◌, ◌⊎◌, inl, inr, true, [], ◌∷◌, ◌++◌, append_assoc,
  append-nil, Bytes, arith, length, length-append, Run, ok, Bool-cases,
}
use c_db_k8s.Sock.{Errno, Sys, done, failed, Os, Rc, sock_ok, sock_error, sock_closed, Sock, is_udp}
use c_db_k8s.Sock.Fd.{io_error, total_or, read_loop, sock_read_data}
use c_db_k8s.Sock.WriteLoop.{SameBufs, io_error-SameBufs}

-- `taken w` are the bytes that the descriptor has handed out: a call hands out no more than it is
-- asked for, and none where it fails.
pub record Reads {W : Type 0} (os : Os W) (taken : W → Bytes) : Type 0 where
  pub count : (w : W) (n : ℕ) (mem : Bytes) → (os.read w n).0 ≡ done mem → length mem ≤ n
  pub moves :
      (w : W) (n : ℕ) (mem : Bytes)
      → (os.read w n).0 ≡ done mem
      → taken (os.read w n).1 ≡ taken w ++ mem
  pub fails :
      (w : W) (n : ℕ) (e : Errno) → (os.read w n).0 ≡ failed e → taken (os.read w n).1 ≡ taken w

Chunk-cases :
    (s : Sys Bytes)
    → ((e : Errno) × (s ≡ failed e))
      ⊎ ((s ≡ done []) ⊎ ((c : ℕ) × (mem : Bytes) × (s ≡ done (c ∷ mem))))
Chunk-cases (failed e) = inl (e, refl)
Chunk-cases (done []) = inr (inl refl)
Chunk-cases (done (c ∷ mem)) = inr (inr (c, mem, refl))

module _ {W : Type 0} (os : Os W) (taken : W → Bytes) (law : Reads os taken) where
  -- the bytes `new` have been read behind `mem`
  record Got (w : W) (sock : Sock) (len : ℕ) (mem : Bytes) (run : Run (Bytes × Rc × Sock × W))
      : Type 0 where
    new : Bytes
    rc : Rc
    after : Sock
    world : W
    runs : run ≡ ok (mem ++ new, rc, after, world)
    part : length new ≤ len
    moved : taken world ≡ taken w ++ new
    same : SameBufs sock after

  Got-none :
      (w : W) (sock : Sock) (len : ℕ) (mem : Bytes) (rc : Rc) (after : Sock) (world : W)
      (run : Run (Bytes × Rc × Sock × W))
      → run ≡ ok (mem, rc, after, world)
      → taken world ≡ taken w
      → SameBufs sock after
      → Got w sock len mem run
  Got-none w sock len mem rc after world run e moved same = record {
    new = [];
    rc = rc;
    after = after;
    world = world;
    runs = e ∙ ap (λ s. ok (s, rc, after, world)) (sym (append-nil mem));
    part = omega arith;
    moved = moved ∙ sym (append-nil (taken w));
    same = same;
  }

  read_loop-Got :
      (rounds : ℕ) (w : W) (sock : Sock) (len : ℕ) (mem : Bytes)
      → len ≤ rounds
      → Got w sock len mem (read_loop os rounds w sock len mem)
  unfolding read_loop
  read_loop-Got rounds w sock zero mem h =
      Got-none w sock 0 mem sock_ok sock w _ refl refl
        (record { send = refl; recv = refl; wait = refl })
  read_loop-Got zero w sock (suc len) mem h = absurd (omega arith)
  read_loop-Got (suc rounds) w sock (suc len) mem h =
      let call = os.read w (suc len) in
      elim (Chunk-cases call.0) [
        | inl (e, fail) ↦
            let r = io_error e sock.recv_timeout sock in
            Got-none w sock (suc len) mem r.0 r.1 call.1 _ (rw (fail, read_loop))
              (law.fails w (suc len) e fail) (io_error-SameBufs e sock.recv_timeout sock)
        | inr (inl end) ↦
            Got-none w sock (suc len) mem sock_closed (record sock { recv_fin = true }) call.1 _
              (rw (end, read_loop)) (law.moves w (suc len) [] end ∙ append-nil (taken w))
              (record { send = refl; recv = refl; wait = refl })
        | inr (inr (c, s, some_bytes)) ↦
            let le = law.count w (suc len) (c ∷ s) some_bytes in
            let here = law.moves w (suc len) (c ∷ s) some_bytes in
            let rest =
              read_loop-Got rounds call.1 sock (len - length s) (mem ++ (c ∷ s)) (omega arith) in
            elim (Bool-cases (is_udp sock)) [
              | inl one_shot ↦ record {
                new = c ∷ s;
                rc = sock_ok;
                after = sock;
                world = call.1;
                runs = simp (some_bytes, one_shot, read_loop);
                part = le;
                moved = here;
                same = record { send = refl; recv = refl; wait = refl };
              }
              | inr stream ↦ record {
                new = (c ∷ s) ++ rest.new;
                rc = rest.rc;
                after = rest.after;
                world = rest.world;
                runs =
                    simp (some_bytes, stream, read_loop)
                      (rest.runs
                        ∙ ap (λ t. ok (t, rest.rc, rest.after, rest.world))
                            (append_assoc mem (c ∷ s) rest.new));
                part = omega (arith, le, rest.part, length-append (c ∷ s) rest.new);
                moved =
                    rest.moved
                    ∙ ap (λ t. t ++ rest.new) here
                    ∙ append_assoc (taken w) (c ∷ s) rest.new;
                same = rest.same;
              }
            ]
      ]

  -- `sock_read_data`
  pub record GotData (w : W) (sock : Sock) (len : ℕ) (run : Run (Bytes × Rc × Sock × W))
      : Type 0 where
    pub new : Bytes
    pub ec : Rc
    pub after : Sock
    pub world : W
    pub runs : run ≡ ok (new, total_or (length new) ec, after, world)
    pub part : length new ≤ len
    pub moved : taken world ≡ taken w ++ new
    pub same : SameBufs sock after

  refused :
      (w : W) (sock : Sock) (len : ℕ) (ec : Rc) {run : Run (Bytes × Rc × Sock × W)}
      → run ≡ ok ([], ec, sock, w)
      → GotData w sock len run
  unfolding total_or
  refused w sock len ec e = record {
    new = [];
    ec = ec;
    after = sock;
    world = w;
    runs = e;
    part = omega arith;
    moved = sym (append-nil (taken w));
    same = record { send = refl; recv = refl; wait = refl };
  }

  pub sock_read_data-GotData :
      (w : W) (sock : Sock) (len : ℕ) → GotData w sock len (sock_read_data os w sock len)
  unfolding sock_read_data
  sock_read_data-GotData w sock len = elim (Bool-cases sock.sys_err) [
    | inl bad ↦ refused w sock len sock_error (simp bad)
    | inr good ↦ elim (Bool-cases sock.recv_fin) [
      | inl shut ↦ refused w sock len sock_closed (simp (good, shut))
      | inr open_end ↦
          let r = read_loop-Got len w sock len [] (omega arith) in
          record {
            new = r.new;
            ec = r.rc;
            after = r.after;
            world = r.world;
            runs = simp (good, open_end, r.runs);
            part = r.part;
            moved = r.moved;
            same = r.same;
          }
    ]
  ]
