-- ===== src/Tests/Sockets.antt =====
-- The socket theorems over a kernel that delivers one byte per call, takes at most two, and takes
-- none from a client that has three already.
use mathlib.Core.List.{flatten}
use c_db_k8s.Prelude.{
  ℕ, zero, suc, ◌≡◌, ◌≤◌, refl, sym, ap, ◌∙◌, inl, inr, true, false, [], ◌∷◌, ◌++◌, append-nil,
  Bytes, leb, min, if◌then◌else◌, length, take, arith, ok, Bool-cases,
}
use c_db_k8s.Sock.{Errno, would_block, Sys, done, failed, Os, sock_error, Sock}
use c_db_k8s.Sock.Buffer.{sock_send, sock_recv}
use c_db_k8s.Sock.WriteLoop.{Writes}
use c_db_k8s.Sock.Sent.{Sends, sock_send-Sends}
use c_db_k8s.Sock.ReadLoop.{Reads}
use c_db_k8s.Sock.Received.{Receives, sock_recv-Receives, sock_recv-fixed}
use c_db_k8s.Tests.Buffers.{some_lines, some_lines-IsValid, grants}

pub record Wire : Type 0 where
  pub coming : Bytes
  pub taken : Bytes
  pub sent : Bytes

abbrev read_from : Bytes → Wire → ℕ → Sys Bytes × Wire
read_from [] w n = (failed would_block, w)
read_from (c ∷ rest) w zero = (done [], w)
read_from (c ∷ rest) w (suc n) =
    (done (c ∷ []), record w { coming = rest; taken = w.taken ++ (c ∷ []) })

abbrev wire_write : Wire → Bytes → Sys ℕ × Wire
wire_write w mem =
    let n = min 2 (length mem) in
    if leb 3 (length w.sent)
    then (failed would_block, w)
    else (done n, record w { sent = w.sent ++ take n mem })

abbrev pub wire_os : Os Wire
wire_os = record {
  read = λ w n. read_from w.coming w n;
  write = wire_write;
  writev = λ w iovs. wire_write w (flatten iovs);
  shutdown = λ w. (done tt, w);
  close = λ w. (done tt, w);
  realloc = grants;
}

abbrev pub wire_sent : Wire → Bytes
wire_sent w = w.sent

abbrev pub wire_taken : Wire → Bytes
wire_taken w = w.taken

done-inj : {A : Type 0} {a b : A} → done a ≡ done b → a ≡ b
done-inj e = cc

not_failed : {A : Type 0} {a : A} {e : Errno} → failed e ≡ done a → ⊥
not_failed e = cc

pub wire-Writes : Writes wire_os wire_sent
wire-Writes = record {
  count = λ w mem n e. elim (Bool-cases (leb 3 (length w.sent))) [
    | inl full ↦ absurd (cc)
    | inr room ↦ omega (arith, done-inj (rw room at e))
  ];
  moves = λ w mem n e. elim (Bool-cases (leb 3 (length w.sent))) [
    | inl full ↦ absurd (cc)
    | inr room ↦ rw room (ap (λ k. w.sent ++ take k mem) (done-inj (rw room at e)))
  ];
  fails = λ w mem e h. elim (Bool-cases (leb 3 (length w.sent))) [
    | inl full ↦ rw full refl
    | inr room ↦ absurd (cc)
  ];
}

read_count :
    (cs : Bytes) (w : Wire) (n : ℕ) (mem : Bytes) → (read_from cs w n).0 ≡ done mem → length mem ≤ n
read_count [] w n mem e = absurd (not_failed e)
read_count (c ∷ rest) w zero mem e = omega (arith, ap length (done-inj e))
read_count (c ∷ rest) w (suc n) mem e = omega (arith, ap length (done-inj e))

read_moves :
    (cs : Bytes) (w : Wire) (n : ℕ) (mem : Bytes)
    → (read_from cs w n).0 ≡ done mem
    → (read_from cs w n).1.taken ≡ w.taken ++ mem
read_moves [] w n mem e = absurd (not_failed e)
read_moves (c ∷ rest) w zero mem e = sym (append-nil w.taken) ∙ ap (λ m. w.taken ++ m) (done-inj e)
read_moves (c ∷ rest) w (suc n) mem e = ap (λ m. w.taken ++ m) (done-inj e)

read_fails :
    (cs : Bytes) (w : Wire) (n : ℕ) (e : Errno)
    → (read_from cs w n).0 ≡ failed e
    → (read_from cs w n).1.taken ≡ w.taken
read_fails [] w n e h = refl
read_fails (c ∷ rest) w zero e h = refl
read_fails (c ∷ rest) w (suc n) e h = absurd (not_failed (sym h))

wire-Reads : Reads wire_os wire_taken
wire-Reads = record {
  count = λ w n mem e. read_count w.coming w n mem e;
  moves = λ w n mem e. read_moves w.coming w n mem e;
  fails = λ w n e h. read_fails w.coming w n e h;
}

abbrev pub some_sock : Sock
some_sock = record {
  fd = true;
  mode = 4;
  send_buf = some_lines;
  recv_buf = some_lines;
  max_line = 256;
  min_size = 4;
  is_server = false;
  is_epoll = true;
  send_timeout = false;
  recv_timeout = false;
  recv_fin = false;
  send_fin = false;
  fin_sent = false;
  close_now = false;
  wait_write = false;
  sys_err = false;
}

abbrev pub some_wire : Wire
some_wire = record { coming = 120 ∷ 121 ∷ []; taken = []; sent = 62 ∷ [] }

sock_send-Sends_example :
    Sends wire_os wire_sent wire-Writes some_wire some_sock (sock_send wire_os some_wire some_sock)
sock_send-Sends_example =
    sock_send-Sends wire_os wire_sent wire-Writes some_wire some_sock some_lines-IsValid

sock_recv-Receives_example :
    Receives wire_os wire_taken wire-Reads some_wire some_sock
      (sock_recv wire_os some_wire some_sock)
sock_recv-Receives_example =
    sock_recv-Receives wire_os wire_taken wire-Reads some_wire some_sock some_lines-IsValid
      (inr (omega arith))

-- 4 bytes are free at the end, 5 after a move
abbrev wants_five : Sock
wants_five = record some_sock { min_size = 5 }

sock_recv-fixed_example :
    (after : Sock) × (sock_recv wire_os some_wire wants_five ≡ ok (sock_error, after, some_wire))
    × (after.sys_err ≡ true)
sock_recv-fixed_example =
    sock_recv-fixed wire_os some_wire wants_five some_lines-IsValid refl (omega arith) (omega arith)
