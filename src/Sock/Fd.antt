-- ===== src/Sock/Fd.antt =====
-- src/sock.c: reading from and writing to the descriptor. A loop has as many rounds as it has bytes
-- to move: a round that goes on has moved one or more.
use c_db_k8s.Prelude.{
  ℕ, zero, suc, ◌+◌, ◌-◌, Bool, true, List, [], ◌∷◌, ◌++◌, Bytes, leb, if◌then◌else◌, length, drop,
  replicate, Run, ok, stuck, ◌>>=◌,
}
use c_db_k8s.Rwbuf.{iovs_len}
use c_db_k8s.Sock.{
  Errno, would_block, interrupted, other_errno, done, failed, Os, Rc, sock_ok, sock_data,
  sock_error, sock_again, sock_closed, sock_timeout, Sock, is_udp,
}

-- the code after a failed call; `timeout` is whether the call has a time limit
unfoldable pub io_error : Errno → Bool → Sock → Rc × Sock
io_error would_block timeout sock = (if timeout then sock_timeout else sock_again, sock)
io_error interrupted timeout sock = (sock_error, sock)
io_error other_errno timeout sock = (sock_error, record sock { sys_err = true })

-- `rc == SOCK_DATA ? total : ec`
unfoldable pub total_or : ℕ → Rc → Rc
total_or zero ec = ec
total_or (suc n) ec = sock_data

module _ {W : Type 0} (os : Os W) where
  -- `while (len)` of `sock_read_data`; `data` are the bytes read so far
  unfoldable pub read_loop : ℕ → W → Sock → (len : ℕ) → (mem : Bytes) → Run (Bytes × Rc × Sock × W)
  unfolding io_error
  read_loop rounds w sock zero mem = ok (mem, sock_ok, sock, w)
  read_loop zero w sock (suc len) mem = stuck
  read_loop (suc rounds) w sock (suc len) mem =
      let call = os.read w (suc len) in
      elim call.0 [
        | failed e ↦ let r = io_error e sock.recv_timeout sock in ok (mem, r.0, r.1, call.1)
        | done [] ↦ ok (mem, sock_closed, record sock { recv_fin = true }, call.1)
        | done (c ∷ s) ↦
            let rest = read_loop rounds call.1 sock (len - length s) (mem ++ (c ∷ s)) in
            if is_udp sock then ok (mem ++ (c ∷ s), sock_ok, sock, call.1) else rest
      ]

  unfoldable pub sock_read_data : W → Sock → ℕ → Run (Bytes × Rc × Sock × W)
  unfolding total_or
  sock_read_data w sock len =
      if sock.sys_err
      then ok ([], sock_error, sock, w)
      else if sock.recv_fin
      then ok ([], sock_closed, sock, w)
      else do
        (mem, ec, sock', w') ← read_loop len w sock len []
        ok (mem, total_or (length mem) ec, sock', w')

  -- `while (len)` of `sock_write_data`; `mem` are the bytes left, `twrite` those written
  unfoldable pub write_loop : ℕ → W → Sock → (mem : Bytes) → (twrite : ℕ) → Run (ℕ × Rc × Sock × W)
  unfolding io_error
  write_loop rounds w sock [] twrite = ok (twrite, sock_ok, sock, w)
  write_loop zero w sock (c ∷ mem) twrite = stuck
  write_loop (suc rounds) w sock (c ∷ mem) twrite =
      let call = os.write w (c ∷ mem) in
      elim call.0 [
        | failed e ↦ let r = io_error e sock.send_timeout sock in ok (twrite, r.0, r.1, call.1)
        | done zero ↦ ok (twrite, sock_ok, sock, call.1)
        | done (suc n) ↦ write_loop rounds call.1 sock (drop n mem) (twrite + suc n)
      ]

  unfoldable pub sock_write_data : W → Sock → Bytes → Run (ℕ × Rc × Sock × W)
  unfolding total_or
  sock_write_data w sock mem =
      if sock.sys_err
      then ok (0, sock_error, sock, w)
      else if sock.fin_sent
      then ok (0, sock_closed, sock, w)
      else do
        (twrite, ec, sock', w') ← write_loop (length mem) w sock mem 0
        ok (twrite, total_or twrite ec, sock', w')

-- The vectors after `nw` bytes are written: how many are passed, and what is left of the others.
unfoldable pub advance : ℕ → List Bytes → ℕ × List Bytes
advance nw [] = (0, [])
advance nw (v ∷ iovs) =
    let r = advance (nw - length v) iovs in
    if leb (length v) nw then (suc r.0, r.1) else (0, drop nw v ∷ iovs)

module _ {W : Type 0} (os : Os W) where
  -- `while (write_len)` of `sock_write_iovs`: `passed` vectors are empty, `iovs` are those behind
  -- them. The first component of the result is the whole array.
  unfoldable pub iovs_loop :
      ℕ
      → W
      → Sock
      → (write_len : ℕ) → (passed : ℕ) → (iovs : List Bytes) → (twrite : ℕ)
      → Run (List Bytes × ℕ × Rc × Sock × W)
  unfolding io_error advance
  iovs_loop rounds w sock zero passed iovs twrite =
      ok (replicate passed [] ++ iovs, twrite, sock_ok, sock, w)
  iovs_loop zero w sock (suc write_len) passed iovs twrite = stuck
  iovs_loop (suc rounds) w sock (suc write_len) passed iovs twrite =
      let call = os.writev w iovs in
      elim call.0 [
        | failed e ↦
            let r = io_error e sock.send_timeout sock in
            ok (replicate passed [] ++ iovs, twrite, r.0, r.1, call.1)
        | done zero ↦ ok (replicate passed [] ++ iovs, twrite, sock_ok, sock, call.1)
        | done (suc n) ↦
            let r = advance (suc n) iovs in
            iovs_loop rounds call.1 sock (write_len - n) (passed + r.0) r.1 (twrite + suc n)
      ]

  unfoldable pub sock_write_iovs : W → Sock → List Bytes → Run (List Bytes × ℕ × Rc × Sock × W)
  unfolding total_or iovs_len
  sock_write_iovs w sock iovs =
      if sock.sys_err
      then ok (iovs, 0, sock_error, sock, w)
      else if sock.fin_sent
      then ok (iovs, 0, sock_closed, sock, w)
      else do
        (left, twrite, ec, sock', w') ← iovs_loop (iovs_len iovs) w sock (iovs_len iovs) 0 iovs 0
        ok (left, twrite, total_or twrite ec, sock', w')
