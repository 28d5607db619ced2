-- ===== src/Sock/Buffer.antt =====
-- src/sock.c: the routines over the send and the receive buffer.
use c_db_k8s.Prelude.{
  ℕ, Bool, true, false, not, ◌&&◌, ◌||◌, List, [], ◌∷◌, Bytes, ltb, ◌==◌, if◌then◌else◌, length,
  Run, ok, ◌>>=◌,
}
use c_db_k8s.Str.Slice.{Slice, bytes}
use c_db_k8s.Rwbuf.{
  Rwbuf, space, unread, consume, put, sub64, rwbuf_write, rwbuf_writev, rwbuf_mkspace, rwbuf_rdinc,
  Line, line, incomplete, too_long, rwbuf_readline,
}
use c_db_k8s.Sock.{
  Os, Rc, sock_ok, sock_data, sock_error, sock_again, sock_closed, sock_timeout, Sock,
}
use c_db_k8s.Sock.Fd.{sock_read_data, sock_write_data, sock_write_iovs}

abbrev pub crlf : Bytes
crlf = 13 ∷ 10 ∷ []

-- a buffer routine's result, with the error flag raised where it failed
abbrev pub after_append : Sock → Bool × Rwbuf → Bool × Sock
after_append sock r = (r.0, record sock { send_buf = r.1; sys_err = sock.sys_err || not r.0 })

unfoldable pub sock_write_mem : (ℕ → Bool) → Sock → Bytes → Bool × Sock
unfolding rwbuf_write
sock_write_mem grant sock mem = after_append sock (rwbuf_write grant sock.send_buf mem)

unfoldable pub sock_write_line : (ℕ → Bool) → Sock → Slice → Bool × Sock
unfolding rwbuf_writev
sock_write_line grant sock text =
    after_append sock (rwbuf_writev grant sock.send_buf (bytes text ∷ crlf ∷ []))

module _ {W : Type 0} (os : Os W) where
  unfoldable pub sock_send : W → Sock → Run (Rc × Sock × W)
  sock_send w sock = do
    (nwrite, rc, sock', w') ← sock_write_data os w sock (unread sock.send_buf)
    elim rc [
      | sock_data ↦ ok (sock_data, record sock' { send_buf = consume sock'.send_buf nwrite }, w')
      | sock_ok ↦ ok (sock_ok, sock', w')
      | sock_error ↦ ok (sock_error, sock', w')
      | sock_again ↦ ok (sock_again, sock', w')
      | sock_closed ↦ ok (sock_closed, sock', w')
      | sock_timeout ↦ ok (sock_timeout, sock', w')
    ]

  -- what of a vector is left is appended to the send buffer
  unfoldable pub keep_rest : Sock → List Bytes → Bool × Sock
  keep_rest sock [] = (true, sock)
  keep_rest sock (v ∷ iovs) =
      let r = rwbuf_write os.realloc sock.send_buf v in
      let kept = record sock { send_buf = r.1 } in
      let next = keep_rest kept iovs in
      let skip = keep_rest sock iovs in
      if length v == 0 then skip else if r.0 then next else (false, kept)

  -- the code of `sock_send_mem` and `sock_send_line` behind the write: the send buffer is read by
  -- the length that the first vector has left
  unfoldable pub after_iovs : Sock → List Bytes → Rc × Sock
  unfolding keep_rest
  after_iovs sock [] = (sock_ok, sock)
  after_iovs sock (backlog ∷ iovs) =
      let r = rwbuf_rdinc sock.send_buf (length backlog) in
      let read = record sock { send_buf = r.1 } in
      let kept = keep_rest read iovs in
      if not r.0 then (sock_error, read) else (if kept.0 then sock_ok else sock_error, kept.1)

  abbrev pub send_iovs : W → Sock → List Bytes → Run (Rc × Sock × W)
  send_iovs w sock iovs = do
    (left, nwrite, rc, sock', w') ← sock_write_iovs os w sock (unread sock.send_buf ∷ iovs)
    elim rc [
      | sock_data ↦ let r = after_iovs sock' left in ok (r.0, r.1, w')
      | sock_ok ↦ ok (sock_ok, sock', w')
      | sock_error ↦ ok (sock_error, sock', w')
      | sock_again ↦ ok (sock_again, sock', w')
      | sock_closed ↦ ok (sock_closed, sock', w')
      | sock_timeout ↦ ok (sock_timeout, sock', w')
    ]

  unfoldable pub sock_send_mem : W → Sock → Bytes → Run (Rc × Sock × W)
  unfolding after_iovs
  sock_send_mem w sock mem = send_iovs w sock (mem ∷ [])

  unfoldable pub sock_send_line : W → Sock → Slice → Run (Rc × Sock × W)
  unfolding after_iovs
  sock_send_line w sock text = send_iovs w sock (bytes text ∷ crlf ∷ [])

  -- the read and what follows it, into the space at the end of the receive buffer
  unfoldable pub recv_space : W → Sock → Run (Rc × Sock × W)
  recv_space w sock = do
    (mem, rc, sock', w') ← sock_read_data os w sock (space sock.recv_buf)
    elim rc [
      | sock_data ↦ ok (sock_data, record sock' { recv_buf = put sock'.recv_buf mem }, w')
      | sock_ok ↦ ok (sock_ok, sock', w')
      | sock_error ↦ ok (sock_error, sock', w')
      | sock_again ↦ ok (sock_again, sock', w')
      | sock_closed ↦ ok (sock_closed, sock', w')
      | sock_timeout ↦ ok (sock_timeout, sock', w')
    ]

  -- the space asked for is `space - sock->min_size`, which the test in front of it makes negative
  unfoldable pub sock_recv : W → Sock → Run (Rc × Sock × W)
  sock_recv w sock =
      let free = space sock.recv_buf in
      let r = rwbuf_mkspace os.realloc sock.recv_buf (sub64 free sock.min_size) in
      let moved = record sock { recv_buf = r.1 } in
      if not (sock.min_size == 0) && ltb free sock.min_size
      then (if r.0 then recv_space w moved else ok (sock_error, record moved { sys_err = true }, w))
      else recv_space w sock

unfoldable pub sock_recv_line : Sock → Bool → Line × Sock
unfolding rwbuf_readline
sock_recv_line sock eof =
    let r = rwbuf_readline sock.recv_buf sock.max_line eof false in
    elim r.0 [
      | line n text ↦ (line n text, record sock { recv_buf = r.1 })
      | incomplete ↦ (incomplete, record sock { recv_buf = r.1 })
      | too_long ↦ (too_long, record sock { recv_buf = r.1; sys_err = true })
    ]
