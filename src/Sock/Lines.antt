-- ===== src/Sock/Lines.antt =====
-- What src/sock.c appends to the send buffer.
use mathlib.Core.List.{flatten}
use c_db_k8s.Prelude.{
  ℕ, ◌+◌, ◌^◌, ◌<◌, ◌≡◌, refl, sym, Bool, true, false, not, ◌||◌, [], ◌∷◌, ◌++◌, Bytes, arith,
  length, length-append, subst,
}
use c_db_k8s.Str.Slice.{Slice, bytes, len}
use c_db_k8s.Rwbuf.{Rwbuf}
use c_db_k8s.Rwbuf.Valid.{IsValid, contents, Grants}
use c_db_k8s.Rwbuf.Queue.{Appends, rwbuf_write-Appends, rwbuf_writev-flatten}
use c_db_k8s.Sock.{Sock}
use c_db_k8s.Sock.Buffer.{after_append, sock_write_mem, sock_write_line, crlf}

-- all of `mem` is behind the unread bytes of the send buffer, or none of it and the error is noted
pub record Queues (sock : Sock) (mem : Bytes) (r : Bool × Sock) : Type 0 where
  pub valid : IsValid (r.1).send_buf
  pub done : r.0 ≡ true → contents (r.1).send_buf ≡ contents sock.send_buf ++ mem
  pub failed : r.0 ≡ false → contents (r.1).send_buf ≡ contents sock.send_buf
  pub error : (r.1).sys_err ≡ (sock.sys_err || not r.0)
  pub recv : (r.1).recv_buf ≡ sock.recv_buf

queues :
    (sock : Sock) (mem : Bytes) (r : Bool × Rwbuf)
    → Appends sock.send_buf mem r
    → Queues sock mem (after_append sock r)
queues sock mem r a = record {
  valid = a.valid;
  done = a.done;
  failed = a.failed;
  error = refl;
  recv = refl;
}

module _ (grant : ℕ → Bool) (g : Grants grant) (sock : Sock) (v : IsValid sock.send_buf) where
  pub sock_write_mem-Queues :
      (mem : Bytes) → length mem < 2 ^ 62 → Queues sock mem (sock_write_mem grant sock mem)
  unfolding sock_write_mem
  sock_write_mem-Queues mem h =
      queues sock mem _ (rwbuf_write-Appends grant sock.send_buf mem g v h)

  pub sock_write_line-Queues :
      (text : Slice)
      → len text + 2 < 2 ^ 62
      → Queues sock (bytes text ++ crlf) (sock_write_line grant sock text)
  unfolding sock_write_line flatten
  sock_write_line-Queues text h =
      let all = bytes text ++ crlf in
      let size : length all < 2 ^ 62 = omega (arith, length-append (bytes text) crlf) in
      let a = rwbuf_write-Appends grant sock.send_buf all g v size in
      let same = rwbuf_writev-flatten grant sock.send_buf (bytes text ∷ crlf ∷ []) g v size in
      queues sock all _ (subst (Appends sock.send_buf all) (sym same) a)
