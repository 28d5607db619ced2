-- ===== src/Sock.antt =====
-- src/sock.h and src/sock.c: the socket over a file descriptor, and its two buffers.
-- The kernel's calls and `realloc` are the record `Os` over a world `W`. Each takes the world before
-- the call and gives the one after it, so a schedule of partial reads and writes is a world.
pub mod Fd
pub mod Buffer
pub mod WriteLoop
pub mod ReadLoop
pub mod Sent
pub mod Lines
pub mod Received
use c_db_k8s.Prelude.{
  ℕ, ◌+◌, ◌≡◌, Bool, true, false, not, ◌&&◌, ◌||◌, List, Bytes, ltb, ◌==◌, bit_and, if◌then◌else◌,
}
use c_db_k8s.Rwbuf.{Rwbuf, used, unread, rwbuf_init, rwbuf_deinit, rwbuf_rdinc}

pub data Errno : Type 0 where
  would_block : Errno
  interrupted : Errno
  other_errno : Errno

-- the result of a system call
pub data Sys (A : Type 0) : Type 0 where
  done : A → Sys A
  failed : Errno → Sys A

pub record Os (W : Type 0) : Type 0 where
  pub read : W → ℕ → Sys Bytes × W
  pub write : W → Bytes → Sys ℕ × W
  pub writev : W → List Bytes → Sys ℕ × W
  pub shutdown : W → Sys Unit × W
  pub close : W → Sys Unit × W
  pub realloc : ℕ → Bool

-- `SOCK_OK`, `SOCK_DATA` and the error codes. Where the code returns a count of bytes, the model
-- has the code `sock_data` and the bytes or their count beside it.
pub data Rc : Type 0 where
  sock_ok : Rc
  sock_data : Rc
  sock_error : Rc
  sock_again : Rc
  sock_closed : Rc
  sock_timeout : Rc

-- `struct simple_sock`; `fd` is whether the descriptor is open
pub record Sock : Type 0 where
  pub fd : Bool
  pub mode : ℕ
  pub send_buf : Rwbuf
  pub recv_buf : Rwbuf
  pub max_line : ℕ
  pub min_size : ℕ
  pub is_server : Bool
  pub is_epoll : Bool
  pub send_timeout : Bool
  pub recv_timeout : Bool
  pub recv_fin : Bool
  pub send_fin : Bool
  pub fin_sent : Bool
  pub close_now : Bool
  pub wait_write : Bool
  pub sys_err : Bool

-- `SOCK_UDP`
abbrev pub is_udp : Sock → Bool
is_udp sock = not (bit_and sock.mode 8 == 0)

-- The state functions of src/sock.h.
abbrev pub sock_write_close : Sock → Bool → Sock
sock_write_close sock force = record sock { send_fin = true; close_now = sock.close_now || force }

abbrev pub sock_iseof : Sock → Bool
sock_iseof sock = sock.recv_fin

unfoldable pub sock_dataeof : Sock → Rc → Rc
sock_dataeof sock sock_data = if sock.recv_fin then sock_closed else sock_data
sock_dataeof sock sock_ok = sock_ok
sock_dataeof sock sock_error = sock_error
sock_dataeof sock sock_again = sock_again
sock_dataeof sock sock_closed = sock_closed
sock_dataeof sock sock_timeout = sock_timeout

abbrev pub sock_read_done : Sock → Bool
sock_read_done sock = sock.recv_fin && used sock.recv_buf == 0

abbrev pub sock_write_done : Sock → Bool
sock_write_done sock = sock.send_fin && used sock.send_buf == 0

abbrev pub sock_isbusy : Sock → Bool
sock_isbusy sock = ltb 0 (used sock.send_buf) || sock.send_fin && not sock.fin_sent

abbrev pub sock_isclosed : Sock → Bool
sock_isclosed sock = sock.recv_fin && sock.fin_sent

abbrev pub sock_mustclose : Sock → Bool
sock_mustclose sock = sock.sys_err || sock.close_now || sock_isclosed sock

abbrev pub sock_canclose : Sock → Bool
sock_canclose sock = sock_mustclose sock || sock.send_fin && used sock.send_buf == 0

-- the unread bytes as a slice, and their consumption
abbrev pub sock_recv_str : Sock → Bytes
sock_recv_str sock = unread sock.recv_buf

unfoldable pub sock_recvbuf_consume : Sock → ℕ → Bool × Sock
unfolding rwbuf_rdinc
sock_recvbuf_consume sock len =
    let r = rwbuf_rdinc sock.recv_buf len in (r.0, record sock { recv_buf = r.1 })

-- `sock_init` on a structure whose other fields are `sock`'s
unfoldable pub sock_init :
    (ℕ → Bool) → Sock → (max_line buf_size min_size max_size : ℕ) → Bool × Sock
unfolding rwbuf_init
sock_init grant sock max_line buf_size min_size max_size =
    let r = rwbuf_init grant buf_size max_size in
    let opened = record sock {
      fd = true;
      max_line = max_line;
      min_size = min_size;
      recv_buf = r.1;
    } in
    if r.0 then (r.0, record opened { send_buf = r.1 }) else (false, opened)

module _ {W : Type 0} (os : Os W) where
  unfoldable pub sock_sendfin : W → Sock → Rc × Sock × W
  sock_sendfin w sock =
      if sock.sys_err
      then (sock_error, sock, w)
      else if sock.fin_sent
      then (sock_ok, sock, w)
      else elim (os.shutdown w).0 [
        | done t ↦ (sock_ok, record sock { fin_sent = true; send_fin = false }, (os.shutdown w).1)
        | failed e ↦ (sock_error, record sock { sys_err = true }, (os.shutdown w).1)
      ]

  -- `rc` is whether the caller has no error yet; the result is whether there is none
  unfoldable pub sock_close : W → Sock → Bool → Bool × Sock × W
  sock_close w sock rc = if not sock.fd then (rc, sock, w) else elim (os.close w).0 [
    | done t ↦ (rc, record sock { fd = false }, (os.close w).1)
    | failed e ↦ (false, record sock { fd = false }, (os.close w).1)
  ]

  unfoldable pub sock_deinit : W → Sock → Bool → Sock × W
  unfolding sock_close rwbuf_deinit
  sock_deinit w sock rc =
      let (r, closed, w') = sock_close w sock rc in
      (
        record closed {
          send_buf = rwbuf_deinit closed.send_buf;
          recv_buf = rwbuf_deinit closed.recv_buf;
        },
        w',
      )
