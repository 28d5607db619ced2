-- ===== src/Server/Events.antt =====
-- src/server.c: what an event of epoll makes the server do for a client. `rounds` bounds the loops
-- over what the kernel answers; a loop over lines has one more round than it has bytes.
use c_db_k8s.Prelude.{
  ℕ, zero, suc, Bool, true, false, not, ◌||◌, ◌==◌, bit_and, if◌then◌else◌, Option, none, some, ltb,
  Run, ok, stuck, ◌>>=◌,
}
use c_db_k8s.Str.Slice.{str}
use c_db_k8s.Rwbuf.{used, line, incomplete, too_long}
use c_db_k8s.Db.{Db}
use c_db_k8s.Sock.{
  would_block, interrupted, other_errno, Sys, done, failed, Os, Rc, sock_ok, sock_data, sock_error,
  sock_again, sock_closed, sock_timeout, Sock, sock_iseof, sock_canclose, sock_deinit,
}
use c_db_k8s.Sock.Buffer.{sock_send, sock_recv, sock_recv_line}
use c_db_k8s.Server.{Client, client_close, process_line}

-- `EPOLLIN | EPOLLRDHUP`, and these with `EPOLLOUT`
abbrev pub rd_events : ℕ
rd_events = 8193

abbrev pub rdwr_events : ℕ
rdwr_events = 8197

abbrev pub has_event : ℕ → ℕ → Bool
has_event events mask = not (bit_and events mask == 0)

-- an error code is below 0
abbrev pub is_negative : Rc → Bool
is_negative sock_ok = false
is_negative sock_data = false
is_negative sock_error = true
is_negative sock_again = true
is_negative sock_closed = true
is_negative sock_timeout = true

-- the events to ask for behind a write, 0 for no change
unfoldable pub send_events : Sock → ℕ
send_events sock =
    if ltb 0 (used sock.send_buf)
    then (if sock.wait_write then rdwr_events else 0)
    else if sock.wait_write
    then rd_events
    else 0

-- `epoll_ctl` takes whether the descriptor is added or changed, and the events
module _ {W : Type 0} (epoll_ctl : W → Bool → ℕ → Sys Unit × W) where
  unfoldable pub poll_ctrl : ℕ → W → Sock → ℕ → Run (Bool × Sock × W)
  poll_ctrl zero w sock events = stuck
  poll_ctrl (suc rounds) w sock events =
      let call = epoll_ctl w (not sock.is_epoll) events in
      let again = poll_ctrl rounds call.1 sock events in
      elim call.0 [
        | done t ↦ ok (true, record sock { is_epoll = true }, call.1)
        | failed interrupted ↦ again
        | failed would_block ↦ ok (false, record sock { sys_err = true }, call.1)
        | failed other_errno ↦ ok (false, record sock { sys_err = true }, call.1)
      ]

  unfoldable pub do_client_send : Os W → ℕ → W → Client → Run (Client × W)
  do_client_send os rounds w client = do
    (rc, sock, w') ← sock_send os w client.sock
    let events = send_events sock
    let change = poll_ctrl rounds w' sock events
    if is_negative rc || events == 0 then ok (record client { sock = sock }, w') else do
      (registered, sock', w'') ← change
      ok (
        record client {
          sock = if registered then record sock' { wait_write = has_event events 4 } else sock';
        },
        w'',
      )

module _ (realloc : ℕ → Bool) (beyond : ℕ → ℕ → ℕ) (rounds : ℕ) (malloc : Db → ℕ) where
  -- the loop over the lines of the receive buffer
  unfoldable pub line_loop : ℕ → Client → Db → Bool → Run (Rc × Client × Db)
  line_loop zero client db is_eof = stuck
  line_loop (suc fuel) client db is_eof =
      let r = sock_recv_line client.sock is_eof in
      let received = record client { sock = r.1 } in
      elim r.0 [
        | incomplete ↦ ok (sock_ok, received, db)
        | too_long ↦ ok (sock_error, received, db)
        | line llen text ↦ if llen == 0 then ok (sock_ok, received, db) else do
          (queued, client', db') ← process_line realloc beyond rounds malloc received db (str text)
          let rest = line_loop fuel client' db' is_eof
          if queued then rest else ok (sock_error, client', db')
      ]

module _ {W : Type 0} (epoll_ctl : W → Bool → ℕ → Sys Unit × W) (os : Os W) (beyond : ℕ → ℕ → ℕ)
    (rounds : ℕ) (malloc : Db → ℕ) where
  -- the loop over what the socket delivers
  unfoldable pub recv_loop : ℕ → W → Client → Db → Run (Rc × Client × Db × W)
  unfolding line_loop
  recv_loop zero w client db = stuck
  recv_loop (suc fuel) w client db = do
    (rc, sock, w') ← sock_recv os w client.sock
    let received = record client { sock = sock }
    let lines = do
      (rc', client', db') ←
          line_loop os.realloc beyond rounds malloc (suc (used sock.recv_buf)) received db
            (sock_iseof sock)
      let rest = recv_loop fuel w' client' db'
      if is_negative rc' then ok (rc', client', db', w') else rest
    elim rc [
      | sock_data ↦ lines
      | sock_ok ↦ ok (sock_ok, received, db, w')
      | sock_error ↦ ok (sock_error, received, db, w')
      | sock_again ↦ ok (sock_again, received, db, w')
      | sock_closed ↦ ok (sock_closed, received, db, w')
      | sock_timeout ↦ ok (sock_timeout, received, db, w')
    ]

  unfoldable pub do_client_recv : ℕ → W → Client → Db → Run (Client × Db × W)
  do_client_recv fuel w client db = do
    (rc, client', db', w') ← recv_loop fuel w client db
    elim rc [
      | sock_ok ↦ ok (client', db', w')
      | sock_data ↦ ok (client', db', w')
      | sock_again ↦ ok (client', db', w')
      | sock_closed ↦ ok (client_close client' false, db', w')
      | sock_error ↦ ok (client_close client' true, db', w')
      | sock_timeout ↦ ok (client_close client' true, db', w')
    ]

  -- `client_recv_event`; `none` is a client that has been destroyed
  unfoldable pub client_recv_event : ℕ → W → Client → Db → ℕ → Run (Option Client × Db × W)
  unfolding sock_deinit
  client_recv_event fuel w client db events = do
    let sent = do_client_send epoll_ctl os rounds w client
    (client1, w1) ← if has_event events 28 then sent else ok (client, w)
    let received = do
      (c, db', w') ← do_client_recv fuel w1 client1 db
      (c', w'') ← do_client_send epoll_ctl os rounds w' c
      ok (c', db', w'')
    (client2, db2, w2) ← if has_event events 8217 then received else ok (client1, db, w1)
    ok (
        if sock_canclose client2.sock
        then (none, db2, (sock_deinit os w2 client2.sock false).1)
        else (some client2, db2, w2))
