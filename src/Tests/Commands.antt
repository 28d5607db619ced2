-- ===== src/Tests/Commands.antt =====
-- The commands for a client of a store that binds "suj" to "b".
use c_db_k8s.Prelude.{ℕ, ◌≡◌, refl, Bool, true, false, [], ◌∷◌, ◌++◌, arith, ok}
use c_db_k8s.Str.Slice.{Slice, str}
use c_db_k8s.Rwbuf.Valid.{contents}
use c_db_k8s.Db.{Db}
use c_db_k8s.Sock.{Sys, done, Rc}
use c_db_k8s.Sock.Buffer.{sock_send}
use c_db_k8s.Server.{Client, send_rsp, text_ok}
use c_db_k8s.Server.Replies.{Replied, send_rsp-Replied}
use c_db_k8s.Server.Events.{do_client_send}
use c_db_k8s.Server.Waits.{do_client_send-never_waits}
use c_db_k8s.Tests.Buffers.{some_lines-IsValid, grants, grants-Grants}
use c_db_k8s.Tests.Sockets.{some_sock, Wire, some_wire, wire_os, wire_sent, wire-Writes}

abbrev some_client : Client
some_client = record { sock = some_sock; log_line = false; snd_prompt = true }

-- "get suj"
abbrev get_line : Slice
get_line = str (103 ∷ 101 ∷ 116 ∷ 32 ∷ 115 ∷ 117 ∷ 106 ∷ [])

abbrev next_link : Db → ℕ
next_link db = 200

send_rsp-Replied_example :
    Replied some_client (79 ∷ 75 ∷ []) (send_rsp grants some_client (str text_ok))
send_rsp-Replied_example =
    send_rsp-Replied grants grants-Grants some_client (str text_ok) some_lines-IsValid (omega arith)

abbrev epoll_takes : Wire → Bool → ℕ → Sys Unit × Wire
epoll_takes w add events = (done tt, w)

do_client_send-never_waits_example :
    (after : Client) × (world : Wire) × (do_client_send epoll_takes wire_os 1 some_wire some_client
      ≡ ok (after, world))
    × (after.sock.wait_write ≡ false)
    × (wire_sent world ++ contents after.sock.send_buf
        ≡ wire_sent some_wire ++ contents some_client.sock.send_buf)
    × ((rc : Rc) × (sock_send wire_os some_wire some_client.sock ≡ ok (rc, after.sock, world)))
do_client_send-never_waits_example =
    do_client_send-never_waits epoll_takes wire_os wire_sent wire-Writes 1 some_wire some_client
      some_lines-IsValid refl
