-- ===== src/Server/Waits.antt =====
-- When src/server.c waits for a socket to take more bytes.
use c_db_k8s.Prelude.{
  ℕ, ◌≡◌, refl, ◌∙◌, inl, inr, Bool, true, false, ◌||◌, Bytes, ◌++◌, ltb, ◌==◌, ok, Bool-cases,
}
use c_db_k8s.Rwbuf.{used}
use c_db_k8s.Rwbuf.Valid.{IsValid, contents}
use c_db_k8s.Sock.{Os, Sock, Sys, Rc}
use c_db_k8s.Sock.Buffer.{sock_send}
use c_db_k8s.Sock.WriteLoop.{Writes}
use c_db_k8s.Sock.Sent.{sock_send-Sends}
use c_db_k8s.Server.{Client}
use c_db_k8s.Server.Events.{send_events, do_client_send, is_negative}

no_events : (sock : Sock) → sock.wait_write ≡ false → send_events sock ≡ 0
unfolding send_events
no_events sock off = elim (Bool-cases (ltb 0 (used sock.send_buf))) [
  | inl e ↦ simp (e, off)
  | inr e ↦ simp (e, off)
]

no_change : (b : Bool) → (b || 0 == 0) ≡ true
no_change true = refl
no_change false = refl

module _ {W : Type 0} (epoll_ctl : W → Bool → ℕ → Sys Unit × W) (os : Os W) (sent : W → Bytes)
    (law : Writes os sent) where
  -- For a client that does not wait for writes, with a valid send buffer, `do_client_send` ends as
  -- `sock_send` does, in the world that this leaves: it asks epoll for nothing, also where bytes
  -- remain in the send buffer, and the client still does not wait. No byte is lost.
  pub do_client_send-never_waits :
      (rounds : ℕ) (w : W) (client : Client)
      → IsValid client.sock.send_buf
      → client.sock.wait_write ≡ false
      → (after : Client) × (world : W) × (do_client_send epoll_ctl os rounds w client
          ≡ ok (after, world))
        × (after.sock.wait_write ≡ false)
        × (sent world ++ contents after.sock.send_buf ≡ sent w ++ contents client.sock.send_buf)
        × ((rc : Rc) × (sock_send os w client.sock ≡ ok (rc, after.sock, world)))
  unfolding do_client_send
  do_client_send-never_waits rounds w client v off =
      let s = sock_send-Sends os sent law w client.sock v in
      let quiet = no_events s.after (s.wait ∙ off) in
      (
        record client { sock = s.after },
        s.world,
        simp (s.runs, quiet, no_change (is_negative s.rc)),
        s.wait ∙ off,
        s.stream,
        (s.rc, s.runs),
      )
