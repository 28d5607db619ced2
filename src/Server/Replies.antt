-- ===== src/Server/Replies.antt =====
-- What `send_rsp` of src/server.c queues for a client.
use c_db_k8s.Prelude.{
  ℕ, ◌+◌, ◌^◌, ◌<◌, ◌≡◌, refl, sym, ap, ◌∙◌, inl, inr, Bool, true, false, not, ◌||◌, [], ◌++◌,
  append_assoc, append-nil, Bytes, arith, Bool-cases, subst, if◌then◌else◌,
}
use mathlib.Core.Bool.{false≢true}
use c_db_k8s.Str.Slice.{Slice, bytes, len}
use c_db_k8s.Rwbuf.Valid.{IsValid, contents, Grants}
use c_db_k8s.Sock.{Sock}
use c_db_k8s.Sock.Buffer.{crlf}
use c_db_k8s.Sock.Lines.{Queues, sock_write_mem-Queues, sock_write_line-Queues}
use c_db_k8s.Server.{Client, prompt, send_prompt, send_line, send_rsp}

-- what follows a reply
abbrev pub tail : Client → Bytes
tail client = crlf ++ (if client.snd_prompt then prompt else [])

-- The reply is queued with CRLF and the prompt, or the error is noted.
pub record Replied (client : Client) (text : Bytes) (r : Bool × Client) : Type 0 where
  pub valid : IsValid (r.1).sock.send_buf
  pub queued :
      r.0 ≡ true
      → contents (r.1).sock.send_buf ≡ contents client.sock.send_buf ++ (text ++ tail client)
  pub error : r.0 ≡ false → (r.1).sock.sys_err ≡ true
  pub recv : (r.1).sock.recv_buf ≡ client.sock.recv_buf

-- the socket of a result
abbrev on_sock : Bool × Client → Bool × Sock
on_sock r = (r.0, (r.1).sock)

module _ (realloc : ℕ → Bool) (g : Grants realloc) where
  line-Queues :
      (client : Client) (rsp : Slice)
      → IsValid client.sock.send_buf
      → len rsp + 2 < 2 ^ 62
      → Queues client.sock (bytes rsp ++ crlf) (on_sock (send_line realloc client rsp))
        × ((send_line realloc client rsp).1.snd_prompt ≡ client.snd_prompt)
  unfolding send_line
  line-Queues client rsp v h = (sock_write_line-Queues realloc g client.sock v rsp h, refl)

  prompt-Queues :
      (client : Client)
      → IsValid client.sock.send_buf
      → Queues client.sock prompt (on_sock (send_prompt realloc client))
  unfolding send_prompt
  prompt-Queues client v = sock_write_mem-Queues realloc g client.sock v prompt (omega arith)

  errors :
      (sock : Bool) {sock' : Bool} {r : Bool} → sock' ≡ (sock || not r) → r ≡ false → sock' ≡ true
  errors sock e f = ground arith

  -- `send_rsp` to a client with a valid send buffer, of a reply and an allocator below 2^62 bytes,
  -- queues the reply, CRLF and, where the client has it on, the prompt behind what is to be sent;
  -- or it fails and notes the error. The send buffer stays valid and the receive buffer as it was.
  pub send_rsp-Replied :
      (client : Client) (rsp : Slice)
      → IsValid client.sock.send_buf
      → len rsp + 2 < 2 ^ 62
      → Replied client (bytes rsp) (send_rsp realloc client rsp)
  unfolding send_rsp
  send_rsp-Replied client rsp v h =
      let r = send_line realloc client rsp in
      let p = send_prompt realloc r.1 in
      let (q, flag) = line-Queues client rsp v h in
      elim (Bool-cases r.0) [
        | inr full ↦
            let run : send_rsp realloc client rsp ≡ r = simp full in
            subst (Replied client (bytes rsp)) (sym run) (record {
              valid = q.valid;
              queued = λ e. absurd (false≢true (sym full ∙ e));
              error = λ e. errors client.sock.sys_err q.error e;
              recv = q.recv;
            })
        | inl got ↦ elim (Bool-cases client.snd_prompt) [
          | inr off ↦
              let run : send_rsp realloc client rsp ≡ r = simp (got, flag, off) in
              subst (Replied client (bytes rsp)) (sym run) (record {
                valid = q.valid;
                queued = λ e. simp (off, append-nil crlf) (q.done got);
                error = λ e. errors client.sock.sys_err q.error e;
                recv = q.recv;
              })
          | inl on ↦
              let run : send_rsp realloc client rsp ≡ p = simp (got, flag, on) in
              let w = prompt-Queues r.1 q.valid in
              subst (Replied client (bytes rsp)) (sym run) (record {
                valid = w.valid;
                queued = λ e. simp on (
                    w.done e
                    ∙ ap (λ s. s ++ prompt) (q.done got)
                    ∙ append_assoc (contents client.sock.send_buf) (bytes rsp ++ crlf) prompt
                    ∙ ap (λ s. contents client.sock.send_buf ++ s)
                        (append_assoc (bytes rsp) crlf prompt));
                error = λ e. errors (r.1).sock.sys_err w.error e;
                recv = w.recv ∙ q.recv;
              })
        ]
      ]
