-- ===== src/Server.antt =====
-- src/server.c: the commands of a client. `malloc` is the parameter `malloc`, the link that the
-- next record gets in a store, 0 on failure; `rounds` bounds a walk over a chain of the store.
pub mod Events
pub mod Waits
pub mod Replies
pub mod Requests
pub mod Commands
pub mod Serves
use c_db_k8s.Prelude.{
  ℕ, suc, Ordering, Bool, true, false, not, ◌||◌, [], ◌∷◌, Bytes, is_eq, if◌then◌else◌, ◌==◌, Run,
  ok, ◌>>=◌,
}
use c_db_k8s.Str.Slice.{
  Slice, null, str, len, slice_splitch, slice_trim, slice_toupper, slice_cmpmem,
}
use c_db_k8s.Db.{Db}
use c_db_k8s.Db.Loops.{db_set, db_get, db_del}
use c_db_k8s.Sock.{Sock, sock_write_close}
use c_db_k8s.Sock.Buffer.{sock_write_mem, sock_write_line}

-- `struct simple_client`; its links to the server and to the list of clients are not in use here
pub record Client : Type 0 where
  pub sock : Sock
  pub log_line : Bool
  pub snd_prompt : Bool

abbrev pub prompt : Bytes
prompt = 62 ∷ 32 ∷ []

abbrev pub text_ok : Bytes
text_ok = 79 ∷ 75 ∷ []

abbrev pub text_fail : Bytes
text_fail = 70 ∷ 65 ∷ 73 ∷ 76 ∷ []

abbrev pub text_unsupp : Bytes
text_unsupp = 85 ∷ 78 ∷ 83 ∷ 85 ∷ 80 ∷ 80 ∷ []

abbrev pub name_set : Bytes
name_set = 83 ∷ 69 ∷ 84 ∷ []

abbrev pub name_get : Bytes
name_get = 71 ∷ 69 ∷ 84 ∷ []

abbrev pub name_del : Bytes
name_del = 68 ∷ 69 ∷ 76 ∷ []

abbrev pub name_quit : Bytes
name_quit = 81 ∷ 85 ∷ 73 ∷ 84 ∷ []

abbrev pub client_close : Client → Bool → Client
client_close client force = record client { sock = sock_write_close client.sock force }

-- the index in `cli_cmds`
unfoldable pub find_cli_cmd : Slice → ℕ
find_cli_cmd cmd =
    if is_eq (slice_cmpmem cmd name_set)
    then 1
    else if is_eq (slice_cmpmem cmd name_get)
    then 2
    else if is_eq (slice_cmpmem cmd name_del)
    then 3
    else if is_eq (slice_cmpmem cmd name_quit)
    then 4
    else 0

module _ (realloc : ℕ → Bool) where
  unfoldable pub send_prompt : Client → Bool × Client
  send_prompt client =
      let r = sock_write_mem realloc client.sock prompt in (r.0, record client { sock = r.1 })

  unfoldable pub send_line : Client → Slice → Bool × Client
  send_line client text =
      let r = sock_write_line realloc client.sock text in (r.0, record client { sock = r.1 })

  -- the log line of `client->log_line` is output only
  unfoldable pub send_rsp : Client → Slice → Bool × Client
  unfolding send_line send_prompt
  send_rsp client rsp =
      let r = send_line client rsp in
      if r.0 then (if (r.1).snd_prompt then send_prompt r.1 else r) else r

module _ (realloc : ℕ → Bool) (beyond : ℕ → ℕ → ℕ) (rounds : ℕ) (malloc : Db → ℕ) where
  abbrev answer : Client → Slice → Db → Bool × Client × Db
  answer client rsp db = let r = send_rsp realloc client rsp in (r.0, r.1, db)

  -- The commands: whether the reply was queued, the client and the store.
  unfoldable pub cmd_set : Client → Db → Slice → Run (Bool × Client × Db)
  cmd_set client db args =
      let (token, rest) = slice_splitch args 32 in
      let key = slice_trim token in
      let val = slice_trim rest in
      if len key == 0 || len val == 0 then ok (answer client (str text_fail) db) else do
        (done, db') ← db_set beyond rounds (malloc db) db key val
        ok (answer client (str (if done then text_ok else text_fail)) db')

  unfoldable pub cmd_get : Client → Db → Slice → Run (Bool × Client × Db)
  cmd_get client db key = do
    res ← db_get beyond rounds db key
    elim res [
      | null ↦ ok (answer client (str text_fail) db)
      | str val ↦ ok (answer client (str val) db)
    ]

  unfoldable pub cmd_del : Client → Db → Slice → Run (Bool × Client × Db)
  cmd_del client db key = if len key == 0 then ok (answer client (str text_fail) db) else do
    (done, db') ← db_del beyond rounds db key
    ok (answer client (str (if done then text_ok else text_fail)) db')

  unfoldable pub cmd_quit : Client → Db → Slice → Run (Bool × Client × Db)
  cmd_quit client db args =
      let r = send_rsp realloc (record client { snd_prompt = false }) (str text_ok) in
      ok (r.0, client_close r.1 r.0, db)

  unfoldable pub cmd_unsupp : Client → Db → Slice → Run (Bool × Client × Db)
  cmd_unsupp client db args = ok (answer client (str text_unsupp) db)

  -- the function at an index of `cli_cmds`
  unfoldable pub call_cli_cmd : ℕ → Client → Db → Slice → Run (Bool × Client × Db)
  call_cli_cmd idx client db args =
      if idx == 1
      then cmd_set client db args
      else if idx == 2
      then cmd_get client db args
      else if idx == 3
      then cmd_del client db args
      else if idx == 4
      then cmd_quit client db args
      else cmd_unsupp client db args

  unfoldable pub process_line : Client → Db → Slice → Run (Bool × Client × Db)
  process_line client db cmd =
      let (token, rest) = slice_splitch cmd 32 in
      let args = slice_trim rest in call_cli_cmd (find_cli_cmd (slice_toupper token)) client db args
