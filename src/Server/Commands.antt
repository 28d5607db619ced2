-- ===== src/Server/Commands.antt =====
-- The commands of src/server.c, one by one, against the protocol.
use c_db_k8s.Prelude.{
  ℕ, ◌+◌, ◌^◌, ◌<◌, ◌≡◌, refl, sym, ap, inl, inr, Bool, true, false, ◌||◌, Option, none, some,
  Bytes, ◌==◌, if◌then◌else◌, ◌++◌, arith, length, Run, ok, subst,
}
use c_db_k8s.Str.Slice.{Slice, str, bytes, len, slice_splitch, slice_trim}
use c_db_k8s.Rwbuf.Valid.{IsValid, contents, Grants}
use c_db_k8s.Db.{Db, calc_hash, create_rec}
use c_db_k8s.Db.Loops.{db_get}
use c_db_k8s.Db.Chain.{All, Clear}
use c_db_k8s.Db.Walk.{cells, slice_of}
use c_db_k8s.Db.Store.{Layout, IsStore, view, db_get-view}
use c_db_k8s.Db.Delete.{db_del-Removes, is_some}
use c_db_k8s.Db.Create.{no_record}
use c_db_k8s.Db.Put.{Sets}
use c_db_k8s.Sock.Buffer.{crlf}
use c_db_k8s.Server.{
  Client, send_rsp, cmd_set, cmd_get, cmd_del, cmd_quit, cmd_unsupp, text_ok, text_fail,
  text_unsupp, client_close,
}
use c_db_k8s.Server.Replies.{send_rsp-Replied, tail}
use c_db_k8s.Server.Requests.{
  Request, set, get, del, malformed, quit, unsupported, shown, Answers, set_done, set_full,
  get_done, del_done, no_request, bye, not_supported,
}

-- CRLF and the prompt follow an answer; a client that has quit gets no prompt
abbrev pub ending : Request → Client → Bytes
ending (set k v) client = tail client
ending (get k) client = tail client
ending (del k) client = tail client
ending malformed client = tail client
ending quit client = crlf
ending unsupported client = tail client

-- `create_rec` gives no record
abbrev pub no_room : (fresh : ℕ) → Db → Bytes → Bytes → Bool
no_room fresh db key val = no_record (create_rec fresh db key val)

-- The call ended. The store holds the map that the answer allows, and the answer is queued for the
-- client behind what it has not been sent yet, unless the send buffer took no more.
pub record Served (fresh : ℕ) (db : Db) (client : Client) (layout : Layout) (ask : Request)
    (run : Run (Bool × Client × Db)) : Type 0 where
  pub queued : Bool
  pub after : Client
  pub store_after : Db
  pub map_after : Layout
  pub reply : Bytes
  pub runs : run ≡ ok (queued, after, store_after)
  pub store : IsStore store_after map_after
  pub answers : Answers (no_room fresh db) layout ask reply map_after
  pub valid : IsValid after.sock.send_buf
  pub sends :
      queued ≡ true
      → contents after.sock.send_buf ≡ contents client.sock.send_buf ++ (reply ++ ending ask client)
  pub error : queued ≡ false → after.sock.sys_err ≡ true

module _ (realloc : ℕ → Bool) (beyond : ℕ → ℕ → ℕ) (rounds : ℕ) (malloc : Db → ℕ)
    (grants : Grants realloc) (client : Client) (db : Db) (layout : Layout)
    (v : IsValid client.sock.send_buf) (s : IsStore db layout) where
  -- a reply at the end of a command
  replied :
      (ask : Request) (rsp : Slice) (db' : Db) (layout' : Layout) {run : Run (Bool × Client × Db)}
      → run ≡ ok ((send_rsp realloc client rsp).0, (send_rsp realloc client rsp).1, db')
      → len rsp + 2 < 2 ^ 62
      → IsStore db' layout'
      → Answers (no_room (malloc db) db) layout ask (bytes rsp) layout'
      → ending ask client ≡ tail client
      → Served (malloc db) db client layout ask run
  replied ask rsp db' layout' e h store ans last =
      let r = send_rsp-Replied realloc grants client rsp v h in
      record {
        queued = (send_rsp realloc client rsp).0;
        after = (send_rsp realloc client rsp).1;
        store_after = db';
        map_after = layout';
        reply = bytes rsp;
        runs = e;
        store = store;
        answers = ans;
        valid = r.valid;
        sends = λ got. rw last (r.queued got);
        error = r.error;
      }

  -- what the store must be for a key
  pub record Ready (k : Bytes) : Type 0 where
    pub clear : All (Clear beyond k) (layout (calc_hash k))
    pub enough : cells (layout (calc_hash k)) < rounds

  get_reply :
      (key : Slice) (o : Option Bytes)
      → view layout (bytes key) ≡ o
      → length (shown o) + 2 < 2 ^ 62
      → db_get beyond rounds db key ≡ ok (slice_of o)
      → Served
          (malloc db)
          db
          client
          layout
          (get key)
          (cmd_get realloc beyond rounds malloc client db key)
  unfolding cmd_get
  get_reply key none e h run =
      replied (get key) (str text_fail) db layout (simp run) h s
        (subst (λ t. Answers (no_room (malloc db) db) layout (get key) (shown t) layout) e get_done)
        refl
  get_reply key (some val) e h run =
      replied (get key) (str val) db layout (simp run) h s
        (subst (λ t. Answers (no_room (malloc db) db) layout (get key) (shown t) layout) e get_done)
        refl

  pub cmd_get-Served :
      (key : Slice)
      → Ready (bytes key)
      → length (shown (view layout (bytes key))) + 2 < 2 ^ 62
      → Served
          (malloc db)
          db
          client
          layout
          (get key)
          (cmd_get realloc beyond rounds malloc client db key)
  cmd_get-Served key ready h =
      get_reply key (view layout (bytes key)) refl h
        (db_get-view beyond rounds db layout key s ready.clear ready.enough)

  small : (b : Bool) → len (str (if b then text_ok else text_fail)) + 2 < 2 ^ 62
  small true = omega arith
  small false = omega arith

  pub cmd_del-Served :
      (key : Slice)
      → Ready (bytes key)
      → (len key == 0) ≡ false
      → Served
          (malloc db)
          db
          client
          layout
          (del key)
          (cmd_del realloc beyond rounds malloc client db key)
  unfolding cmd_del
  cmd_del-Served key ready full =
      let (out, db', run, r) =
        db_del-Removes beyond rounds db layout key s ready.clear ready.enough in
      let told : (if out then text_ok else text_fail)
          ≡ (if is_some (view layout (bytes key)) then text_ok else text_fail) =
        ap (λ b. if b then text_ok else text_fail) r.reports in
      replied (del key) (str (if out then text_ok else text_fail)) db' r.after (simp (full, run))
        (small out) r.store
        (subst (λ t. Answers (no_room (malloc db) db) layout (del key) t r.after) (sym told)
          (del_done r.reads))
        refl

  pub set_reply :
      (args key val : Slice)
      → key ≡ slice_trim (slice_splitch args 32).0
      → val ≡ slice_trim (slice_splitch args 32).1
      → (len key == 0 || len val == 0) ≡ false
      → Sets beyond rounds (malloc db) db layout key val
      → Served
          (malloc db)
          db
          client
          layout
          (set key val)
          (cmd_set realloc beyond rounds malloc client db args)
  unfolding cmd_set
  set_reply args key val first second full (inl (run, none_made)) =
      replied (set key val) (str text_fail) db layout (simp (sym first, sym second, full, run))
        (small false) s (set_full (ap no_record none_made)) refl
  set_reply args key val first second full (inr (db', run, made, b)) =
      replied (set key val) (str text_ok) db' b.after (simp (sym first, sym second, full, run))
        (small true) b.store (set_done made b.reads) refl

  pub cmd_set-malformed :
      (args : Slice)
      → (len (slice_trim (slice_splitch args 32).0) == 0
          || len (slice_trim (slice_splitch args 32).1) == 0)
        ≡ true
      → Served
          (malloc db)
          db
          client
          layout
          malformed
          (cmd_set realloc beyond rounds malloc client db args)
  unfolding cmd_set
  cmd_set-malformed args bad =
      replied malformed (str text_fail) db layout (simp bad) (small false) s no_request refl

  pub cmd_del-malformed :
      (key : Slice)
      → (len key == 0) ≡ true
      → Served
          (malloc db)
          db
          client
          layout
          malformed
          (cmd_del realloc beyond rounds malloc client db key)
  unfolding cmd_del
  cmd_del-malformed key bad =
      replied malformed (str text_fail) db layout (simp bad) (small false) s no_request refl

  pub cmd_unsupp-Served :
      (args : Slice)
      → Served
          (malloc db)
          db
          client
          layout
          unsupported
          (cmd_unsupp realloc beyond rounds malloc client db args)
  unfolding cmd_unsupp
  cmd_unsupp-Served args =
      replied unsupported (str text_unsupp) db layout refl (omega arith) s not_supported refl

  pub cmd_quit-Served :
      (args : Slice)
      → Served
          (malloc db)
          db
          client
          layout
          quit
          (cmd_quit realloc beyond rounds malloc client db args)
  unfolding cmd_quit
  cmd_quit-Served args =
      let last = record client { snd_prompt = false } in
      let r = send_rsp-Replied realloc grants last (str text_ok) v (small true) in
      let sent = send_rsp realloc last (str text_ok) in
      record {
        queued = sent.0;
        after = client_close sent.1 sent.0;
        store_after = db;
        map_after = layout;
        reply = text_ok;
        runs = refl;
        store = s;
        answers = bye;
        valid = r.valid;
        sends = r.queued;
        error = r.error;
      }
