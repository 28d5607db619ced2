-- ===== src/Server/Serves.antt =====
-- `process_line` of src/server.c against the protocol.
use c_db_k8s.Prelude.{ℕ, ◌≡◌, Bool, some, Bytes}
use c_db_k8s.Str.Slice.{Slice}
use c_db_k8s.Rwbuf.Valid.{IsValid, Grants}
use c_db_k8s.Db.{Db}
use c_db_k8s.Db.Store.{Layout, IsStore}
use c_db_k8s.Server.{Client}
use c_db_k8s.Server.Requests.{Request, key_of}
use c_db_k8s.Server.Commands.{Ready}

module _ (realloc : ℕ → Bool) (beyond : ℕ → ℕ → ℕ) (rounds : ℕ) (malloc : Db → ℕ)
    (grants : Grants realloc) (client : Client) (db : Db) (layout : Layout)
    (v : IsValid client.sock.send_buf) (s : IsStore db layout) where
  -- every request
  Asked : Request → Type 0
  Asked ask =
      (k : Bytes)
      → key_of ask ≡ some k
      → Ready realloc beyond rounds malloc grants client db layout v s k
