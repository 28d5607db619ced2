-- ===== src/Server/Requests.antt =====
-- The protocol that src/server.c serves, without its store and buffers: the requests, and which
-- answers and changes of the map each of them allows.
use c_db_k8s.Prelude.{◌≡◌, Bool, true, false, ◌||◌, Option, none, some, Bytes, if◌then◌else◌, ◌==◌}
use c_db_k8s.Str.Slice.{Slice, bytes, len, slice_splitch, slice_trim, slice_toupper}
use c_db_k8s.Db.Chain.{same_key}
use c_db_k8s.Db.Store.{Layout, view}
use c_db_k8s.Db.Delete.{is_some}
use c_db_k8s.Server.{name_set, name_get, name_del, name_quit, text_ok, text_fail, text_unsupp}

pub data Request : Type 0 where
  set : Slice → Slice → Request
  get : Slice → Request
  del : Slice → Request
  malformed : Request
  quit : Request
  unsupported : Request

-- the key that a request is about
abbrev pub key_of : Request → Option Bytes
key_of (set k v) = some (bytes k)
key_of (get k) = some (bytes k)
key_of (del k) = some (bytes k)
key_of malformed = none
key_of quit = none
key_of unsupported = none

abbrev pub set_request : Slice → Request
set_request args =
    let (key, val) = slice_splitch args 32 in
    if len (slice_trim key) == 0 || len (slice_trim val) == 0
    then malformed
    else set (slice_trim key) (slice_trim val)

abbrev pub del_request : Slice → Request
del_request args = if len args == 0 then malformed else del args

-- a request by the name in front of the first blank, in upper or lower case
abbrev pub named : Bytes → Slice → Request
named name args =
    if same_key name name_set
    then set_request args
    else if same_key name name_get
    then get args
    else if same_key name name_del
    then del_request args
    else if same_key name name_quit
    then quit
    else unsupported

abbrev pub request : Slice → Request
request line =
    let (token, rest) = slice_splitch line 32 in
    named (bytes (slice_toupper token)) (slice_trim rest)

abbrev pub shown : Option Bytes → Bytes
shown none = text_fail
shown (some v) = v

-- the answer to a request on a map, and the map behind it; `no_room` says of a key and a value that no
-- record can be made for them
pub data Answers (no_room : Bytes → Bytes → Bool) (layout : Layout)
    : Request → Bytes → Layout → Type 0 where
  set_done :
      {k v : Slice} {after : Layout}
      → no_room (bytes k) (bytes v) ≡ false
      → ((q : Bytes)
          → view after q ≡ (if same_key q (bytes k) then some (bytes v) else view layout q))
      → Answers no_room layout (set k v) text_ok after
  set_full :
      {k v : Slice}
      → no_room (bytes k) (bytes v) ≡ true
      → Answers no_room layout (set k v) text_fail layout
  get_done : {k : Slice} → Answers no_room layout (get k) (shown (view layout (bytes k))) layout
  del_done :
      {k : Slice} {after : Layout}
      → ((q : Bytes) → view after q ≡ (if same_key q (bytes k) then none else view layout q))
      → Answers no_room layout
          (del k)
          (if is_some (view layout (bytes k)) then text_ok else text_fail)
          after
  no_request : Answers no_room layout malformed text_fail layout
  bye : Answers no_room layout quit text_ok layout
  not_supported : Answers no_room layout unsupported text_unsupp layout
