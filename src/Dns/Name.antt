-- ===== src/Dns/Name.antt =====
-- `decode_name` and `encode_name` of src/dns_proto.c. A name is returned without its NUL, which is
-- written too, and its length is one less than the result. Every write into the buffer of `nlen`
-- bytes is measured against its end.
pub mod Total
pub mod RoundTrip
pub mod Decodes
pub mod Names
use c_db_k8s.Prelude.{
  ℕ, zero, suc, ◌+◌, ◌-◌, ◌*◌, ◌/◌, ◌%◌, ◌^◌, Bool, true, false, not, ◌&&◌, ◌||◌, Option, none,
  some, List, [], ◌∷◌, ◌++◌, Bytes, ltb, leb, ◌==◌, if◌then◌else◌, length, get_elem?, take, range,
  Run, ok, fault, stuck, ◌>>=◌,
}
use c_db_k8s.Dns.{byte_at, c_string, safe_str}

-- `enum dns_dec_error`
abbrev pub e_hdrlen : ℕ
e_hdrlen = 1

abbrev pub e_badjmp : ℕ
e_badjmp = 2

abbrev pub e_maxjmp : ℕ
e_maxjmp = 3

abbrev pub e_namelen : ℕ
e_namelen = 4

abbrev pub e_outlen : ℕ
e_outlen = 5

abbrev pub e_nonull : ℕ
e_nonull = 6

abbrev pub e_trunc : ℕ
e_trunc = 7

abbrev pub e_rdatalen : ℕ
e_rdatalen = 8

abbrev pub e_msgfmt : ℕ
e_msgfmt = 9

abbrev pub max_jmp : ℕ
max_jmp = 16

-- the local variables and `dec->offset`; `name` is what has been written
pub record NameState : Type 0 where
  pub idx : ℕ
  pub njmp : ℕ
  pub offset : ℕ
  pub out_len : ℕ
  pub name : Bytes

-- the name, or the error code
pub data Decoded : Type 0 where
  named : Bytes → Decoded
  bad : ℕ → Decoded

-- what one round does: go on, or return with `dec->offset`
pub data Round : Type 0 where
  more : NameState → Round
  ended : Decoded → ℕ → Round

-- `len` has both upper bits set, and `idx` stands at the byte behind it
unfoldable pub name_jump : Bytes → NameState → (len idx : ℕ) → Run Round
name_jump pkt s len idx =
    let offset = if s.njmp == 0 then s.offset + 2 else s.offset in
    if idx == length pkt
    then ok (ended (bad e_badjmp) s.offset)
    else if ltb max_jmp s.njmp
    then ok (ended (bad e_maxjmp) s.offset)
    else do
      low ← byte_at pkt idx
      let target = len % 64 * 2 ^ 8 + low
      if ltb target 12 || ltb (length pkt) target
          then ok (ended (bad e_badjmp) offset)
          else ok (more (record s { idx = target; njmp = s.njmp + 1; offset = offset }))

-- `pkt_idx < dec->pkt_len && dec->pkt_buf[pkt_idx]`
unfoldable pub label_follows : Bytes → ℕ → Bool
label_follows pkt idx = elim (get_elem? pkt idx) [ some b ↦ not (b == 0) | none ↦ false ]

-- bytes written behind those of the name: a write behind the `nlen` bytes of the buffer is a fault
unfoldable pub put_bytes : (nlen : ℕ) → (name bytes : Bytes) → Run Bytes
put_bytes nlen name bytes =
    if ltb nlen (length name + length bytes) then fault else ok (name ++ bytes)

-- the subtraction of two `size_t`
unfoldable pub size_minus : ℕ → ℕ → ℕ
size_minus m n = if ltb m n then m + 2 ^ 64 - n else m - n

-- a label of `len` bytes has been read: it is copied, and a dot where another label follows
unfoldable pub name_copied : (nlen : ℕ) → Bytes → NameState → (len idx offset : ℕ) → Run Round
unfolding label_follows put_bytes size_minus
name_copied nlen pkt s len idx offset = do
  copied ← put_bytes nlen s.name (range idx (idx + len) pkt)
  let left = size_minus s.out_len len
  if left == 0
      then ok (ended (bad e_outlen) offset)
      else if label_follows pkt (idx + len)
      then (do
        dotted ← put_bytes nlen copied (b'.' ∷ [])
        ok (
            more
              (record s { idx = idx + len; offset = offset; out_len = left - 1; name = dotted })))
      else ok (more (record s { idx = idx + len; offset = offset; out_len = left; name = copied }))

unfoldable pub name_label : (nlen : ℕ) → Bytes → NameState → (len idx : ℕ) → Run Round
unfolding name_copied put_bytes
name_label nlen pkt s len idx =
    let offset = if s.njmp == 0 then s.offset + (1 + len) else s.offset in
    if ltb (length pkt - idx) len
    then ok (ended (bad e_namelen) s.offset)
    else if ltb s.out_len len
    then ok (ended (bad e_outlen) s.offset)
    else if len == 0
    then (if s.out_len == 0
        then ok (ended (bad e_outlen) offset)
        else (put_bytes nlen s.name (0 ∷ []) >>= λ z. ok (ended (named s.name) offset)))
    else name_copied nlen pkt s len idx offset

-- The loop ends at its test only behind a byte that is not 0, or before it read any.
unfoldable pub name_round : (nlen : ℕ) → Bytes → NameState → Run Round
unfolding name_jump name_label
name_round nlen pkt s = if leb (length pkt) s.idx then ok (ended (bad e_nonull) s.offset) else do
  len ← byte_at pkt s.idx
  if leb 0xc0 len then name_jump pkt s len (s.idx + 1) else name_label nlen pkt s len (s.idx + 1)

unfoldable pub name_loop : ℕ → (nlen : ℕ) → Bytes → NameState → Run (Decoded × ℕ)
unfolding name_round
name_loop zero nlen pkt s = stuck
name_loop (suc rounds) nlen pkt s = do
  r ← name_round nlen pkt s
  elim r [ more s' ↦ name_loop rounds nlen pkt s' | ended d offset ↦ ok (d, offset) ]

-- A round copies a byte of the name or follows one of at most 17 pointers, and one more ends.
unfoldable pub decode_name : Bytes → (offset nlen : ℕ) → Run (Decoded × ℕ)
unfolding name_loop
decode_name pkt offset nlen =
    name_loop (nlen + (max_jmp + 3)) nlen pkt
      (record { idx = offset; njmp = 0; offset = offset; out_len = nlen; name = [] })

-- `struct dns_suffix`; its `len` is not in use
pub record Suffix : Type 0 where
  pub text : Bytes
  pub offset : ℕ

abbrev pub max_suffix : ℕ
max_suffix = 32

abbrev pub label_maxstr : ℕ
label_maxstr = 63

abbrev to_lower : ℕ → ℕ
to_lower c = if leb b'A' c && leb c b'Z' then c + 32 else c

-- `strcasecmp(s, t) == 0`
unfoldable pub case_eq : Bytes → Bytes → Bool
case_eq [] [] = true
case_eq [] (c ∷ t) = false
case_eq (c ∷ s) [] = false
case_eq (c ∷ s) (d ∷ t) = to_lower c == to_lower d && case_eq s t

-- the first suffix that stands in front of `base` and is `name`
unfoldable pub find_suffix : List Suffix → (base : ℕ) → Bytes → Option ℕ
unfolding case_eq
find_suffix [] base name = none
find_suffix (x ∷ table) base name =
    if ltb x.offset base && case_eq x.text name then some x.offset else find_suffix table base name

-- `strchr(name, '.')`: what stands in front of it, and behind it
unfoldable pub before_dot : Bytes → Bytes
before_dot [] = []
before_dot (c ∷ s) = if c == b'.' then [] else c ∷ before_dot s

unfoldable pub after_dot : Bytes → Bytes
after_dot [] = []
after_dot (c ∷ s) = if c == b'.' then s else after_dot s

-- `0xc000 | offset`, in two bytes
unfoldable pub comp_ptr : ℕ → Bytes
comp_ptr offset = let p = 0xc000 + offset % 2 ^ 14 in (p / 2 ^ 8) ∷ (p % 2 ^ 8) ∷ []

unfoldable pub add_suffix : List Suffix → Suffix → List Suffix
add_suffix table x = if ltb (length table) max_suffix then table ++ (x ∷ []) else table

-- The bytes written at `at`, and the table; `none` is an error. The copy of a label is of
-- `(uint8_t) len` bytes.
unfoldable pub encode_loop :
    ℕ → (base at : ℕ) → List Suffix → Bytes → Run (Option (Bytes × List Suffix))
encode_loop rounds base at table [] = ok (some (0 ∷ [], table))
encode_loop zero base at table (c ∷ s) = stuck
encode_loop (suc rounds) base at table (c ∷ s) = elim (find_suffix table base (c ∷ s)) [
  | some offset ↦ ok (some (comp_ptr offset, table))
  | none ↦
      let label = before_dot (c ∷ s) in
      let len = length label % 2 ^ 8 in
      let table' = add_suffix table (record { text = c ∷ s; offset = at % 2 ^ 16 }) in
      elim (ltb label_maxstr len) [
        | true ↦ ok none
        | false ↦ do
          r ← encode_loop rounds base (at + (1 + len)) table' (after_dot (c ∷ s))
          elim r [ none ↦ ok none | some (out, t) ↦ ok (some (len ∷ (take len label ++ out), t)) ]
      ]
]

-- A round takes a byte of the name.
unfoldable pub encode_name :
    (at : ℕ) → List Suffix → Option Bytes → Run (Option (Bytes × List Suffix))
unfolding encode_loop c_string
encode_name at table name = encode_loop (length (safe_str name)) at at table (safe_str name)
