-- ===== src/Dns/Encode.antt =====
-- src/dns_proto.c: the encoder. `pkt_buf` is the memory of the caller, and `wptr` is an index.
use c_db_k8s.Prelude.{
  ℕ, zero, suc, ◌+◌, ◌-◌, ◌*◌, ◌%◌, ◌^◌, Option, none, some, List, [], ◌∷◌, ◌++◌, Bytes, ltb, ◌==◌,
  if◌then◌else◌, length, write_at, Run, ok, fault, stuck,
}
use c_db_k8s.Str.Codec.{enc_u16, enc_u32}
use c_db_k8s.Dns.{
  DnsHdr, Question, Rr, Rdata, DnsMsg, safe_str, unset, a, ns_name, cname, ptr_name, soa, hinfo, mx,
  txt, aaaa, srv, opt,
}
use c_db_k8s.Dns.Name.{Suffix, encode_name}

-- `struct dns_enc`
pub record Enc : Type 0 where
  pub pkt_buf : Bytes
  pub pkt_max : ℕ
  pub pkt_len : ℕ
  pub suffix : List Suffix

-- a routine goes on, or returns -1
abbrev pub Encoder : Type 0 → Type 0
Encoder A = Enc → Run (Option (A × Enc))

abbrev pub after : {A B : Type 0} → (A → Encoder B) → Option (A × Enc) → Run (Option (B × Enc))
after f none = ok none
after f (some (x, e)) = f x e

infixl 5 ◌>>=◌ ◌>>◌
abbrev pub ◌>>=◌ : {A B : Type 0} → Encoder A → (A → Encoder B) → Encoder B
◌>>=◌ m f e = elim (m e) [ ok r ↦ after f r | fault ↦ fault | stuck ↦ stuck ]

abbrev pub ◌>>◌ : {A B : Type 0} → Encoder A → Encoder B → Encoder B
m >> n = m >>= λ _. n

abbrev pub pure : {A : Type 0} → A → Encoder A
pure x e = ok (some (x, e))

abbrev pub here : Encoder ℕ
here e = ok (some (e.pkt_len, e))

-- the space starts where the packet ended
unfoldable pub dns_enc_mkspace : ℕ → Encoder ℕ
dns_enc_mkspace len e =
    if ltb e.pkt_max (e.pkt_len + len)
    then ok none
    else ok (some (e.pkt_len, record e { pkt_len = e.pkt_len + len }))

-- `dns_enc_retspace(enc, len - used)`, where the difference is a `size_t`
unfoldable pub dns_enc_retspace : (len used : ℕ) → Encoder (Unit {0})
dns_enc_retspace len used e =
    let n = (len + 2 ^ 64 - used) % 2 ^ 64 in
    if ltb e.pkt_len n then ok none else ok (some (tt, record e { pkt_len = e.pkt_len - n }))

-- a write to the memory
unfoldable pub put : ℕ → Bytes → Encoder (Unit {0})
put at bytes e =
    if ltb (length e.pkt_buf) (at + length bytes)
    then fault
    else ok (some (tt, record e { pkt_buf = write_at at bytes e.pkt_buf }))

-- `encode_name` to `at`; the result is the end of what it wrote
unfoldable pub put_name : ℕ → Option Bytes → Encoder ℕ
unfolding put
put_name at name e = elim (encode_name at e.suffix name) [
  | ok none ↦ ok none
  | ok (some (bytes, table)) ↦
      (put at bytes >> pure (at + length bytes)) (record e { suffix = table })
  | fault ↦ fault
  | stuck ↦ stuck
]

abbrev pub name_maxlen : ℕ
name_maxlen = 255

unfoldable pub dns_enc_quest : Question → Encoder (Unit {0})
unfolding dns_enc_mkspace dns_enc_retspace put_name
dns_enc_quest quest = do
  let len = name_maxlen + 4
  wbuf ← dns_enc_mkspace len
  wptr ← put_name wbuf quest.qname
  put wptr (enc_u16 quest.qtype ++ enc_u16 quest.qclass)
  dns_enc_retspace len (wptr + 4 - wbuf)

unfoldable pub dns_enc_name : Option Bytes → Encoder (Unit {0})
unfolding dns_enc_mkspace dns_enc_retspace put_name
dns_enc_name name = do
  wbuf ← dns_enc_mkspace name_maxlen
  wptr ← put_name wbuf name
  dns_enc_retspace name_maxlen (wptr - wbuf)

unfoldable pub dns_enc_mem : Bytes → Encoder (Unit {0})
unfolding dns_enc_mkspace put
dns_enc_mem mem = do wbuf ← dns_enc_mkspace (length mem); put wbuf mem

unfoldable pub dns_enc_str : Option Bytes → Encoder (Unit {0})
unfolding dns_enc_mkspace put
dns_enc_str s = do
  let len = length (safe_str s)
  wbuf ← dns_enc_mkspace (len + 1)
  put wbuf ((len % 2 ^ 8) ∷ [])
  put (wbuf + 1) (safe_str s)

unfoldable pub encode_soa :
    (mname rname : Option Bytes) (serial refresh retry expire min_ttl : ℕ) → Encoder (Unit {0})
unfolding dns_enc_name dns_enc_mkspace put
encode_soa mname rname serial refresh retry expire min_ttl = do
  dns_enc_name mname
  dns_enc_name rname
  wptr ← dns_enc_mkspace 20
  put wptr (
      enc_u32 serial ++ (enc_u32 refresh ++ (enc_u32 retry ++ (enc_u32 expire ++ enc_u32 min_ttl))))

-- `wptr` is not moved behind the first string.
unfoldable pub encode_hinfo : (cpu_str os_str : Option Bytes) → Encoder (Unit {0})
unfolding dns_enc_mkspace put
encode_hinfo cpu_str os_str = do
  let len_cpu = length (safe_str cpu_str)
  let len_os = length (safe_str os_str)
  wptr ← dns_enc_mkspace (2 + len_cpu + len_os)
  put wptr ((len_cpu % 2 ^ 8) ∷ [])
  put (wptr + 1) (safe_str cpu_str)
  put (wptr + 1) ((len_os % 2 ^ 8) ∷ [])
  put (wptr + 2) (safe_str os_str)

-- The space is that of a `uint32_t`.
unfoldable pub encode_mx : (pref : ℕ) (name : Option Bytes) → Encoder (Unit {0})
unfolding dns_enc_name dns_enc_mkspace put
encode_mx pref name = do wptr ← dns_enc_mkspace 4; put wptr (enc_u16 pref); dns_enc_name name

unfoldable pub encode_txt : List (Option Bytes) → Encoder (Unit {0})
unfolding dns_enc_str
encode_txt [] = pure tt
encode_txt (s ∷ strs) = dns_enc_str s >> encode_txt strs

-- The space is 2 bytes, and 6 are written.
unfoldable pub encode_srv : (prior weight port : ℕ) (name : Option Bytes) → Encoder (Unit {0})
unfolding dns_enc_name dns_enc_mkspace put
encode_srv prior weight port name = do
  wptr ← dns_enc_mkspace 2
  put wptr (enc_u16 prior ++ (enc_u16 weight ++ enc_u16 port))
  dns_enc_name name

-- the fields of `ttl` do not overlap, so `|=` adds them; `rdlen_ptr - 6` is the class
unfoldable pub encode_opt :
    (rdlen_ptr udp_size ext_rcode edns_ver do_bit z_bits : ℕ) → Encoder (Unit {0})
unfolding put
encode_opt rdlen_ptr udp_size ext_rcode edns_ver do_bit z_bits =
    let bit = if do_bit == 0 then 0 else 0x8000 in
    let ttl = ext_rcode * 2 ^ 24 + edns_ver * 2 ^ 16 + bit + z_bits % 2 ^ 15 in
    put (rdlen_ptr - 6) (enc_u16 udp_size ++ enc_u16 ttl)

unfoldable pub encode_rdata : (rdlen_ptr : ℕ) → Rdata → Encoder (Unit {0})
unfolding dns_enc_name dns_enc_mem encode_soa encode_hinfo encode_mx encode_txt encode_srv
    encode_opt
encode_rdata rdlen_ptr unset = pure tt
encode_rdata rdlen_ptr (a bytes) = dns_enc_mem bytes
encode_rdata rdlen_ptr (ns_name s) = dns_enc_name s
encode_rdata rdlen_ptr (cname s) = dns_enc_name s
encode_rdata rdlen_ptr (ptr_name s) = dns_enc_name s
encode_rdata rdlen_ptr (soa mname rname serial refresh retry expire min_ttl) =
    encode_soa mname rname serial refresh retry expire min_ttl
encode_rdata rdlen_ptr (hinfo cpu_str os_str) = encode_hinfo cpu_str os_str
encode_rdata rdlen_ptr (mx pref name) = encode_mx pref name
encode_rdata rdlen_ptr (txt strs) = encode_txt strs
encode_rdata rdlen_ptr (aaaa bytes) = dns_enc_mem bytes
encode_rdata rdlen_ptr (srv prior weight port name) = encode_srv prior weight port name
encode_rdata rdlen_ptr (opt udp_size ext_rcode edns_ver do_bit z_bits) =
    encode_opt rdlen_ptr udp_size ext_rcode edns_ver do_bit z_bits

-- the type of the record that a member of the union is for
unfoldable pub type_of : Rdata → ℕ
type_of unset = 0
type_of (a _) = 1
type_of (ns_name _) = 2
type_of (cname _) = 5
type_of (soa _ _ _ _ _ _ _) = 6
type_of (ptr_name _) = 12
type_of (hinfo _ _) = 13
type_of (mx _ _) = 15
type_of (txt _) = 16
type_of (aaaa _) = 28
type_of (srv _ _ _ _) = 33
type_of (opt _ _ _ _ _) = 41

-- `punned` is what the union reads as the member of a type, where another one was written last, and
-- `unset` for a type without one
module _ (punned : ℕ → Rdata → Rdata) where
  unfoldable pub member : ℕ → Rdata → Rdata
  unfolding type_of
  member type r = if type_of r == type then r else punned type r

  unfoldable pub dns_rr_encode : Rr → Encoder (Unit {0})
  unfolding dns_enc_mkspace dns_enc_retspace put_name put encode_rdata member
  dns_rr_encode rr = do
    let len = name_maxlen + 10
    wbuf ← dns_enc_mkspace len
    wptr ← put_name wbuf rr.name
    put wptr (enc_u16 rr.type ++ (enc_u16 rr.rclass ++ (enc_u32 rr.ttl ++ enc_u16 0)))
    dns_enc_retspace len (wptr + 10 - wbuf)
    pkt_len ← here
    encode_rdata (wptr + 8) (member rr.type rr.rdata)
    end ← here
    put (wptr + 8) (enc_u16 ((end + 2 ^ 16 - pkt_len % 2 ^ 16) % 2 ^ 16))

  -- `n` records from the front of the array
  unfoldable pub dns_sect_enc : ℕ → List Rr → Encoder (Unit {0})
  unfolding dns_rr_encode
  dns_sect_enc zero rrs = pure tt
  dns_sect_enc (suc n) [] = λ e. fault
  dns_sect_enc (suc n) (r ∷ rrs) = dns_rr_encode r >> dns_sect_enc n rrs

unfoldable pub encode_qd : List Question → Encoder (Unit {0})
unfolding dns_enc_quest
encode_qd [] = pure tt
encode_qd (quest ∷ qd) = dns_enc_quest quest >> encode_qd qd

-- the counts of the header are those of the message
unfoldable pub sync_hdr : DnsMsg → DnsMsg
sync_hdr msg = record msg {
  hdr = record msg.hdr {
    qd_count = length msg.qd;
    an_count = msg.an.count;
    ns_count = msg.ns.count;
    ar_count = msg.ar.count;
  };
}

unfoldable pub hdr_bytes : DnsHdr → Bytes
hdr_bytes hdr =
    enc_u16 hdr.id
    ++ (enc_u16 hdr.flags
        ++ (enc_u16 hdr.qd_count
            ++ (enc_u16 hdr.an_count ++ (enc_u16 hdr.ns_count ++ enc_u16 hdr.ar_count))))

unfoldable pub encode_hdr : DnsHdr → Encoder (Unit {0})
unfolding dns_enc_mkspace put hdr_bytes
encode_hdr hdr = do wbuf ← dns_enc_mkspace 12; put wbuf (hdr_bytes hdr)

module _ (punned : ℕ → Rdata → Rdata) where
  unfoldable pub encode_msg : DnsMsg → Encoder (Unit {0})
  unfolding encode_hdr encode_qd dns_sect_enc
  encode_msg msg = do
    encode_hdr msg.hdr
    encode_qd msg.qd
    dns_sect_enc punned msg.an.count msg.an.base
    dns_sect_enc punned msg.ns.count msg.ns.base
    dns_sect_enc punned msg.ar.count msg.ar.base

  -- The message is left with the counts in its header; `none` is the result -1, and the length of
  -- the packet is `pkt_len` otherwise.
  unfoldable pub dns_msg_encode : DnsMsg → (buf : Bytes) → (len : ℕ) → DnsMsg × Run (Option Enc)
  unfolding encode_msg sync_hdr
  dns_msg_encode msg buf len =
      let synced = sync_hdr msg in
      let start : Enc = record { pkt_buf = buf; pkt_max = len; pkt_len = 0; suffix = [] } in
      (
        synced,
        elim (encode_msg synced start) [
          | ok none ↦ ok none
          | ok (some (u, e)) ↦ ok (some e)
          | fault ↦ fault
          | stuck ↦ stuck
        ],
      )
