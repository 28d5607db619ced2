-- ===== src/Dns.antt =====
-- src/dns_proto.h and src/dns_proto.c: the messages of the domain name system. A `char *` into the
-- store of names of a message is the string that stands there, and `none` if it is null.
pub mod Name
pub mod Decode
pub mod Encode
pub mod Build
pub mod Query
pub mod Tables
use c_db_k8s.Prelude.{
  ℕ, zero, suc, ◌+◌, ◌%◌, ◌^◌, Bool, true, false, ◌||◌, Option, none, some, List, [], ◌∷◌, ◌++◌,
  Bytes, ltb, leb, ◌==◌, if◌then◌else◌, length, replicate, get_elem?, take, drop, Run, ok, fault,
  ◌>>=◌, leb,
}
use c_db_k8s.Str.Codec.{dec_u16, dec_u32}

-- `struct dns_hdr`
pub record DnsHdr : Type 0 where
  pub id : ℕ
  pub flags : ℕ
  pub qd_count : ℕ
  pub an_count : ℕ
  pub ns_count : ℕ
  pub ar_count : ℕ

-- `struct dns_qd`
pub record Question : Type 0 where
  pub qname : Option Bytes
  pub qtype : ℕ
  pub qclass : ℕ

-- the union `rdata` of `struct dns_rr`, by the member that was written last
pub data Rdata : Type 0 where
  unset : Rdata
  a : Bytes → Rdata
  ns_name cname ptr_name : Option Bytes → Rdata
  soa : (mname rname : Option Bytes) (serial refresh retry expire min_ttl : ℕ) → Rdata
  hinfo : (cpu_str os_str : Option Bytes) → Rdata
  mx : (pref : ℕ) (name : Option Bytes) → Rdata
  txt : List (Option Bytes) → Rdata
  aaaa : Bytes → Rdata
  srv : (prior weight port : ℕ) (name : Option Bytes) → Rdata
  opt : (udp_size ext_rcode edns_ver do_bit z_bits : ℕ) → Rdata

-- `struct dns_rr`; `class` is `rclass`
pub record Rr : Type 0 where
  pub name : Option Bytes
  pub type : ℕ
  pub rclass : ℕ
  pub ttl : ℕ
  pub rdlen : ℕ
  pub rdata : Rdata

abbrev pub rr_zero : Rr
rr_zero = record { name = none; type = 0; rclass = 0; ttl = 0; rdlen = 0; rdata = unset }

-- `struct dns_sect`: the array of a section and the number of records in use
pub record Sect : Type 0 where
  pub base : List Rr
  pub count : ℕ

-- `struct dns_msg`; `names_len` is how much of the store of names is used, and the array `qd` with
-- `qd_len` is the list of the questions in use
pub record DnsMsg : Type 0 where
  pub hdr : DnsHdr
  pub names_len : ℕ
  pub qd : List Question
  pub an : Sect
  pub ns : Sect
  pub ar : Sect

abbrev pub max_pdusize : ℕ
max_pdusize = 2048

abbrev pub name_maxstr : ℕ
name_maxstr = 253

abbrev pub max_rr : ℕ
max_rr = 32

abbrev pub max_qd : ℕ
max_qd = 1

abbrev pub max_txt : ℕ
max_txt = 32

abbrev pub hdr_zero : DnsHdr
hdr_zero = record { id = 0; flags = 0; qd_count = 0; an_count = 0; ns_count = 0; ar_count = 0 }

unfoldable pub dns_hdr_reset : DnsHdr → DnsHdr
dns_hdr_reset hdr = hdr_zero

unfoldable pub dns_hdr_init : DnsHdr → (id flags : ℕ) → DnsHdr
dns_hdr_init hdr id flags = record hdr { id = id; flags = flags }

unfoldable pub dns_msg_reset : DnsMsg → DnsMsg
unfolding dns_hdr_reset
dns_msg_reset msg = record msg {
  hdr = dns_hdr_reset msg.hdr;
  names_len = 0;
  qd = [];
  an = record msg.an { count = 0 };
  ns = record msg.ns { count = 0 };
  ar = record msg.ar { count = 0 };
}

unfoldable pub dns_msg_init : DnsMsg → (id flags : ℕ) → DnsMsg
unfolding dns_hdr_init
dns_msg_init msg id flags = record msg { hdr = dns_hdr_init msg.hdr id flags }

unfoldable pub dns_cnt_rr : DnsMsg → ℕ
dns_cnt_rr msg = msg.an.count + msg.ns.count + msg.ar.count

unfoldable pub dns_get_rr : DnsMsg → Option Rr
dns_get_rr msg =
    if ltb 0 msg.an.count
    then get_elem? msg.an.base 0
    else if ltb 0 msg.ns.count
    then get_elem? msg.ns.base 0
    else if ltb 0 msg.ar.count
    then get_elem? msg.ar.base 0
    else none

-- `struct dns_msg msg = { 0 }`
abbrev pub sect_zero : Sect
sect_zero = record { base = replicate 32 rr_zero; count = 0 }

abbrev pub msg_zero : DnsMsg
msg_zero = record {
  hdr = hdr_zero;
  names_len = 0;
  qd = [];
  an = sect_zero;
  ns = sect_zero;
  ar = sect_zero;
}

-- what a reader of a C string sees: the bytes in front of the first NUL
unfoldable pub c_string : Bytes → Bytes
c_string [] = []
c_string (c ∷ s) = if c == 0 then [] else c ∷ c_string s

-- The string `str` of `len` bytes is copied behind the names in use.
unfoldable pub msg_store_str : DnsMsg → Bytes → DnsMsg × Option Bytes
unfolding c_string
msg_store_str msg str =
    if ltb name_maxstr (length str)
    then (msg, none)
    else if ltb max_pdusize (msg.names_len + length str + 1)
    then (msg, none)
    else (record msg { names_len = msg.names_len + length str + 1 }, some (c_string str))

-- `safe_strlen`: a null pointer is the empty string
abbrev pub safe_str : Option Bytes → Bytes
safe_str none = []
safe_str (some s) = c_string s

unfoldable pub msg_store_name : DnsMsg → Option Bytes → DnsMsg × Option Bytes
unfolding msg_store_str c_string
msg_store_name msg name = msg_store_str msg (safe_str name)

-- reads of a packet
abbrev pub byte_at : Bytes → ℕ → Run ℕ
byte_at pkt i = elim (get_elem? pkt i) [ some b ↦ ok b | none ↦ fault ]

unfoldable pub u16_at : Bytes → ℕ → Run ℕ
unfolding dec_u16
u16_at pkt i = do b0 ← byte_at pkt i; b1 ← byte_at pkt (i + 1); ok (dec_u16 b0 b1)

unfoldable pub u32_at : Bytes → ℕ → Run ℕ
unfolding dec_u32
u32_at pkt i = do
  b0 ← byte_at pkt i
  b1 ← byte_at pkt (i + 1)
  b2 ← byte_at pkt (i + 2)
  b3 ← byte_at pkt (i + 3)
  ok (dec_u32 b0 b1 b2 b3)

-- `memcpy` out of a packet
unfoldable pub copy_at : Bytes → (i n : ℕ) → Run Bytes
copy_at pkt i n = if leb (i + n) (length pkt) then ok (take n (drop i pkt)) else fault

-- with the result 1, `DNS_EHDRLEN`, if the packet is too short
unfoldable pub dns_hdr_decode : DnsHdr → Bytes → Run (ℕ × DnsHdr)
unfolding u16_at
dns_hdr_decode hdr buf = if ltb (length buf) 12 then ok (1, hdr) else do
  id ← u16_at buf 0
  flags ← u16_at buf 2
  qd_count ← u16_at buf 4
  an_count ← u16_at buf 6
  ns_count ← u16_at buf 8
  ar_count ← u16_at buf 10
  ok (
    0,
    record {
      id = id;
      flags = flags;
      qd_count = qd_count;
      an_count = an_count;
      ns_count = ns_count;
      ar_count = ar_count;
    },
  )
