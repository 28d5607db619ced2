-- ===== src/Dns/Build.antt =====
-- src/dns_proto.c: questions and records are added to a message. `false` is the result -1. What a call
-- that fails leaves in the array behind the records in use is not modelled.
pub mod Valid
pub mod Texts
pub mod Adds
use c_db_k8s.Prelude.{
  ℕ, zero, suc, ◌+◌, Bool, true, false, Option, none, some, List, [], ◌∷◌, ◌++◌, Bytes, ltb, leb,
  ◌==◌, if◌then◌else◌, length, get_elem?,
}
use c_db_k8s.Dns.{
  Question, Rr, Rdata, Sect, DnsMsg, max_qd, max_rr, max_txt, msg_store_str, msg_store_name,
  rr_zero, unset, a, ns_name, cname, ptr_name, soa, hinfo, mx, txt, aaaa, srv, opt,
}
use c_db_k8s.Dns.Decode.{Section, answer, authority, additional, sect_of, put_sect, set_rr}
use c_db_k8s.Dns.Encode.{member}

-- the result, and the message
abbrev pub Outcome : Type 0
Outcome = Bool × DnsMsg

-- The question is behind the others if its name is stored.
unfoldable pub add_question : DnsMsg × Option Bytes → (qtype qclass : ℕ) → Outcome
add_question (msg, none) qtype qclass = (false, msg)
add_question (msg, some s) qtype qclass = (
  true,
  record msg { qd = msg.qd ++ (record { qname = some s; qtype = qtype; qclass = qclass } ∷ []) },
)

unfoldable pub dns_add_qdn : DnsMsg → (qname : Bytes) → (qtype qclass : ℕ) → Outcome
unfolding add_question
dns_add_qdn msg qname qtype qclass =
    if leb max_qd (length msg.qd)
    then (false, msg)
    else add_question (msg_store_str msg qname) qtype qclass

-- What is stored of the data of a record: the copy with what its names became, if none is null. The
-- second name of a `soa` and the strings of a `hinfo` are not tested.
unfoldable pub store_one : DnsMsg → (Option Bytes → Rdata) → Option Bytes → DnsMsg × Option Rdata
store_one msg put s =
    let r = msg_store_name msg s in (r.0, elim (r.1) [ none ↦ none | some t ↦ some (put (some t)) ])

-- the strings go behind those that the record holds
unfoldable pub store_txt :
    DnsMsg → (had : List (Option Bytes)) → List (Option Bytes) → DnsMsg × Option Rdata
store_txt msg had [] = (msg, some (txt had))
store_txt msg had (s ∷ strs) =
    let r = msg_store_name msg s in
    let rest = store_txt r.0 (had ++ (r.1 ∷ [])) strs in
    if leb max_txt (length had)
    then (msg, none)
    else (elim (r.1) [ none ↦ (r.0, none) | some t ↦ rest ])

-- `held` are the strings that the union of the new record reads as those of a `txt`, and `z` is what
-- it reads as `z_bits`: these are not written.
unfoldable pub store_rdata :
    DnsMsg → (held : List (Option Bytes)) → (z : ℕ) → Rdata → DnsMsg × Option Rdata
unfolding store_one store_txt
store_rdata msg held z unset = (msg, some unset)
store_rdata msg held z (a bytes) = (msg, some (a bytes))
store_rdata msg held z (ns_name s) = store_one msg ns_name s
store_rdata msg held z (cname s) = store_one msg cname s
store_rdata msg held z (ptr_name s) = store_one msg ptr_name s
store_rdata msg held z (soa mname rname serial refresh retry expire min_ttl) =
    let r = msg_store_name msg mname in
    elim (r.1) [
      | none ↦ (r.0, none)
      | some m ↦
          let r' = msg_store_name r.0 rname in
          (r'.0, some (soa (some m) r'.1 serial refresh retry expire min_ttl))
    ]
store_rdata msg held z (hinfo cpu_str os_str) =
    let r = msg_store_name msg cpu_str in
    let r' = msg_store_name r.0 os_str in (r'.0, some (hinfo r.1 r'.1))
store_rdata msg held z (mx pref name) = store_one msg (mx pref) name
store_rdata msg held z (txt strs) = store_txt msg held strs
store_rdata msg held z (aaaa bytes) = (msg, some (aaaa bytes))
store_rdata msg held z (srv prior weight port name) = store_one msg (srv prior weight port) name
store_rdata msg held z (opt udp_size ext_rcode edns_ver do_bit z_bits) =
    (msg, some (opt udp_size ext_rcode edns_ver do_bit z))

-- the record is written behind those in use, and counted; `rdlen` is not written
unfoldable pub add_record : Section → DnsMsg → (name : Option Bytes) → Rr → Rdata → DnsMsg
unfolding set_rr
add_record sc msg name src rdata =
    let s = sect_of sc msg in
    let old : ℕ = elim (get_elem? s.base s.count) [ some r ↦ r.rdlen | none ↦ 0 ] in
    let r : Rr = record {
      name = name;
      type = src.type;
      rclass = src.rclass;
      ttl = src.ttl;
      rdlen = old;
      rdata = rdata;
    } in
    put_sect sc msg (record { base = set_rr s.base s.count r; count = s.count + 1 })

-- `punned` is as in the encoder
module _ (punned : ℕ → Rdata → Rdata) (held : List (Option Bytes)) (z : ℕ) where
  unfoldable pub dns_sect_add_rr : DnsMsg → Section → Option Rr → Outcome
  unfolding store_rdata add_record member
  dns_sect_add_rr msg sc none = (true, msg)
  dns_sect_add_rr msg sc (some src) =
      let named = msg_store_name msg src.name in
      let stored = store_rdata named.0 held z (member punned src.type src.rdata) in
      if leb max_rr (sect_of sc msg).count then (false, msg) else (elim (named.1) [
        | none ↦ (false, named.0)
        | some name ↦ elim (stored.1) [
          | none ↦ (false, stored.0)
          | some rdata ↦ (true, add_record sc stored.0 (some name) src rdata)
        ]
      ])

  -- `sc` is a section, or `none` for any other number
  unfoldable pub dns_add_rr : DnsMsg → Option Section → Option Rr → Outcome
  unfolding dns_sect_add_rr
  dns_add_rr msg none rr = (false, msg)
  dns_add_rr msg (some sc) rr = dns_sect_add_rr msg sc rr
