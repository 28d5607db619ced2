-- ===== src/Dns/Decode.antt =====
-- src/dns_proto.c: the decoder as `dns_msg_decode` runs it, with `load_msg` set and without a text
-- about the message. A routine goes on with a value or leaves with what it returns.
pub mod Cases
pub mod Records
pub mod Stores
pub mod Rules
pub mod Reads
pub mod Safe
pub mod Texts
pub mod Record
pub mod Sections
pub mod Start
pub mod Message
use c_db_k8s.Prelude.{
  ℕ, zero, suc, ◌+◌, ◌-◌, ◌%◌, ◌^◌, Bool, true, false, Option, none, some, List, [], ◌∷◌, ◌++◌,
  Bytes, ltb, leb, ◌==◌, if◌then◌else◌, length, get_elem?, Run, ok, fault, stuck,
}
use c_db_k8s.Dns.{
  Rr, Rdata, Sect, DnsMsg, max_rr, c_string, msg_store_str, copy_at, u16_at, u32_at, byte_at, unset,
  txt,
}
use c_db_k8s.Dns.Name.{Decoded, named, bad, decode_name}

-- `enum dns_location`
pub data Location : Type 0 where
  at_pdu at_hdr at_qd at_an at_ns at_ar at_rr at_rdata at_name : Location
  at_a at_tns at_cname at_soa at_ptr at_hinfo at_mx at_txt at_aaaa at_srv at_opt : Location

-- `struct dns_err`; `dns_qd_decode` stores its code with the sign, which `dns_ec_tostr` drops
pub record DnsErr : Type 0 where
  pub group : Location
  pub field : Location
  pub ec : ℕ

abbrev pub max_emsg : ℕ
max_emsg = 10

-- `struct dns_dec`; the last error stands last, and `nerr` is their number
pub record Decoder : Type 0 where
  pub pkt_buf : Bytes
  pub offset : ℕ
  pub errs : List DnsErr
  pub got_edns : Bool
  pub udp_size : ℕ
  pub ext_rcode : ℕ
  pub edns_ver : ℕ
  pub dnssec_ok : Bool

pub record Ctx : Type 0 where
  pub dec : Decoder
  pub msg : DnsMsg

-- what a C function returns: a number from 0, or -1
pub data Ret : Type 0 where
  ret : ℕ → Ret
  ret_fail : Ret

pub data Exit (A : Type 0) : Type 0 where
  goes : A → Ctx → Exit A
  leaves : Ret → Ctx → Exit A

abbrev pub Routine : Type 0 → Type 0
Routine A = Ctx → Run (Exit A)

-- what happens behind a routine
abbrev pub resume : {A B : Type 0} → (A → Routine B) → Exit A → Run (Exit B)
resume f (goes a c) = f a c
resume f (leaves r c) = ok (leaves r c)

infixl 5 ◌>>=◌ ◌>>◌
abbrev pub ◌>>=◌ : {A B : Type 0} → Routine A → (A → Routine B) → Routine B
◌>>=◌ m f c = elim (m c) [ ok e ↦ resume f e | fault ↦ fault | stuck ↦ stuck ]

abbrev pub ◌>>◌ : {A B : Type 0} → Routine A → Routine B → Routine B
m >> n = m >>= λ _. n

abbrev pub pure : {A : Type 0} → A → Routine A
pure a c = ok (goes a c)

abbrev pub leave : {A : Type 0} → Ret → Routine A
leave r c = ok (leaves r c)

-- `dns_dec_err`
unfoldable pub dns_dec_err : Ctx → (group field : Location) → ℕ → Ret × Ctx
dns_dec_err c group field ec = if leb max_emsg (length c.dec.errs) then (ret_fail, c) else (
  ret 0,
  record c {
    dec = record c.dec {
      errs = c.dec.errs ++ (record { group = group; field = field; ec = ec } ∷ []);
    };
  },
)

-- `return dns_dec_err(...)`
unfoldable pub dec_err : {A : Type 0} → (group field : Location) → ℕ → Routine A
unfolding dns_dec_err
dec_err group field ec c = let r = dns_dec_err c group field ec in ok (leaves r.0 r.1)

abbrev pub set_offset : Ctx → ℕ → Ctx
set_offset c offset = record c { dec = record c.dec { offset = offset } }

-- `dec->offset += n`
unfoldable pub advance : ℕ → Routine (Unit {0})
advance n c = ok (goes tt (set_offset c (c.dec.offset + n)))

abbrev pub offset_now : Routine ℕ
offset_now c = ok (goes c.dec.offset c)

-- a read of the packet `k` behind `dec->offset`
unfoldable pub reads : {A : Type 0} → (Bytes → ℕ → Run A) → ℕ → Routine A
reads read k c = elim (read c.dec.pkt_buf (c.dec.offset + k)) [
  | ok a ↦ ok (goes a c)
  | fault ↦ fault
  | stuck ↦ stuck
]

-- the buffer `dec->msg`
abbrev pub dns_msg_size : ℕ
dns_msg_size = 1124

-- `decode_name` to the position `w` of `dec->msg`
unfoldable pub decode_name_at : (group field : Location) → (w : ℕ) → Routine Bytes
unfolding dec_err
decode_name_at group field w c = elim (decode_name c.dec.pkt_buf c.dec.offset (dns_msg_size - w)) [
  | ok r ↦ elim (r.0) [
    | named name ↦ ok (goes name (set_offset c r.1))
    | bad ec ↦ dec_err group field ec (set_offset c r.1)
  ]
  | fault ↦ fault
  | stuck ↦ stuck
]

-- `fix_label` behind it: the root is a dot
unfoldable pub fix_label : (w : ℕ) → Bytes → Routine Bytes
fix_label w [] c =
    if ltb (dns_msg_size - w) 2 then ok (leaves ret_fail c) else ok (goes (b'.' ∷ []) c)
fix_label w (x ∷ name) c = ok (goes (x ∷ name) c)

-- the three sections, by `DNS_AN`, `DNS_NS` and `DNS_AR`
pub data Section : Type 0 where
  answer authority additional : Section

abbrev pub sect_of : Section → DnsMsg → Sect
sect_of answer msg = msg.an
sect_of authority msg = msg.ns
sect_of additional msg = msg.ar

abbrev pub put_sect : Section → DnsMsg → Sect → DnsMsg
put_sect answer msg s = record msg { an = s }
put_sect authority msg s = record msg { ns = s }
put_sect additional msg s = record msg { ar = s }

unfoldable pub set_rr : List Rr → ℕ → Rr → List Rr
set_rr [] i r = []
set_rr (x ∷ xs) zero r = r ∷ xs
set_rr (x ∷ xs) (suc i) r = x ∷ set_rr xs i r

-- `sect->base[*sect->count]`
unfoldable pub get_slot : Section → Routine Rr
get_slot sc c = elim (get_elem? (sect_of sc c.msg).base (sect_of sc c.msg).count) [
  | some r ↦ ok (goes r c)
  | none ↦ fault
]

unfoldable pub put_slot : Section → Rr → Routine (Unit {0})
unfolding set_rr
put_slot sc r c =
    let s = sect_of sc c.msg in
    ok
      (goes tt (record c { msg = put_sect sc c.msg (record s { base = set_rr s.base s.count r }) }))

-- a store to fields of the record
unfoldable pub edit : Section → (Rr → Rr) → Routine (Unit {0})
unfolding get_slot put_slot
edit sc f = do r ← get_slot sc; put_slot sc (f r)

unfoldable pub set_rdata : Section → Rdata → Routine (Unit {0})
unfolding edit
set_rdata sc rdata = edit sc (λ r. record r { rdata = rdata })

-- The string is stored, its pointer goes where `put` says, and a null pointer ends the routine.
unfoldable pub store_str : Bytes → (Option Bytes → Routine (Unit {0})) → Routine (Option Bytes)
store_str str put c =
    let r = msg_store_str c.msg str in
    (put r.1 >>= λ _. elim (r.1) [ none ↦ leave ret_fail | some s ↦ pure (some s) ])
      (record c { msg = r.0 })

-- `msg_store_name`
unfoldable pub store_name : Bytes → (Option Bytes → Routine (Unit {0})) → Routine (Option Bytes)
unfolding store_str
store_name name put = store_str (c_string name) put

abbrev pub guard : Bool → (group field : Location) → ℕ → Routine (Unit {0})
guard holds group field ec = if holds then pure tt else dec_err group field ec
