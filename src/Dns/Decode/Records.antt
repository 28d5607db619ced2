-- ===== src/Dns/Decode/Records.antt =====
-- src/dns_proto.c: the decoder of a record, a question, the sections and the message.
use c_db_k8s.Prelude.{
  ℕ, zero, suc, ◌+◌, ◌%◌, ◌^◌, Bool, true, false, Option, List, [], ◌∷◌, ◌++◌, Bytes, ltb, leb,
  ◌==◌, if◌then◌else◌, length, Run, ok, fault, stuck,
}
use c_db_k8s.Dns.{
  Rdata, Question, DnsMsg, max_rr, max_qd, u16_at, u32_at, dns_hdr_decode, dns_msg_reset,
}
use c_db_k8s.Dns.Name.{e_trunc, e_rdatalen}
use c_db_k8s.Dns.Decode.{
  Ctx, Decoder, Ret, ret, ret_fail, Exit, goes, leaves, Routine, ◌>>=◌, ◌>>◌, pure, leave, Location,
  at_pdu, at_hdr, at_qd, at_an, at_ns, at_ar, at_rr, at_rdata, at_name, dns_dec_err, dec_err,
  advance, offset_now, reads, decode_name_at, fix_label, Section, answer, authority, additional,
  sect_of, put_sect, edit, store_name,
}
use c_db_k8s.Dns.Decode.Cases.{decode_rdata}

abbrev pub exit_of : Exit ℕ → Ret × Ctx
exit_of (goes rc c) = (ret rc, c)
exit_of (leaves r c) = (r, c)

-- what a routine returns
abbrev pub call_of : Run (Exit ℕ) → Run (Ret × Ctx)
call_of (ok e) = ok (exit_of e)
call_of fault = fault
call_of stuck = stuck

abbrev pub call : Routine ℕ → Ctx → Run (Ret × Ctx)
call m c = call_of (m c)

-- `(*sect->count)++`
unfoldable pub count_up : Section → Routine (Unit {0})
count_up sc c =
    let s = sect_of sc c.msg in
    ok (goes tt (record c { msg = put_sect sc c.msg (record s { count = s.count + 1 }) }))

-- a test of the state of the decoder
abbrev pub check : (Ctx → Bool) → Routine (Unit {0}) → Routine (Unit {0})
check test exit c = if test c then pure tt c else exit c

abbrev pub location : Section → Location
location answer = at_an
location authority = at_ns
location additional = at_ar

abbrev pub is_zero : Ret → Bool
is_zero (ret n) = n == 0
is_zero ret_fail = false

-- The result is that of `decode_name`: the length of the name and its NUL.
unfoldable pub qd_routine : Routine ℕ
qd_routine = do
  check (λ c. ltb (length c.msg.qd) max_qd) (leave ret_fail)
  name ← decode_name_at at_qd at_name 0
  check (λ c. leb (c.dec.offset + 4) (length c.dec.pkt_buf)) (dec_err at_qd at_hdr e_trunc)
  qtype ← reads u16_at 0
  qclass ← reads u16_at 2
  advance 4
  qname ← store_name name (λ s. pure tt)
  let q : Question = record { qname = qname; qtype = qtype; qclass = qclass }
  (λ c. ok (goes tt (record c { msg = record c.msg { qd = c.msg.qd ++ (q ∷ []) } })))
  pure (length name + 1)

unfoldable pub dns_qd_decode : Ctx → Run (Ret × Ctx)
unfolding qd_routine
dns_qd_decode c = call qd_routine c

unfoldable pub qd_loop : (left i : ℕ) → Ctx → Run (Ret × Ctx)
unfolding dns_qd_decode
qd_loop zero i c = ok (ret 0, c)
qd_loop (suc left) i c = elim (dns_qd_decode c) [
  | ok r ↦ elim (is_zero (r.0)) [
    | true ↦ qd_loop left (i + 1) r.1
    | false ↦ ok (dns_dec_err r.1 at_pdu at_qd (i + 10000))
  ]
  | fault ↦ fault
  | stuck ↦ stuck
]

unfoldable pub decode_qd : Ctx → Run (Ret × Ctx)
unfolding qd_loop
decode_qd c = qd_loop c.msg.hdr.qd_count 0 c

unfoldable pub decode_hdr : Ctx → Run (Ret × Ctx)
decode_hdr c = elim (dns_hdr_decode c.msg.hdr c.dec.pkt_buf) [
  | ok r ↦
      if r.0 == 0
      then ok (
        ret 0,
        record {
          dec = record c.dec { offset = c.dec.offset + 12 };
          msg = record c.msg { hdr = r.1 };
        },
      )
      else ok (dns_dec_err c at_pdu at_hdr r.0)
  | fault ↦ fault
  | stuck ↦ stuck
]

-- `if ((rc = step)) return rc;`
abbrev pub step : Run (Ret × Ctx) → (Ctx → Run (Ret × Ctx)) → Run (Ret × Ctx)
step m f = elim m [
  | ok r ↦ elim (is_zero (r.0)) [ true ↦ f r.1 | false ↦ ok r ]
  | fault ↦ fault
  | stuck ↦ stuck
]

abbrev pub dec_start : Bytes → Decoder
dec_start buf = record {
  pkt_buf = buf;
  offset = 0;
  errs = [];
  got_edns = false;
  udp_size = 512;
  ext_rcode = 0;
  edns_ver = 0;
  dnssec_ok = false;
}

module _ (punned : Rdata → List (Option Bytes)) where
  unfoldable pub rr_routine : Section → Routine ℕ
  unfolding count_up
  rr_routine sc = do
    check (λ c. ltb (sect_of sc c.msg).count max_rr) (leave ret_fail)
    found ← decode_name_at at_rr at_name 0
    name ← fix_label 0 found
    store_name name (λ s. edit sc (λ r. record r { name = s }))
    check (λ c. leb (c.dec.offset + 10) (length c.dec.pkt_buf)) (dec_err at_rr at_hdr e_trunc)
    rr_type ← reads u16_at 0
    rr_class ← reads u16_at 2
    rr_ttl ← reads u32_at 4
    rdlen ← reads u16_at 8
    advance 10
    edit sc (λ r. record r { type = rr_type; rclass = rr_class; ttl = rr_ttl; rdlen = rdlen })
    offset ← offset_now
    let rd_end = (offset + rdlen) % 2 ^ 16
    check (λ c. leb rd_end (length c.dec.pkt_buf)) (dec_err at_rr at_rdata e_trunc)
    rc ← decode_rdata punned sc rr_type rr_class rr_ttl rdlen rd_end name
    check (λ c. c.dec.offset == rd_end) (dec_err at_rr at_rdata e_rdatalen)
    count_up sc
    pure rc

  unfoldable pub dns_rr_decode : Section → Ctx → Run (Ret × Ctx)
  unfolding rr_routine
  dns_rr_decode sc c = call (rr_routine sc) c

  -- `left` records are to come, and the next one is number `i`
  unfoldable pub sect_loop : (left i : ℕ) → Section → Ctx → Run (Ret × Ctx)
  unfolding dns_rr_decode
  sect_loop zero i sc c = ok (ret 0, c)
  sect_loop (suc left) i sc c = elim (dns_rr_decode sc c) [
    | ok r ↦ elim (is_zero (r.0)) [
      | true ↦ sect_loop left (i + 1) sc r.1
      | false ↦ ok (dns_dec_err r.1 at_pdu (location sc) (i + 10000))
    ]
    | fault ↦ fault
    | stuck ↦ stuck
  ]

  unfoldable pub decode_an : Ctx → Run (Ret × Ctx)
  unfolding sect_loop
  decode_an c = sect_loop c.msg.hdr.an_count 0 answer c

  unfoldable pub decode_ns : Ctx → Run (Ret × Ctx)
  unfolding sect_loop
  decode_ns c = sect_loop c.msg.hdr.ns_count 0 authority c

  unfoldable pub decode_ar : Ctx → Run (Ret × Ctx)
  unfolding sect_loop
  decode_ar c = sect_loop c.msg.hdr.ar_count 0 additional c

  unfoldable pub decode_msg : Ctx → Run (Ret × Ctx)
  unfolding decode_hdr decode_qd decode_an decode_ns decode_ar
  decode_msg c0 =
      let c = record c0 { msg = dns_msg_reset c0.msg } in
      step (decode_hdr c)
        λ c1. step (decode_qd c1) λ c2. step (decode_an c2) λ c3. step (decode_ns c3) decode_ar

  unfoldable pub dns_msg_decode : DnsMsg → Bytes → Run (Ret × Ctx)
  unfolding decode_msg
  dns_msg_decode msg buf = decode_msg (record { dec = dec_start buf; msg = msg })
