-- ===== src/Dns/Query/Parsed.antt =====
-- `dns_msg_decode` of src/dns_proto.c on the bytes of a query.
use mathlib.Core.Path.{ap₂}
use c_db_k8s.Prelude.{
  ℕ, suc, ◌+◌, ◌-◌, ◌/◌, ◌%◌, ◌^◌, ◌<◌, ◌≡◌, refl, sym, ap, ◌∙◌, Bool, true, false, Option, some,
  List, [], ◌∷◌, ◌++◌, append_assoc, append-nil, Bytes, ltb, leb, ◌==◌, length, length-append, Run,
  ok, fault, stuck, arith,
}
use c_db_k8s.Str.Codec.{enc_u16, dec_u16}
use c_db_k8s.Dns.{
  DnsHdr, DnsMsg, Rdata, c_string, byte_at, u16_at, dns_hdr_decode, dns_msg_reset, msg_store_str,
}
use c_db_k8s.Dns.Name.{named, decode_name, e_trunc}
use c_db_k8s.Dns.Name.RoundTrip.{join, wire}
use c_db_k8s.Dns.Name.Decodes.{byte_at-append, decode_name-wire}
use c_db_k8s.Dns.Encode.{hdr_bytes}
use c_db_k8s.Dns.Decode.{
  Ctx, Exit, goes, ret, Routine, resume, pure, at_pdu, at_qd, at_hdr, at_name, dns_dec_err, dec_err,
  set_offset, advance, reads, decode_name_at, store_str, store_name,
}
use c_db_k8s.Dns.Decode.Records.{
  check, qd_routine, dns_qd_decode, qd_loop, decode_qd, decode_hdr, sect_loop, decode_an, decode_ns,
  decode_ar, decode_msg, dec_start, dns_msg_decode,
}
use c_db_k8s.Dns.Query.{Query, IsQuery, header, question, tail_bytes, query_bytes}
use c_db_k8s.Dns.Name.Names.{c_string-join}

-- what `enc_u16` writes is read back
dec-enc_u16 : (v : ℕ) → v < 2 ^ 16 → dec_u16 (v / 2 ^ 8 % 256) (v % 256) ≡ v
unfolding dec_u16
dec-enc_u16 v h = omega arith

pub u16_at-append :
    (pre rest : Bytes) (v : ℕ)
    → v < 2 ^ 16
    → u16_at (pre ++ (enc_u16 v ++ rest)) (length pre) ≡ ok v
unfolding u16_at enc_u16
u16_at-append pre rest v h =
    let hi = v / 2 ^ 8 % 256 in
    let lo = v % 256 in
    let first = byte_at-append pre (lo ∷ rest) hi in
    let second : byte_at (pre ++ (hi ∷ lo ∷ rest)) (length pre + 1) ≡ ok lo =
      ap₂ byte_at (sym (append_assoc pre (hi ∷ []) (lo ∷ rest)))
        (omega (arith, length-append pre (hi ∷ [])))
      ∙ byte_at-append (pre ++ (hi ∷ [])) rest lo in
    rw (first, second, dec-enc_u16 v h)

-- A header of 16-bit numbers, as `encode_hdr` writes it in front of any bytes, is decoded by
-- `dns_hdr_decode` to the same header, with the result 0.
pub dns_hdr_decode-hdr_bytes :
    (old h : DnsHdr) (rest : Bytes)
    → h.id < 2 ^ 16
    → h.flags < 2 ^ 16
    → h.qd_count < 2 ^ 16
    → h.an_count < 2 ^ 16
    → h.ns_count < 2 ^ 16
    → h.ar_count < 2 ^ 16
    → dns_hdr_decode old (hdr_bytes h ++ rest) ≡ ok (0, h)
unfolding dns_hdr_decode u16_at hdr_bytes enc_u16
dns_hdr_decode-hdr_bytes old h rest b0 b1 b2 b3 b4 b5 = rw (
  long,
  dec-enc_u16 h.id b0,
  dec-enc_u16 h.flags b1,
  dec-enc_u16 h.qd_count b2,
  dec-enc_u16 h.an_count b3,
  dec-enc_u16 h.ns_count b4,
  dec-enc_u16 h.ar_count b5,
)
  where
    long :
        ltb (suc (suc (suc (suc (suc (suc (suc (suc (suc (suc (suc (suc (length rest))))))))))))) 12
        ≡ false
    long = ground arith

-- a routine that went on
then_ :
    {A B : Type 0} (f : A → Routine B) {m : Run (Exit A)} {x : A} {c : Ctx} {r : Run (Exit B)}
    → m ≡ ok (goes x c)
    → f x c ≡ r
    → ◌≡◌ {A = Run (Exit B)} (elim m [ ok e ↦ resume f e | fault ↦ fault | stuck ↦ stuck ]) r
then_ f p q = rw p q

check-true :
    (test : Ctx → Bool) (exit : Routine (Unit {0})) (c : Ctx)
    → test c ≡ true
    → check test exit c ≡ ok (goes tt c)
check-true test exit c e = rw e

reads-eq :
    {A : Type 0} (read : Bytes → ℕ → Run A) (k : ℕ) (c : Ctx) {x : A}
    → read c.dec.pkt_buf (c.dec.offset + k) ≡ ok x
    → reads read k c ≡ ok (goes x c)
unfolding reads
reads-eq read k c e = rw (e, reads)

module _ (q : Query) (h : IsQuery q) where
  abbrev hb : Bytes
  hb = hdr_bytes (header q)

  abbrev w : Bytes
  w = wire q.labels

  abbrev pkt : Bytes
  pkt = hb ++ (w ++ tail_bytes q)

  length-hb : length hb ≡ 12
  unfolding hdr_bytes enc_u16
  length-hb = refl

  name_read : decode_name pkt 12 1124 ≡ ok (named (join q.labels), 12 + length w)
  name_read =
      ap (λ n. decode_name pkt n 1124) (sym length-hb)
      ∙ decode_name-wire q.labels hb (tail_bytes q) 1124 h.labels (omega (arith, h.short))
      ∙ ap (λ n. ok (named (join q.labels), n + length w)) length-hb

  length-pkt : length pkt ≡ 12 + length w + 4
  unfolding enc_u16
  length-pkt =
      omega (arith, length-hb, length-append hb (w ++ tail_bytes q), length-append w (tail_bytes q))

  qtype_read : u16_at pkt (12 + length w + 0) ≡ ok q.qtype
  qtype_read =
      ap₂ u16_at (sym (append_assoc hb w (tail_bytes q)))
        (omega (arith, length-hb, length-append hb w))
      ∙ u16_at-append (hb ++ w) (enc_u16 q.qclass) q.qtype h.qtype

  qclass_read : u16_at pkt (12 + length w + 2) ≡ ok q.qclass
  unfolding enc_u16
  qclass_read =
      let front = (hb ++ w) ++ enc_u16 q.qtype in
      ap₂ u16_at
        (sym (append_assoc hb w (tail_bytes q))
          ∙ sym (append_assoc (hb ++ w) (enc_u16 q.qtype) (enc_u16 q.qclass))
          ∙ ap (front ++◌) (sym (append-nil (enc_u16 q.qclass))))
        (omega (arith, length-hb, length-append hb w, length-append (hb ++ w) (enc_u16 q.qtype)))
      ∙ u16_at-append front [] q.qclass h.qclass

  -- the decoder behind the header
  abbrev behind_hdr : DnsMsg → Ctx
  behind_hdr msg = record {
    dec = record (dec_start pkt) { offset = 12 };
    msg = record (dns_msg_reset msg) { hdr = header q };
  }

  -- and behind the question
  abbrev behind_qd : DnsMsg → Ctx
  behind_qd msg = record {
    dec = record (dec_start pkt) { offset = 12 + length w + 4 };
    msg = record (dns_msg_reset msg) {
      hdr = header q;
      names_len = length (join q.labels) + 1;
      qd = question q ∷ [];
    };
  }

  pub stored :
      (m : DnsMsg)
      → m.names_len ≡ 0
      → msg_store_str m (c_string (join q.labels))
        ≡ (record m { names_len = length (join q.labels) + 1 }, some (join q.labels))
  unfolding msg_store_str
  stored m e =
      let text = c_string-join q.labels h.labels in
      let short : ltb 253 (length (join q.labels)) ≡ false = ground (arith, h.short) in
      let room : ltb 2048 (m.names_len + length (join q.labels) + 1) ≡ false =
        ground (arith, h.short) in
      let used : m.names_len + length (join q.labels) + 1 ≡ length (join q.labels) + 1 =
        omega (arith, e) in
      ap (msg_store_str m) text
      ∙ rw (short, room, msg_store_str)
          (ap₂ (λ n s. (record m { names_len = n }, some s)) used text)

  store_step :
      (c : Ctx)
      → c.msg.names_len ≡ 0
      → store_name (join q.labels) (λ s. pure tt) c
        ≡ ok (
            goes
              (some (join q.labels))
              (record c { msg = record c.msg { names_len = length (join q.labels) + 1 } }))
  unfolding store_name store_str
  store_step c e = rw (stored c.msg e, store_name, store_str)

  name_step :
      (c : Ctx)
      → c.dec.pkt_buf ≡ pkt
      → c.dec.offset ≡ 12
      → decode_name_at at_qd at_name 0 c ≡ ok (goes (join q.labels) (set_offset c (12 + length w)))
  unfolding decode_name_at
  name_step c e o =
      let read : decode_name c.dec.pkt_buf c.dec.offset (1124 - 0)
          ≡ ok (named (join q.labels), 12 + length w) =
        ap₂ (λ p n. decode_name p n 1124) e o ∙ name_read in
      rw (read, decode_name_at)

  qd_read :
      (msg : DnsMsg)
      → qd_routine (behind_hdr msg) ≡ ok (goes (length (join q.labels) + 1) (behind_qd msg))
  unfolding qd_routine dns_msg_reset advance
  qd_read msg =
      let c1 = behind_hdr msg in
      let c2 = set_offset c1 (12 + length w) in
      let c3 = set_offset c2 (12 + length w + 4) in
      let inside : leb (12 + length w + 4) (length pkt) ≡ true = ground (arith, length-pkt) in
      then_ _ (name_step c1 refl refl) (
        then_ _
          (check-true (λ c. leb (c.dec.offset + 4) (length c.dec.pkt_buf))
            (dec_err at_qd at_hdr e_trunc) c2 inside)
          (then_ _ (reads-eq u16_at 0 c2 qtype_read)
            (then_ _ (reads-eq u16_at 2 c2 qclass_read) (then_ _ (store_step c3 refl) refl))))

  -- the state at the end: the question counts as an error of the section
  abbrev final : DnsMsg → Ctx
  final msg = record (behind_qd msg) {
    dec = record (behind_qd msg).dec {
      errs = record { group = at_pdu; field = at_qd; ec = 10000 } ∷ [];
    };
  }

  hdr_step :
      (msg : DnsMsg)
      → decode_hdr (record { dec = dec_start pkt; msg = dns_msg_reset msg })
        ≡ ok (ret 0, behind_hdr msg)
  unfolding decode_hdr dns_msg_reset
  hdr_step msg =
      let e =
        dns_hdr_decode-hdr_bytes (dns_msg_reset msg).hdr (header q) (w ++ tail_bytes q) h.id h.flags
          (omega arith) (omega arith) (omega arith) (omega arith) in
      rw (e, decode_hdr)

  qd_step : (msg : DnsMsg) → decode_qd (behind_hdr msg) ≡ ok (ret 0, final msg)
  unfolding decode_qd qd_loop dns_qd_decode dns_dec_err dns_msg_reset
  qd_step msg =
      let nonzero : (length (join q.labels) + 1 == 0) ≡ false = ground arith in
      rw (qd_read msg, decode_qd, qd_loop, dns_qd_decode, nonzero)

  -- `dns_msg_decode` reads the header and the question of a query back.
  pub decode-query_bytes :
      (punned : Rdata → List (Option Bytes)) (msg : DnsMsg)
      → (c : Ctx) × (dns_msg_decode punned msg (query_bytes q) ≡ ok (ret 0, c))
        × (c.msg.hdr ≡ header q)
        × (c.msg.qd ≡ question q ∷ [])
  unfolding dns_msg_decode decode_msg decode_an decode_ns decode_ar sect_loop query_bytes
  decode-query_bytes punned msg = (final msg, rw (hdr_step msg, qd_step msg), refl, refl)
