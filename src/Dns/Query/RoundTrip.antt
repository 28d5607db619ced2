-- ===== src/Dns/Query/RoundTrip.antt =====
-- src/dns_proto.c: a query from the calls that build it to the message that the receiver decodes.
use c_db_k8s.Prelude.{
  ℕ, ◌+◌, ◌≤◌, ◌≡◌, refl, sym, ap, ◌∙◌, Bool, true, Option, some, List, [], ◌∷◌, Bytes, length,
  take, ok,
}
use c_db_k8s.Dns.{Rdata, DnsMsg, dns_msg_init, dns_msg_reset, msg_store_str}
use c_db_k8s.Dns.Name.RoundTrip.{join}
use c_db_k8s.Dns.Build.{dns_add_qdn}
use c_db_k8s.Dns.Encode.{Enc, dns_msg_encode}
use c_db_k8s.Dns.Decode.{Ctx, ret}
use c_db_k8s.Dns.Decode.Records.{dns_msg_decode}
use c_db_k8s.Dns.Query.{Query, IsQuery, header, question}
use c_db_k8s.Dns.Name.Names.{c_string-join}
use c_db_k8s.Dns.Query.Sent.{asked, encode-asked}
use c_db_k8s.Dns.Query.Parsed.{stored, decode-query_bytes}

-- the message that a client makes
abbrev pub make_query : DnsMsg → Query → Bool × DnsMsg
make_query msg q =
    dns_add_qdn (dns_msg_init (dns_msg_reset msg) q.id q.flags) (join q.labels) q.qtype q.qclass

make_query-eq :
    (msg : DnsMsg) (q : Query)
    → IsQuery q
    → make_query msg q ≡ (true, asked q msg (length (join q.labels) + 1))
unfolding dns_add_qdn dns_msg_init dns_msg_reset
make_query-eq msg q h =
    let fresh = dns_msg_init (dns_msg_reset msg) q.id q.flags in
    let text = c_string-join q.labels h.labels in
    let kept = ap (msg_store_str fresh) (sym text) ∙ stored q h fresh refl in rw (kept, dns_add_qdn)

-- A query arrives as it was asked: the message that `dns_msg_reset`, `dns_msg_init` and `dns_add_qdn`
-- make of 16-bit numbers and a name of 1 to 253 bytes, whose labels have 1 to 63 bytes without a dot
-- or a NUL, is encoded by `dns_msg_encode` into a buffer of 271 bytes or more, and `dns_msg_decode`
-- of those bytes returns 0 with the same id, flags and question.
pub query-decode :
    (q : Query) (msg msg' : DnsMsg) (buf : Bytes) (len : ℕ) (punned : ℕ → Rdata → Rdata)
    (punned' : Rdata → List (Option Bytes))
    → IsQuery q
    → 271 ≤ len
    → len ≤ length buf
    → ((make_query msg q).0 ≡ true)
      × (e : Enc) × ((dns_msg_encode punned (make_query msg q).1 buf len).1 ≡ ok (some e))
      × (c : Ctx) × (dns_msg_decode punned' msg' (take e.pkt_len e.pkt_buf) ≡ ok (ret 0, c))
      × (c.msg.hdr ≡ header q)
      × (c.msg.qd ≡ question q ∷ [])
query-decode q msg msg' buf len punned punned' h room memory =
    let made = make_query-eq msg q h in
    let (e, sent, bytes) =
      encode-asked q h buf len room memory punned msg (length (join q.labels) + 1) in
    let (c, got, hdr, qd) = decode-query_bytes q h punned' msg' in
    (
      ap (λ r. r.0) made,
      e,
      ap (λ r. (dns_msg_encode punned r.1 buf len).1) made ∙ sent,
      c,
      ap (dns_msg_decode punned' msg') bytes ∙ got,
      hdr,
      qd,
    )
