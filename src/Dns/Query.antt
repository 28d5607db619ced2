-- ===== src/Dns/Query.antt =====
-- A query of src/dns_proto.c: one question and no records, in a packet.
pub mod Sent
pub mod Parsed
pub mod RoundTrip
use c_db_k8s.Prelude.{
  ℕ, ◌+◌, ◌^◌, ◌<◌, ◌≤◌, ◌≡◌, ◌≢◌, refl, List, [], ◌∷◌, ◌++◌, Option, some, Bytes, length,
  length-append, if◌then◌else◌, ◌==◌, arith,
}
use c_db_k8s.Str.Codec.{enc_u16}
use c_db_k8s.Dns.{DnsHdr, Question, c_string}
use c_db_k8s.Dns.Name.RoundTrip.{Plain, AreLabels, join, wire}
use c_db_k8s.Dns.Encode.{hdr_bytes}

-- what a client asks: 16-bit numbers, and a name of 1 to 253 bytes in labels
pub record Query : Type 0 where
  pub id : ℕ
  pub flags : ℕ
  pub labels : List Bytes
  pub qtype : ℕ
  pub qclass : ℕ

pub record IsQuery (q : Query) : Type 0 where
  pub id : q.id < 2 ^ 16
  pub flags : q.flags < 2 ^ 16
  pub labels : AreLabels q.labels
  pub some_label : 0 < length q.labels
  pub short : length (join q.labels) ≤ 253
  pub qtype : q.qtype < 2 ^ 16
  pub qclass : q.qclass < 2 ^ 16

abbrev pub header : Query → DnsHdr
header q = record {
  id = q.id;
  flags = q.flags;
  qd_count = 1;
  an_count = 0;
  ns_count = 0;
  ar_count = 0;
}

abbrev pub question : Query → Question
question q = record { qname = some (join q.labels); qtype = q.qtype; qclass = q.qclass }

-- the packet
abbrev pub tail_bytes : Query → Bytes
tail_bytes q = enc_u16 q.qtype ++ enc_u16 q.qclass

pub query_bytes : Query → Bytes
query_bytes q = hdr_bytes (header q) ++ (wire q.labels ++ tail_bytes q)
