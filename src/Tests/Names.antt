-- ===== src/Tests/Names.antt =====
-- The theorems on names, queries and messages at concrete packets, and the decoder on two of them.
use c_db_k8s.Prelude.{
  ℕ, zero, suc, ◌+◌, ◌^◌, ◌<◌, ◌≤◌, ◌≡◌, refl, sym, ap, ◌∙◌, ◌>>=◌, Bool, true, false, Option, some,
  List, [], ◌∷◌, ◌++◌, Bytes, length, replicate, take, Run, ok, fault, stuck, arith,
}
use c_db_k8s.Str.Codec.{dec_u16}
use c_db_k8s.Dns.{
  DnsHdr, Rdata, Rr, a, hdr_zero, msg_zero, byte_at, u16_at, u32_at, copy_at, msg_store_str,
  dns_msg_reset, dns_hdr_decode,
}
use c_db_k8s.Dns.Name.{named, bad, Suffix, decode_name, encode_name}
use c_db_k8s.Dns.Name.RoundTrip.{AreLabels, join, wire}
use c_db_k8s.Dns.Name.Names.{decode-encode_name}
use c_db_k8s.Dns.Encode.{Enc, hdr_bytes, dns_msg_encode}
use c_db_k8s.Dns.Build.{dns_sect_add_rr}
use c_db_k8s.Dns.Build.Valid.{IsRoomy}
use c_db_k8s.Dns.Build.Adds.{Adds, dns_sect_add_rr-Adds}
use c_db_k8s.Dns.Decode.{
  Ctx, Ret, ret, Section, answer, authority, additional, sect_of, decode_name_at, dns_dec_err,
  fix_label, store_name, edit, reads, advance, set_rdata,
}
use c_db_k8s.Dns.Decode.Cases.{decode_a, decode_rdata}
use c_db_k8s.Dns.Decode.Record.{NoWrap}
use c_db_k8s.Dns.Decode.Records.{dec_start, dns_msg_decode}
use c_db_k8s.Dns.Decode.Message.{dns_msg_decode-one_each, dns_msg_decode-hides_errors}
use c_db_k8s.Dns.Decode.Start.{HasArrays}
use c_db_k8s.Dns.Query.{Query, IsQuery, header, question}
use c_db_k8s.Dns.Query.Parsed.{dns_hdr_decode-hdr_bytes}
use c_db_k8s.Dns.Query.RoundTrip.{make_query, query-decode}

-- a packet of bytes below 128
IsLow : Bytes → Type 0
IsLow [] = Unit {0}
IsLow (b ∷ pkt) = (b < 128) × IsLow pkt

value : Run ℕ → ℕ
value (ok n) = n
value fault = 0
value stuck = 0

holds_value : Run ℕ → Bool
holds_value (ok n) = true
holds_value fault = false
holds_value stuck = false

u16_at-suc : (b : ℕ) (pkt : Bytes) (i : ℕ) → u16_at (b ∷ pkt) (suc i) ≡ u16_at pkt i
unfolding u16_at
u16_at-suc b pkt i =
    let e : suc i + 1 ≡ suc (i + 1) = omega arith in
    ap (λ k. byte_at pkt i >>= λ b0. byte_at (b ∷ pkt) k >>= λ b1. ok (dec_u16 b0 b1)) e

low_u16 :
    (pkt : Bytes) (i n : ℕ) → IsLow pkt → u16_at pkt i ≡ ok n → i + 2 + n < length pkt + 2 ^ 15
unfolding u16_at IsLow dec_u16 value holds_value
low_u16 [] i n h e = absurd (ground (arith, ap holds_value e))
low_u16 (b ∷ []) zero n h e = absurd (ground (arith, ap holds_value e))
low_u16 (b ∷ c ∷ pkt) zero n h e = omega (arith, ap value e, h.0, h.1)
low_u16 (b ∷ pkt) (suc i) n h e = omega (arith, low_u16 pkt i n h.1 (sym (u16_at-suc b pkt i) ∙ e))

low-NoWrap : (pkt : Bytes) → IsLow pkt → length pkt ≤ 2 ^ 15 → NoWrap pkt
low-NoWrap pkt h short i n e = omega (arith, low_u16 pkt i n h e)

-- two answers, addresses of `a`
abbrev a_record : Bytes
a_record = 1 ∷ 97 ∷ 0 ∷ 0 ∷ 1 ∷ 0 ∷ 1 ∷ 0 ∷ 0 ∷ 0 ∷ 60 ∷ 0 ∷ 4 ∷ 10 ∷ 0 ∷ 0 ∷ 7 ∷ []

abbrev two_answers : Bytes
two_answers = 0 ∷ 7 ∷ 0 ∷ 0 ∷ 0 ∷ 0 ∷ 0 ∷ 2 ∷ 0 ∷ 0 ∷ 0 ∷ 0 ∷ a_record ++ a_record

two_answers-NoWrap : NoWrap two_answers
two_answers-NoWrap = low-NoWrap two_answers (unfold IsLow in omega arith) (omega arith)

not_punned : Rdata → List (Option Bytes)
not_punned r = []

never_punned : ℕ → Rdata → Rdata
never_punned n r = r

zero-HasArrays : HasArrays msg_zero
zero-HasArrays answer = refl
zero-HasArrays authority = refl
zero-HasArrays additional = refl

-- the state and the result at the end
abbrev left_by : Run (Ret × Ctx) → Ctx
left_by (ok (r, c)) = c
left_by fault = record { dec = dec_start []; msg = msg_zero }
left_by stuck = record { dec = dec_start []; msg = msg_zero }

abbrev answered : Ctx
answered = left_by (dns_msg_decode not_punned msg_zero two_answers)

answered-eq : dns_msg_decode not_punned msg_zero two_answers ≡ ok (ret 0, answered)
unfolding dns_msg_decode dns_hdr_decode dns_msg_reset decode_name_at decode_name fix_label
    store_name edit msg_store_str reads u32_at advance decode_rdata decode_a copy_at set_rdata
answered-eq = refl

-- a packet of four bytes has no header
abbrev short_packet : Bytes
short_packet = 0 ∷ 7 ∷ 0 ∷ 0 ∷ []

short_packet-NoWrap : NoWrap short_packet
short_packet-NoWrap = low-NoWrap short_packet (unfold IsLow in omega arith) (omega arith)

abbrev cut_short : Ctx
cut_short = left_by (dns_msg_decode not_punned msg_zero short_packet)

cut_short-eq : dns_msg_decode not_punned msg_zero short_packet ≡ ok (ret 0, cut_short)
unfolding dns_msg_decode dns_hdr_decode dns_dec_err dns_msg_reset
cut_short-eq = refl

cut_short_test : length cut_short.dec.errs ≡ 1
unfolding dns_msg_decode dns_hdr_decode dns_dec_err dns_msg_reset
cut_short_test = refl

dns_msg_decode-one_each_example :
    (answered.msg.an.count ≤ 1) × (answered.msg.ns.count ≤ 1) × (answered.msg.ar.count ≤ 1)
dns_msg_decode-one_each_example =
    dns_msg_decode-one_each not_punned msg_zero two_answers zero-HasArrays two_answers-NoWrap
      (ret 0) answered answered-eq

-- the second answer is not there
one_answer_test : answered.msg.an.count ≡ 1
unfolding dns_msg_decode dns_hdr_decode dns_msg_reset decode_name_at decode_name fix_label
    store_name edit msg_store_str reads u32_at advance decode_rdata decode_a copy_at set_rdata
one_answer_test = refl

dns_msg_decode-hides_errors_example : ret 0 ≡ ret 0
dns_msg_decode-hides_errors_example =
    dns_msg_decode-hides_errors not_punned msg_zero short_packet zero-HasArrays short_packet-NoWrap
      (ret 0) cut_short cut_short-eq (omega (arith, cut_short_test))

-- too many jumps
loop_test : decode_name (replicate 12 0 ++ (192 ∷ 12 ∷ [])) 12 255 ≡ ok (bad 3, 14)
unfolding decode_name
loop_test = refl

abbrev some_labels : List Bytes
some_labels = (97 ∷ []) ∷ (98 ∷ 99 ∷ []) ∷ []

some_labels-AreLabels : AreLabels some_labels
some_labels-AreLabels = omega arith

decode-encode_name_example :
    (bytes : Bytes) × (t : List Suffix) × (encode_name 12 [] (some (join some_labels))
      ≡ ok (some (bytes, t)))
    × (decode_name (replicate 12 0 ++ (bytes ++ (0 ∷ 1 ∷ []))) 12 255
        ≡ ok (named (join some_labels), 12 + length bytes))
unfolding wire join
decode-encode_name_example =
    decode-encode_name some_labels (replicate 12 0) (0 ∷ 1 ∷ []) [] 255 some_labels-AreLabels tt
      (omega arith) (omega arith)

abbrev some_hdr : DnsHdr
some_hdr = record { id = 4660; flags = 256; qd_count = 1; an_count = 0; ns_count = 0; ar_count = 0 }

dns_hdr_decode-hdr_bytes_example :
    dns_hdr_decode hdr_zero (hdr_bytes some_hdr ++ []) ≡ ok (0, some_hdr)
dns_hdr_decode-hdr_bytes_example =
    dns_hdr_decode-hdr_bytes hdr_zero some_hdr [] (omega arith) (omega arith) (omega arith)
      (omega arith) (omega arith) (omega arith)

abbrev some_query : Query
some_query = record { id = 4660; flags = 256; labels = some_labels; qtype = 1; qclass = 1 }

some_query-IsQuery : IsQuery some_query
some_query-IsQuery = record {
  id = omega arith;
  flags = omega arith;
  labels = some_labels-AreLabels;
  some_label = omega arith;
  short = unfold join in omega arith;
  qtype = omega arith;
  qclass = omega arith;
}

query-decode_example :
    ((make_query msg_zero some_query).0 ≡ true)
    × (e : Enc) × ((dns_msg_encode never_punned
          (make_query msg_zero some_query).1
          (replicate 271 0)
          271).1
        ≡ ok (some e))
    × (c : Ctx) × (dns_msg_decode not_punned msg_zero (take e.pkt_len e.pkt_buf) ≡ ok (ret 0, c))
    × (c.msg.hdr ≡ header some_query)
    × (c.msg.qd ≡ question some_query ∷ [])
query-decode_example =
    query-decode some_query msg_zero msg_zero (replicate 271 0) 271 never_punned not_punned
      some_query-IsQuery (omega arith) (omega arith)

msg_zero-IsRoomy : IsRoomy msg_zero
msg_zero-IsRoomy = record {
  names = omega arith;
  questions = omega arith;
  size = zero-HasArrays;
  count = λ s. few s;
}
  where
    few : (s : Section) → (sect_of s msg_zero).count ≤ 32
    few answer = omega arith
    few authority = omega arith
    few additional = omega arith

abbrev some_rr : Rr
some_rr = record {
  name = some (97 ∷ []);
  type = 1;
  rclass = 1;
  ttl = 60;
  rdlen = 0;
  rdata = a (10 ∷ 0 ∷ 0 ∷ 7 ∷ []);
}

dns_sect_add_rr-Adds_example :
    Adds [] msg_zero answer some_rr
      (dns_sect_add_rr never_punned [] 0 msg_zero answer (some some_rr))
dns_sect_add_rr-Adds_example =
    dns_sect_add_rr-Adds never_punned [] 0 msg_zero answer some_rr msg_zero-IsRoomy
