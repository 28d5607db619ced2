-- ===== src/Dns/Query/Sent.antt =====
-- `dns_msg_encode` of src/dns_proto.c on a query.
use c_db_k8s.Prelude.{
  ℕ, ◌+◌, ◌-◌, ◌%◌, ◌^◌, ◌<◌, ◌≤◌, ◌≡◌, refl, sym, ap, ◌∙◌, false, Option, none, some, List, [],
  ◌∷◌, ◌++◌, append_assoc, Bytes, ltb, length, length-append, take, drop, take-append, write_at,
  length-write_at, Run, ok, fault, stuck, arith,
}
use c_db_k8s.Str.Codec.{enc_u16}
use c_db_k8s.Dns.{DnsHdr, DnsMsg, Rdata}
use c_db_k8s.Dns.Name.{Suffix, encode_name}
use c_db_k8s.Dns.Name.RoundTrip.{join, wire, length-wire, encode_loop-Written}
use c_db_k8s.Dns.Encode.{
  Enc, Encoder, after, pure, dns_enc_mkspace, dns_enc_retspace, put, put_name, dns_enc_quest,
  encode_qd, encode_hdr, hdr_bytes, sync_hdr, dns_sect_enc, encode_msg, dns_msg_encode,
}
use c_db_k8s.Dns.Query.{Query, IsQuery, header, question, tail_bytes, query_bytes}
use c_db_k8s.Dns.Name.Names.{c_string-join}

-- a routine that went on
then_ :
    {A B : Type 0} (f : A → Encoder B) {m : Run (Option (A × Enc))} {x : A} {e : Enc}
    {r : Run (Option (B × Enc))}
    → m ≡ ok (some (x, e))
    → f x e ≡ r
    → ◌≡◌ {A = Run (Option (B × Enc))}
        (elim m [ ok o ↦ after f o | fault ↦ fault | stuck ↦ stuck ])
        r
then_ f p q = rw p q

mkspace-eq :
    (n : ℕ) (e : Enc)
    → e.pkt_len + n ≤ e.pkt_max
    → dns_enc_mkspace n e ≡ ok (some (e.pkt_len, record e { pkt_len = e.pkt_len + n }))
unfolding dns_enc_mkspace
mkspace-eq n e h = ground arith

put_name-eq :
    (at : ℕ) (name : Option Bytes) (e : Enc) {bytes : Bytes} {t : List Suffix} {e' : Enc}
    → encode_name at e.suffix name ≡ ok (some (bytes, t))
    → put at bytes (record e { suffix = t }) ≡ ok (some (tt, e'))
    → put_name at name e ≡ ok (some (at + length bytes, e'))
unfolding put_name
put_name-eq at name e {bytes} {t} {e'} p q =
    rw (p, put_name) (then_ (λ u. pure (at + length bytes)) q refl)

-- `len - used` bytes are given back
retspace-eq :
    (len used : ℕ) (e : Enc)
    → used ≤ len
    → len < 2 ^ 64
    → len ≤ e.pkt_len
    → dns_enc_retspace len used e ≡ ok (some (tt, record e { pkt_len = e.pkt_len - (len - used) }))
unfolding dns_enc_retspace
retspace-eq len used e le small room =
    let n : (len + 2 ^ 64 - used) % 2 ^ 64 ≡ len - used = omega arith in
    let fits : ltb e.pkt_len (len - used) ≡ false = ground arith in rw (n, fits)

-- `out` is the front of the packet
abbrev Holds : Bytes → Enc → Type 0
Holds out e = take (length out) e.pkt_buf ≡ out

-- the encoder behind a write
abbrev put_state : Bytes → Bytes → Enc → Enc
put_state out new e = record e { pkt_buf = write_at (length out) new e.pkt_buf }

module _ (out new : Bytes) (e : Enc) (h : Holds out e)
    (fits : length out + length new ≤ length e.pkt_buf) where
  put-eq : put (length out) new e ≡ ok (some (tt, put_state out new e))
  unfolding put
  put-eq = ground arith

  put-Holds : Holds (out ++ new) (put_state out new e)
  put-Holds =
      let rest = drop (length out + length new) e.pkt_buf in
      ap (λ front. take (length (out ++ new)) (front ++ (new ++ rest))) h
      ∙ ap (take (length (out ++ new))) (sym (append_assoc out new rest))
      ∙ take-append (out ++ new) rest

  put-length : length (put_state out new e).pkt_buf ≡ length e.pkt_buf
  put-length = length-write_at (length out) new e.pkt_buf fits

-- a message that asks the query, with `n` bytes of names
abbrev pub asked : Query → DnsMsg → ℕ → DnsMsg
asked q msg n = record {
  hdr = record {
    id = q.id;
    flags = q.flags;
    qd_count = 0;
    an_count = 0;
    ns_count = 0;
    ar_count = 0;
  };
  names_len = n;
  qd = question q ∷ [];
  an = record msg.an { count = 0 };
  ns = record msg.ns { count = 0 };
  ar = record msg.ar { count = 0 };
}

length-hdr_bytes : (h : DnsHdr) → length (hdr_bytes h) ≡ 12
unfolding hdr_bytes enc_u16
length-hdr_bytes h = refl

length-tail : (q : Query) → length (tail_bytes q) ≡ 4
unfolding enc_u16
length-tail q = refl

module _ (q : Query) (h : IsQuery q) where
  labels_size : length (wire q.labels) ≤ 255
  labels_size = of_labels q.labels h.some_label h.short
    where
      of_labels :
          (ls : List Bytes) → 0 < length ls → length (join ls) ≤ 253 → length (wire ls) ≤ 255
      of_labels [] pos s = absurd (omega arith)
      of_labels (l ∷ ls) pos s = omega (arith, length-wire l ls)

  encode_name-query :
      (t : List Suffix) × (encode_name 12 [] (some (join q.labels)) ≡ ok (some (wire q.labels, t)))
  unfolding encode_name
  encode_name-query =
      let text = c_string-join q.labels h.labels in
      let (t, e, b) =
        encode_loop-Written (length (join q.labels)) 12 12 [] q.labels h.labels (omega arith)
          (omega (arith, labels_size)) (omega arith) tt in
      (t, rw text e)

  module _ (buf : Bytes) (len : ℕ) (room : 271 ≤ len) (memory : len ≤ length buf) where
    abbrev start : Enc
    start = record { pkt_buf = buf; pkt_max = len; pkt_len = 0; suffix = [] }

    abbrev e1 : Enc
    e1 = put_state [] (hdr_bytes (header q)) (record start { pkt_len = 12 })

    hdr_step : encode_hdr (header q) start ≡ ok (some (tt, e1))
    unfolding encode_hdr
    hdr_step =
        then_ (λ wbuf. put wbuf (hdr_bytes (header q))) (mkspace-eq 12 start (omega arith))
          (put-eq [] (hdr_bytes (header q)) (record start { pkt_len = 12 }) refl
            (omega (arith, length-hdr_bytes (header q))))

    quest_step :
        (e : Enc) × (dns_enc_quest (question q) e1 ≡ ok (some (tt, e)))
        × (e.pkt_len ≡ length (query_bytes q))
        × (take e.pkt_len e.pkt_buf ≡ query_bytes q)
    unfolding dns_enc_quest query_bytes
    quest_step =
        let (t, named) = encode_name-query in
        let hb = hdr_bytes (header q) in
        let w = wire q.labels in
        let s0 : Enc = record start { pkt_len = 12 } in
        let holds1 = put-Holds [] hb s0 refl (omega (arith, length-hdr_bytes (header q))) in
        let s1 : Enc = record e1 { pkt_len = 271; suffix = t } in
        let size1 : length s1.pkt_buf ≡ length buf =
          put-length [] hb s0 refl (omega (arith, length-hdr_bytes (header q))) in
        let fits1 : length hb + length w ≤ length s1.pkt_buf =
          omega (arith, size1, labels_size, length-hdr_bytes (header q)) in
        let s2 = put_state hb w s1 in
        let holds2 = put-Holds hb w s1 holds1 fits1 in
        let size2 : length s2.pkt_buf ≡ length s1.pkt_buf = put-length hb w s1 holds1 fits1 in
        let fits2 : length (hb ++ w) + length (tail_bytes q) ≤ length s2.pkt_buf = omega (
          arith,
          size2,
          size1,
          labels_size,
          length-hdr_bytes (header q),
          length-append hb w,
          length-tail q,
        ) in
        let s3 = put_state (hb ++ w) (tail_bytes q) s2 in
        let holds3 = put-Holds (hb ++ w) (tail_bytes q) s2 holds2 fits2 in
        let used = 12 + length w + 4 - 12 in
        let s4 : Enc = record s3 { pkt_len = 271 - (259 - used) } in
        let size : s4.pkt_len ≡ length (query_bytes q) = omega (
          arith,
          labels_size,
          length-hdr_bytes (header q),
          length-tail q,
          length-append hb (w ++ tail_bytes q),
          length-append w (tail_bytes q),
        ) in
        let twelve = length-hdr_bytes (header q) in
        let wrote : put 12 w s1 ≡ ok (some (tt, s2)) =
          ap (λ n. put n w s1) (sym twelve) ∙ put-eq hb w s1 holds1 fits1 in
        let wrote' : put (12 + length w) (tail_bytes q) s2 ≡ ok (some (tt, s3)) =
          ap (λ n. put n (tail_bytes q) s2) (omega (arith, twelve, length-append hb w))
          ∙ put-eq (hb ++ w) (tail_bytes q) s2 holds2 fits2 in
        (
          s4,
          then_ _ (mkspace-eq 259 e1 (omega arith)) (
              then_ _
                (put_name-eq 12 (some (join q.labels)) (record e1 { pkt_len = 271 }) named wrote)
                (then_ _ wrote' (
                  retspace-eq 259 used s3 (omega (arith, labels_size)) (omega arith)
                    (omega arith)))),
          size,
          ap (λ n. take n s3.pkt_buf) (size ∙ ap length (sym (append_assoc hb w (tail_bytes q))))
              ∙ holds3
              ∙ append_assoc hb w (tail_bytes q),
        )

    -- A message with one question and no records is encoded to the bytes of the query.
    pub encode-asked :
        (punned : ℕ → Rdata → Rdata) (msg : DnsMsg) (n : ℕ)
        → (e : Enc) × ((dns_msg_encode punned (asked q msg n) buf len).1 ≡ ok (some e))
          × (take e.pkt_len e.pkt_buf ≡ query_bytes q)
    unfolding dns_msg_encode encode_msg encode_qd sync_hdr dns_sect_enc
    encode-asked punned msg n =
        let (e, quest, size, bytes) = quest_step in
        let whole : encode_msg punned (sync_hdr (asked q msg n)) start ≡ ok (some (tt, e)) =
          then_ _ hdr_step (then_ _ (then_ (λ u. pure tt) quest refl) refl) in
        (e, ap result whole, bytes)
      where
        result : Run (Option (Unit {0} × Enc)) → Run (Option Enc)
        result (ok none) = ok none
        result (ok (some (u, e))) = ok (some e)
        result fault = fault
        result stuck = stuck
