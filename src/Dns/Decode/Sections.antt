-- ===== src/Dns/Decode/Sections.antt =====
-- `dns_msg_decode` of src/dns_proto.c on every packet, as it is called with `load_msg`.
use c_db_k8s.Prelude.{
  ℕ, zero, suc, ◌+◌, ◌<◌, ◌≤◌, ◌≡◌, refl, ap, ◌⊎◌, inl, inr, true, false, Option, List, [], ◌∷◌,
  ◌++◌, Bytes, ltb, leb, length, length-append, Run, ok, fault, stuck, Bool-cases, arith,
}
use c_db_k8s.Dns.{Rdata, DnsMsg, u16_at}
use c_db_k8s.Dns.Name.{e_trunc}
use c_db_k8s.Dns.Decode.{
  Ctx, Exit, Ret, ret, ret_fail, Location, at_pdu, at_qd, at_hdr, at_name, advance, Section, answer,
  authority, additional, sect_of, dns_dec_err,
}
use c_db_k8s.Dns.Decode.Records.{
  call_of, rr_routine, dns_rr_decode, sect_loop, location, is_zero, qd_routine, dns_qd_decode,
  qd_loop,
}
use c_db_k8s.Dns.Decode.Reads.{u16_at-ok}
use c_db_k8s.Dns.Decode.Rules.{
  Good, Ends, going, exited, Ends-bind, bound, advance-Good, dns_dec_err-Good, reads-eq,
}
use c_db_k8s.Dns.Decode.Stores.{Somewhere, decode_name_at-Ends, store_name-Ends}
use c_db_k8s.Dns.Decode.Record.{NoWrap, Loaded, bump, rr_routine-Ends, check-err, check-leave}

-- A call returns, and `Q` holds of the state that it leaves.
abbrev pub Returns : (Ret → Ctx → Type 0) → Run (Ret × Ctx) → Type 0
Returns Q m = (r : Ret) × (c : Ctx) × (m ≡ ok (r, c)) × Q r c

-- a result other than 0 goes with a full stack of errors
abbrev pub Honest : Ret → Ctx → Type 0
Honest r c = (is_zero r ≡ true) ⊎ (10 ≤ length c.dec.errs)

pub dns_dec_err-Honest :
    (c : Ctx) (group field : Location) (ec : ℕ)
    → Honest (dns_dec_err c group field ec).0 (dns_dec_err c group field ec).1
unfolding dns_dec_err
dns_dec_err-Honest c group field ec = elim (Bool-cases (leb 10 (length c.dec.errs))) [
  | inl full ↦ rw full (inr (ground arith))
  | inr room ↦ rw room (inl refl)
]

-- at most one record more in `sc`
abbrev pub AtMost : Bytes → ℕ → (Section → ℕ) → Section → Ctx → Type 0
AtMost pkt q k sc c =
    (k' : Section → ℕ) × ((s : Section) → k' s ≤ bump sc k s) × Somewhere pkt q k' c

-- a record more, and a result other than 0, or none more
data Few (pkt : Bytes) (q : ℕ) (k : Section → ℕ) (sc : Section) (r : Ret) (c : Ctx) : Type 0 where
  same : Somewhere pkt q k c → Few pkt q k sc r c
  more : Somewhere pkt q (bump sc k) c → is_zero r ≡ false → Few pkt q k sc r c

pub k-le-bump : (sc s : Section) (k : Section → ℕ) → k s ≤ bump sc k s
k-le-bump answer answer k = omega arith
k-le-bump answer authority k = omega arith
k-le-bump answer additional k = omega arith
k-le-bump authority answer k = omega arith
k-le-bump authority authority k = omega arith
k-le-bump authority additional k = omega arith
k-le-bump additional answer k = omega arith
k-le-bump additional authority k = omega arith
k-le-bump additional additional k = omega arith

module _ (punned : Rdata → List (Option Bytes)) {pkt : Bytes} {q : ℕ} {k : Section → ℕ}
    (sc : Section) (flat : NoWrap pkt) where
  dns_rr_decode-Few :
      {o : ℕ} {c : Ctx} → Good pkt q k o c → Returns (Few pkt q k sc) (dns_rr_decode punned sc c)
  unfolding dns_rr_decode
  dns_rr_decode-Few {o} {c} g = finish (rr_routine punned sc c) (rr_routine-Ends punned sc flat g)
    where
      finish :
          (m : Run (Exit ℕ))
          → Ends pkt q k (Loaded pkt q k sc) m
          → Returns (Few pkt q k sc) (call_of m)
      finish m (going {a} {c} (there, pos)) = (ret a, c, refl, more there (ground arith))
      finish m (exited {r} {c} {o} g') = (r, c, refl, same (o, g'))

  pub sect_loop-AtMost :
      (left i : ℕ) {o : ℕ} {c : Ctx}
      → Good pkt q k o c
      → Returns (λ r c'. AtMost pkt q k sc c' × Honest r c') (sect_loop punned left i sc c)
  unfolding sect_loop
  sect_loop-AtMost zero i {o} {c} g =
      (ret 0, c, refl, ((k, λ s. k-le-bump sc s k, (o, g)), inl refl))
  sect_loop-AtMost (suc left) i {o} {c} g =
      let (r, c', e, few) = dns_rr_decode-Few g in
      rw (e, sect_loop)
        (next r c' few (λ o' g'. sect_loop-AtMost left (i + 1) {o = o'} {c = c'} g'))
    where
      stop :
          (c' : Ctx) (k' : Section → ℕ)
          → ((s : Section) → k' s ≤ bump sc k s)
          → Somewhere pkt q k' c'
          → Returns
              (λ r c''. AtMost pkt q k sc c'' × Honest r c'')
              (ok (dns_dec_err c' at_pdu (location sc) (i + 10000)))
      stop c' k' le (o', g') =
          let r = dns_dec_err c' at_pdu (location sc) (i + 10000) in
          (
            r.0,
            r.1,
            refl,
            (
              (k', le, (o', dns_dec_err-Good at_pdu (location sc) (i + 10000) g')),
              dns_dec_err-Honest c' at_pdu (location sc) (i + 10000),
            ),
          )

      next :
          (r : Ret) (c' : Ctx)
          → Few pkt q k sc r c'
          → ((o' : ℕ)
              → Good pkt q k o' c'
              → Returns
                  (λ r c''. AtMost pkt q k sc c'' × Honest r c'')
                  (sect_loop punned left (i + 1) sc c'))
          → Returns
              (λ r c''. AtMost pkt q k sc c'' × Honest r c'')
              (elim (is_zero r) [
                | true ↦ sect_loop punned left (i + 1) sc c'
                | false ↦ ok (dns_dec_err c' at_pdu (location sc) (i + 10000))
              ])
      next r c' (same (o', g')) go = elim (Bool-cases (is_zero r)) [
        | inl zero_ ↦ rw zero_ (go o' g')
        | inr other ↦ rw other (stop c' k (λ s. k-le-bump sc s k) (o', g'))
      ]
      next r c' (more there e) go = rw e (stop c' (bump sc k) (λ s. omega arith) there)

-- one question at most
abbrev pub Asked : Bytes → (Section → ℕ) → Ctx → Type 0
Asked pkt k c = (q : ℕ) × (q ≤ 1) × Somewhere pkt q k c

module _ {pkt : Bytes} {k : Section → ℕ} where
  qd_routine-Ends :
      {q o : ℕ} {c : Ctx}
      → Good pkt q k o c
      → Ends pkt q k (λ rc c'. (q < 1) × Somewhere pkt (q + 1) k c' × (0 < rc)) (qd_routine c)
  unfolding qd_routine advance
  qd_routine-Ends {q} {o} {c} g =
      Ends-bind _ (check-leave g (λ c. ltb (length c.msg.qd) 1) ret_fail) λ u1 c1 (g1, few).
        Ends-bind _ (decode_name_at-Ends g1 at_qd at_name 0) λ name c2 (o2, g2).
          Ends-bind _
            (check-err g2 (λ c. leb (c.dec.offset + 4) (length c.dec.pkt_buf)) at_qd at_hdr e_trunc)
            λ u3 c3 (g3, header).
              let inside : o2 + 4 ≤ length pkt = ground (arith, g2.at, ap length g2.packet) in
              let (qtype, read0) = u16_at-ok pkt (o2 + 0) (omega arith) in
              let (qclass, read1) = u16_at-ok pkt (o2 + 2) (omega arith) in
              bound _ (reads-eq g3 u16_at 0 read0) (
                bound _ (reads-eq g3 u16_at 2 read1) (
                  Ends-bind _
                    (store_name-Ends (advance-Good 4 g3 inside) name _ λ s c4 g4. going g4)
                    λ qname c5 g5. going (
                      ground (arith, g.questions),
                      (
                        o2 + 4,
                        record {
                          packet = g5.packet;
                          at = g5.at;
                          within = g5.within;
                          names = g5.names;
                          questions = omega (
                            arith,
                            g5.questions,
                            length-append c5.msg.qd
                                (record { qname = qname; qtype = qtype; qclass = qclass } ∷ []),
                          );
                          size = size_of c5 qname qtype qclass g5.size;
                          counted = count_of c5 qname qtype qclass g5.counted;
                          errors = g5.errors;
                        },
                      ),
                      omega arith,
                    )))
    where
      longer : Ctx → Option Bytes → ℕ → ℕ → DnsMsg
      longer c qname qtype qclass = record c.msg {
        qd = c.msg.qd ++ (record { qname = qname; qtype = qtype; qclass = qclass } ∷ []);
      }

      size_of :
          (c : Ctx) (qname : Option Bytes) (qtype qclass : ℕ)
          → ((s : Section) → length (sect_of s c.msg).base ≡ 32)
          → (s : Section) → length (sect_of s (longer c qname qtype qclass)).base ≡ 32
      size_of c qname qtype qclass h answer = h answer
      size_of c qname qtype qclass h authority = h authority
      size_of c qname qtype qclass h additional = h additional

      count_of :
          (c : Ctx) (qname : Option Bytes) (qtype qclass : ℕ)
          → ((s : Section) → (sect_of s c.msg).count ≡ k s)
          → (s : Section) → (sect_of s (longer c qname qtype qclass)).count ≡ k s
      count_of c qname qtype qclass h answer = h answer
      count_of c qname qtype qclass h authority = h authority
      count_of c qname qtype qclass h additional = h additional

  pub qd_loop-Asked :
      (rounds i : ℕ) {o : ℕ} {c : Ctx}
      → Good pkt 0 k o c
      → Returns (λ r c'. Asked pkt k c' × Honest r c') (qd_loop rounds i c)
  unfolding qd_loop dns_qd_decode
  qd_loop-Asked zero i {o} {c} g = (ret 0, c, refl, ((0, omega arith, (o, g)), inl refl))
  qd_loop-Asked (suc rounds) i {o} {c} g =
      finish (qd_routine c) (qd_routine-Ends g)
        (λ o' c' g'. qd_loop-Asked rounds (i + 1) {o = o'} {c = c'} g')
    where
      Result : Run (Ret × Ctx) → Type 0
      Result = Returns (λ r c'. Asked pkt k c' × Honest r c')

      stop : (c' : Ctx) → Asked pkt k c' → Result (ok (dns_dec_err c' at_pdu at_qd (i + 10000)))
      stop c' (n, le, (o', g')) =
          let r = dns_dec_err c' at_pdu at_qd (i + 10000) in
          (
            r.0,
            r.1,
            refl,
            (
              (n, le, (o', dns_dec_err-Good at_pdu at_qd (i + 10000) g')),
              dns_dec_err-Honest c' at_pdu at_qd (i + 10000),
            ),
          )

      branch :
          (r : Ret) (c' : Ctx)
          → Asked pkt k c'
          → (is_zero r ≡ true → Result (qd_loop rounds (i + 1) c'))
          → Result (elim (is_zero r) [
            | true ↦ qd_loop rounds (i + 1) c'
            | false ↦ ok (dns_dec_err c' at_pdu at_qd (i + 10000))
          ])
      branch r c' a go = elim (Bool-cases (is_zero r)) [
        | inl none_ ↦ rw none_ (go none_)
        | inr other ↦ rw other (stop c' a)
      ]

      finish :
          (m : Run (Exit ℕ))
          → Ends pkt 0 k (λ rc c'. (0 < 1) × Somewhere pkt (0 + 1) k c' × (0 < rc)) m
          → ((o' : ℕ) (c' : Ctx) → Good pkt 0 k o' c' → Result (qd_loop rounds (i + 1) c'))
          → Result (elim (call_of m) [
            | ok r ↦ elim (is_zero (r.0)) [
              | true ↦ qd_loop rounds (i + 1) r.1
              | false ↦ ok (dns_dec_err r.1 at_pdu at_qd (i + 10000))
            ]
            | fault ↦ fault
            | stuck ↦ stuck
          ])
      finish m (going {a} {c} (few, there, pos)) go =
          branch (ret a) c (1, omega arith, there) (λ z. absurd (ground (arith, pos)))
      finish m (exited {r} {c} {o} g') go = branch r c (0, omega arith, (o, g')) (λ z. go o c g')
