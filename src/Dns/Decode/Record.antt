-- ===== src/Dns/Decode/Record.antt =====
-- `dns_rr_decode` of src/dns_proto.c on every packet.
use c_db_k8s.Prelude.{
  ℕ, ◌+◌, ◌%◌, ◌^◌, ◌<◌, ◌≤◌, ◌≡◌, refl, ap, ◌∙◌, inl, inr, Bool, true, false, Option, List, Bytes,
  ltb, leb, ◌==◌, length, ok, Bool-cases, if◌then◌else◌, arith,
}
use c_db_k8s.Dns.{Rdata, ns_name, cname, ptr_name, u16_at, u32_at}
use c_db_k8s.Dns.Name.{e_trunc, e_rdatalen}
use c_db_k8s.Dns.Decode.{
  Ctx, goes, Ret, ret_fail, Routine, pure, leave, Location, at_rr, at_hdr, at_name, at_rdata,
  at_tns, at_cname, dec_err, advance, Section, answer, authority, additional, sect_of, put_sect,
}
use c_db_k8s.Dns.Decode.Cases.{decode_rdata}
use c_db_k8s.Dns.Decode.Records.{check, count_up, rr_routine}
use c_db_k8s.Dns.Decode.Reads.{u16_at-ok, u32_at-ok}
use c_db_k8s.Dns.Decode.Rules.{
  Good, Ends, going, exited, Ends-bind, bound, advance-Good, dec_err-Ends, fix_label-Ends, reads-eq,
  edit-Ends, put_sect-names, put_sect-qd,
}
use c_db_k8s.Dns.Decode.Stores.{Somewhere, decode_name_at-Ends, store_name-Ends}
use c_db_k8s.Dns.Decode.Safe.{
  Counts, decode_a-Counts, decode_aaaa-Counts, decode_named-Counts, decode_mx-Counts,
  decode_srv-Counts, decode_soa-Counts,
}
use c_db_k8s.Dns.Decode.Texts.{decode_hinfo-Counts, decode_opt-Counts, decode_txt-Counts}

-- No two bytes of the packet, read as the length of what is behind them, reach behind 64 KiB.
abbrev pub NoWrap : Bytes → Type 0
NoWrap pkt = (i n : ℕ) → u16_at pkt i ≡ ok n → i + 2 + n < 2 ^ 16

module _ (punned : Rdata → List (Option Bytes)) {pkt : Bytes} {q : ℕ} {k : Section → ℕ}
    (sc : Section) (room : k sc < 32) where
  decode_rdata-Counts :
      {o : ℕ} {c : Ctx} (rr_type rr_class rr_ttl rdlen rd_end : ℕ) (name : Bytes)
      → Good pkt q k o c
      → rd_end ≡ o + rdlen
      → rd_end ≤ length pkt
      → 0 < length name
      → Counts pkt q k (decode_rdata punned sc rr_type rr_class rr_ttl rdlen rd_end name c)
  unfolding decode_rdata advance
  decode_rdata-Counts rr_type rr_class rr_ttl rdlen rd_end name g whole le pos =
      let rc = length name in
      by_type (rr_type == 1) _ _ (decode_a-Counts sc room g rdlen rc (omega arith) pos) (
        by_type (rr_type == 2) _ _ (decode_named-Counts sc room g ns_name at_tns (rc + 1)) (
          by_type (rr_type == 5) _ _ (decode_named-Counts sc room g cname at_cname (rc + 1)) (
            by_type (rr_type == 6) _ _ (decode_soa-Counts sc room g rd_end (rc + 1) le) (
              by_type (rr_type == 12) _ _ (decode_named-Counts sc room g ptr_name at_cname (rc + 1))
                (by_type (rr_type == 13) _ _
                  (decode_hinfo-Counts sc room rdlen rd_end rc g whole le pos)
                  (by_type (rr_type == 15) _ _
                    (decode_mx-Counts sc room g rdlen (rc + 1) (omega arith))
                    (by_type (rr_type == 16) _ _
                      (decode_txt-Counts punned sc room rdlen rd_end rc g whole le pos)
                      (by_type (rr_type == 28) _ _
                        (decode_aaaa-Counts sc room g rdlen rc (omega arith) pos)
                        (by_type (rr_type == 33) _ _
                          (decode_srv-Counts sc room g rdlen (rc + 1) (omega arith))
                          (by_type (rr_type == 41) _ _
                            (decode_opt-Counts sc room g rr_class rr_ttl rd_end name le)
                            (going ((_, advance-Good rdlen g (omega arith)), pos))))))))))))
    where
      by_type :
          (b : Bool) (m n : Routine ℕ) {c : Ctx}
          → Counts pkt q k (m c)
          → Counts pkt q k (n c)
          → Counts pkt q k ((if b then m else n) c)
      by_type true m n x y = x
      by_type false m n x y = y

-- one more record in `sc`
abbrev pub bump : Section → (Section → ℕ) → Section → ℕ
bump answer k answer = k answer + 1
bump authority k authority = k authority + 1
bump additional k additional = k additional + 1
bump _ k s = k s

count_up-counted :
    (sc s : Section) (c : Ctx) (k : Section → ℕ)
    → ((t : Section) → (sect_of t c.msg).count ≡ k t)
    → (sect_of s (
        put_sect sc c.msg
          (record (sect_of sc c.msg) { count = (sect_of sc c.msg).count + 1 }))).count
      ≡ bump sc k s
count_up-counted answer answer c k h = ap (λ n. n + 1) (h answer)
count_up-counted answer authority c k h = h authority
count_up-counted answer additional c k h = h additional
count_up-counted authority answer c k h = h answer
count_up-counted authority authority c k h = ap (λ n. n + 1) (h authority)
count_up-counted authority additional c k h = h additional
count_up-counted additional answer c k h = h answer
count_up-counted additional authority c k h = h authority
count_up-counted additional additional c k h = ap (λ n. n + 1) (h additional)

count_up-size :
    (sc s : Section) (c : Ctx) (n : ℕ)
    → (sect_of s (put_sect sc c.msg (record (sect_of sc c.msg) { count = n }))).base
      ≡ (sect_of s c.msg).base
count_up-size answer answer c n = refl
count_up-size answer authority c n = refl
count_up-size answer additional c n = refl
count_up-size authority answer c n = refl
count_up-size authority authority c n = refl
count_up-size authority additional c n = refl
count_up-size additional answer c n = refl
count_up-size additional authority c n = refl
count_up-size additional additional c n = refl

module _ {pkt : Bytes} {q : ℕ} {k : Section → ℕ} {o : ℕ} {c : Ctx} (g : Good pkt q k o c) where
  pub check-err :
      (test : Ctx → Bool) (group field : Location) (ec : ℕ)
      → Ends pkt q k
          (λ u c'. Good pkt q k o c' × (test c ≡ true))
          (check test (dec_err group field ec) c)
  check-err test group field ec = elim (Bool-cases (test c)) [
    | inl holds ↦ rw holds (going (g, refl))
    | inr fails ↦ rw fails (dec_err-Ends g group field ec)
  ]

  pub check-leave :
      (test : Ctx → Bool) (r : Ret)
      → Ends pkt q k (λ u c'. Good pkt q k o c' × (test c ≡ true)) (check test (leave r) c)
  check-leave test r = elim (Bool-cases (test c)) [
    | inl holds ↦ rw holds (going (g, refl))
    | inr fails ↦ rw fails (exited g)
  ]

  count_up-Good :
      (sc : Section) → (c' : Ctx) × (count_up sc c ≡ ok (goes tt c')) × Good pkt q (bump sc k) o c'
  unfolding count_up
  count_up-Good sc =
      let n = (sect_of sc c.msg).count + 1 in
      let m = record (sect_of sc c.msg) { count = n } in
      (
        record c { msg = put_sect sc c.msg m },
        refl,
        record {
          packet = g.packet;
          at = g.at;
          within = g.within;
          names = omega (arith, put_sect-names sc c.msg m, g.names);
          questions = omega (arith, ap length (put_sect-qd sc c.msg m), g.questions);
          size = λ s. ap length (count_up-size sc s c n) ∙ g.size s;
          counted = λ s. count_up-counted sc s c k g.counted;
          errors = g.errors;
        },
      )

-- a record more, and a positive result
abbrev pub Loaded : Bytes → ℕ → (Section → ℕ) → Section → ℕ → Ctx → Type 0
Loaded pkt q k sc rc c = Somewhere pkt q (bump sc k) c × (0 < rc)

module _ (punned : Rdata → List (Option Bytes)) {pkt : Bytes} {q : ℕ} {k : Section → ℕ}
    (sc : Section) (flat : NoWrap pkt) where
  pub rr_routine-Ends :
      {o : ℕ} {c : Ctx}
      → Good pkt q k o c
      → Ends pkt q k (Loaded pkt q k sc) (rr_routine punned sc c)
  unfolding rr_routine advance
  rr_routine-Ends {o} {c} g =
      Ends-bind _ (check-leave g (λ c. ltb (sect_of sc c.msg).count 32) ret_fail) λ u1 c1 (g1, few).
        let room : k sc < 32 = ground (arith, g.counted sc) in
        Ends-bind _ (decode_name_at-Ends g1 at_rr at_name 0) λ found c2 (o2, g2).
          Ends-bind _ (fix_label-Ends g2 0 found) λ name c3 (g3, pos).
            Ends-bind _ (store_name-Ends g3 name _ λ s c4 g4. edit-Ends g4 sc _ room) λ s c5 g5.
              Ends-bind _
                (check-err g5 (λ c. leb (c.dec.offset + 10) (length c.dec.pkt_buf)) at_rr at_hdr
                  e_trunc)
                λ u6 c6 (g6, header).
                  let inside : o2 + 10 ≤ length pkt = ground (arith, g5.at, ap length g5.packet) in
                  let (rr_type, read0) = u16_at-ok pkt (o2 + 0) (omega arith) in
                  let (rr_class, read1) = u16_at-ok pkt (o2 + 2) (omega arith) in
                  let (rr_ttl, read2) = u32_at-ok pkt (o2 + 4) (omega arith) in
                  let (rdlen, read3) = u16_at-ok pkt (o2 + 8) (omega arith) in
                  let short = flat (o2 + 8) rdlen read3 in
                  bound _ (reads-eq g6 u16_at 0 read0) (
                    bound _ (reads-eq g6 u16_at 2 read1) (
                      bound _ (reads-eq g6 u32_at 4 read2) (
                        bound _ (reads-eq g6 u16_at 8 read3) (
                          Ends-bind _ (edit-Ends (advance-Good 10 g6 inside) sc _ room) λ u7 c7 g7.
                            let rd_end = (c7.dec.offset + rdlen) % 2 ^ 16 in
                            let whole : rd_end ≡ o2 + 10 + rdlen = omega (arith, g7.at) in
                            Ends-bind _
                              (check-err g7 (λ c. leb rd_end (length c.dec.pkt_buf)) at_rr at_rdata
                                e_trunc)
                              λ u8 c8 (g8, fits).
                                Ends-bind _
                                  (decode_rdata-Counts punned sc room rr_type rr_class rr_ttl rdlen
                                    rd_end name g8 whole (ground (arith, ap length g7.packet)) pos)
                                  λ rc c9 ((o9, g9), rc_pos).
                                    Ends-bind _
                                      (check-err g9 (λ c. c.dec.offset == rd_end) at_rr at_rdata
                                        e_rdatalen)
                                      λ u10 c10 (g10, ended).
                                        let (c11, e, g11) = count_up-Good g10 sc in
                                        bound (λ u. pure rc) e (going ((o9, g11), rc_pos))))))
