-- ===== src/Dns/Decode/Safe.antt =====
-- The cases of `dns_rr_decode` of src/dns_proto.c: what each keeps and returns.
use c_db_k8s.Prelude.{ℕ, ◌+◌, ◌<◌, ◌≤◌, Option, none, some, Bytes, leb, ◌==◌, length, Run, arith}
use c_db_k8s.Dns.{
  a, aaaa, Rdata, u16_at, u32_at, copy_at, byte_at, soa, mx, srv, msg_store_str, c_string,
}
use c_db_k8s.Dns.Name.{e_rdatalen}
use c_db_k8s.Dns.Name.Total.{byte_at-ok}
use c_db_k8s.Dns.Decode.{
  Ctx, Exit, Routine, pure, leave, ret_fail, Location, at_rr, at_a, at_aaaa, at_soa, at_mx, at_srv,
  advance, Section,
}
use c_db_k8s.Dns.Decode.Cases.{
  rdata_name, decode_named, decode_a, decode_aaaa, store_rname, soa_fixed, decode_soa, counted,
  decode_mx, decode_srv,
}
use c_db_k8s.Dns.Decode.Reads.{u16_at-ok, u32_at-ok, copy_at-ok}
use c_db_k8s.Dns.Decode.Rules.{
  Good, Ends, going, exited, Ends-bind, Ends-rule, bound, went, advance-Good, guard-Ends,
  fix_label-Ends, reads-eq, set_rdata-Ends,
}
use c_db_k8s.Dns.Decode.Stores.{Somewhere, decode_name_at-Ends, msg_store_str-Good, store_name-Ends}

-- the case ends with a positive `rc`
abbrev pub Counts : Bytes → ℕ → (Section → ℕ) → Run (Exit ℕ) → Type 0
Counts pkt q k = Ends pkt q k (λ rc c. Somewhere pkt q k c × (0 < rc))

module _ {pkt : Bytes} {q : ℕ} {k : Section → ℕ} {o : ℕ} {c : Ctx} (g : Good pkt q k o c) where
  rdata_name-Ends :
      (field : Location) (w : ℕ)
      → Ends pkt q k (λ s c'. Somewhere pkt q k c' × (0 < length s)) (rdata_name field w c)
  unfolding rdata_name
  rdata_name-Ends field w =
      Ends-bind _ (decode_name_at-Ends g at_rr field w)
        λ name c1 (o1, g1). Ends-rule (fix_label-Ends g1 w name) λ s c2 (g2, pos). ((o1, g2), pos)

  -- a length and its bytes: the length has been passed, and the bytes lie ahead
  pub counted-Ends :
      (field : Location) (rd_end : ℕ)
      → o < rd_end
      → rd_end ≤ length pkt
      → Ends pkt q k
          (λ str c'. Good pkt q k (o + 1) c' × (o + 1 + length str ≤ rd_end))
          (counted field rd_end c)
  unfolding counted advance
  counted-Ends field rd_end lt le =
      let (len, read) = byte_at-ok pkt (o + 0) (omega arith) in
      bound _ (reads-eq g byte_at 0 read) (
        let g1 = advance-Good 1 g (omega arith) in
        Ends-bind _ (guard-Ends g1 (leb (c.dec.offset + 1 + len) rd_end) at_rr field e_rdatalen)
          λ u c2 (g2, fits).
            let in_range : o + 1 + len ≤ rd_end = ground (arith, g1.at) in
            let (bytes, got, size) = copy_at-ok pkt (o + 1 + 0) len (omega arith) in
            went (reads-eq g2 (λ p i. copy_at p i len) 0 got) (g2, omega (arith, size)))

module _ {pkt : Bytes} {q : ℕ} {k : Section → ℕ} (sc : Section) (room : k sc < 32) where
  module _ {o : ℕ} {c : Ctx} (g : Good pkt q k o c) where
    pub decode_a-Counts :
        (rdlen rc : ℕ) → o + rdlen ≤ length pkt → 0 < rc → Counts pkt q k (decode_a sc rdlen rc c)
    unfolding decode_a advance
    decode_a-Counts rdlen rc inside pos =
        Ends-bind _ (guard-Ends g (rdlen == 4) at_rr at_a e_rdatalen) λ u c1 (g1, four).
          let (bytes, read, len) = copy_at-ok pkt (o + 0) 4 (ground arith) in
          bound _ (reads-eq g1 (λ p i. copy_at p i 4) 0 read) (
            Ends-bind _ (set_rdata-Ends g1 sc (a bytes) room)
              λ u c2 g2. going ((o + 4, advance-Good 4 g2 (ground arith)), pos))

    pub decode_aaaa-Counts :
        (rdlen rc : ℕ)
        → o + rdlen ≤ length pkt
        → 0 < rc
        → Counts pkt q k (decode_aaaa sc rdlen rc c)
    unfolding decode_aaaa advance
    decode_aaaa-Counts rdlen rc inside pos =
        Ends-bind _ (guard-Ends g (rdlen == 16) at_rr at_aaaa e_rdatalen) λ u c1 (g1, sixteen).
          let (bytes, read, len) = copy_at-ok pkt (o + 0) 16 (ground arith) in
          bound _ (reads-eq g1 (λ p i. copy_at p i 16) 0 read) (
            Ends-bind _ (set_rdata-Ends (advance-Good 16 g1 (ground arith)) sc (aaaa bytes) room)
              λ u c2 g2. going ((o + 16, g2), pos))

    pub decode_named-Counts :
        (member : Option Bytes → Rdata) (field : Location) (w : ℕ)
        → Counts pkt q k (decode_named sc member field w c)
    unfolding decode_named
    decode_named-Counts member field w =
        Ends-bind _ (rdata_name-Ends g field w) λ name c1 ((o1, g1), pos).
          Ends-bind _ (store_name-Ends g1 name _ λ s c2 g2. set_rdata-Ends g2 sc (member s) room)
            λ s c3 g3. going ((o1, g3), pos)

    pub decode_mx-Counts :
        (rdlen w : ℕ) → o + rdlen ≤ length pkt → Counts pkt q k (decode_mx sc rdlen w c)
    unfolding decode_mx advance
    decode_mx-Counts rdlen w inside =
        Ends-bind _ (guard-Ends g (leb 3 rdlen) at_rr at_mx e_rdatalen) λ u c1 (g1, three).
          let (pref, read) = u16_at-ok pkt (o + 0) (ground arith) in
          bound _ (reads-eq g1 u16_at 0 read) (
            Ends-bind _ (rdata_name-Ends (advance-Good 2 g1 (ground arith)) at_mx w)
              λ name c2 ((o2, g2), pos).
                Ends-bind _
                  (store_name-Ends g2 name _ λ s c3 g3. set_rdata-Ends g3 sc (mx pref s) room)
                  λ s c4 g4. going ((o2, g4), pos))

    pub decode_srv-Counts :
        (rdlen w : ℕ) → o + rdlen ≤ length pkt → Counts pkt q k (decode_srv sc rdlen w c)
    unfolding decode_srv advance
    decode_srv-Counts rdlen w inside =
        Ends-bind _ (guard-Ends g (leb 7 rdlen) at_rr at_srv e_rdatalen) λ u c1 (g1, seven).
          let (prior, read0) = u16_at-ok pkt (o + 0) (ground arith) in
          let (weight, read1) = u16_at-ok pkt (o + 2) (ground arith) in
          let (port, read2) = u16_at-ok pkt (o + 4) (ground arith) in
          bound _ (reads-eq g1 u16_at 0 read0) (
            bound _ (reads-eq g1 u16_at 2 read1) (
              bound _ (reads-eq g1 u16_at 4 read2) (
                Ends-bind _ (rdata_name-Ends (advance-Good 6 g1 (ground arith)) at_srv w)
                  λ name c2 ((o2, g2), pos).
                    Ends-bind _
                      (store_name-Ends g2 name _
                        λ s c3 g3. set_rdata-Ends g3 sc (srv prior weight port s) room)
                      λ s c4 g4. going ((o2, g4), pos))))

    store_rname-Ends :
        (mname : Option Bytes) (name : Bytes)
        → Ends pkt q k (λ s. Good pkt q k o) (store_rname sc mname name c)
    unfolding store_rname
    store_rname-Ends mname name =
        let r = msg_store_str c.msg (c_string name) in
        Ends-bind _
          (set_rdata-Ends (msg_store_str-Good g (c_string name)) sc (soa mname r.1 0 0 0 0 0) room)
          (λ u c' g'. last mname r.1 c' g')
      where
        last :
            (m s : Option Bytes) (c' : Ctx)
            → Good pkt q k o c'
            → Ends pkt q k
                (λ t. Good pkt q k o)
                ((elim m as (λ x. Routine (Option Bytes)) [
                  | none ↦ leave ret_fail
                  | some t ↦ pure s
                ])
                  c')
        last none s c' g' = exited g'
        last (some t) s c' g' = going g'

  module _ {o : ℕ} {c : Ctx} (g : Good pkt q k o c) where
    soa_numbers :
        (mname rname : Option Bytes) (rd_end n : ℕ)
        → rd_end ≤ length pkt
        → 0 < n
        → Counts pkt q k (soa_fixed sc mname rname rd_end n c)
    unfolding soa_fixed advance
    soa_numbers mname rname rd_end n le pos =
        Ends-bind _ (guard-Ends g (leb (c.dec.offset + 20) rd_end) at_rr at_soa e_rdatalen)
          λ u c1 (g1, fits).
            let inside : o + 20 ≤ length pkt = ground (arith, g.at) in
            let (serial, read0) = u32_at-ok pkt (o + 0) (omega arith) in
            let (refresh, read1) = u32_at-ok pkt (o + 4) (omega arith) in
            let (retry, read2) = u32_at-ok pkt (o + 8) (omega arith) in
            let (expire, read3) = u32_at-ok pkt (o + 12) (omega arith) in
            let (min_ttl, read4) = u32_at-ok pkt (o + 16) (omega arith) in
            bound _ (reads-eq g1 u32_at 0 read0) (
              bound _ (reads-eq g1 u32_at 4 read1) (
                bound _ (reads-eq g1 u32_at 8 read2) (
                  bound _ (reads-eq g1 u32_at 12 read3) (
                    bound _ (reads-eq g1 u32_at 16 read4) (
                      Ends-bind _
                        (set_rdata-Ends (advance-Good 20 g1 inside) sc
                          (soa mname rname serial refresh retry expire min_ttl) room)
                        λ u c2 g2. going ((o + 20, g2), pos))))))

  module _ {o : ℕ} {c : Ctx} (g : Good pkt q k o c) where
    pub decode_soa-Counts :
        (rd_end w : ℕ) → rd_end ≤ length pkt → Counts pkt q k (decode_soa sc rd_end w c)
    unfolding decode_soa
    decode_soa-Counts rd_end w le =
        Ends-bind _ (rdata_name-Ends g at_soa w) λ first c1 ((o1, g1), pos1).
          Ends-bind _
            (store_name-Ends g1 first _ λ s c2 g2. set_rdata-Ends g2 sc (soa s none 0 0 0 0 0) room)
            λ mname c3 g3.
              Ends-bind _ (rdata_name-Ends g3 at_soa (w + length first))
                λ second c4 ((o4, g4), pos4).
                  Ends-bind _ (store_rname-Ends g4 mname second)
                    λ rname c5 g5. soa_numbers g5 mname rname rd_end (length second) le pos4
