-- ===== src/Dns/Decode/Texts.antt =====
-- The cases of `dns_rr_decode` of src/dns_proto.c with counted strings, and those of EDNS.
use c_db_k8s.Prelude.{
  ℕ, zero, suc, ◌+◌, ◌<◌, ◌≤◌, ◌≡◌, refl, inl, inr, false, Option, none, some, List, [], ◌∷◌, ◌++◌,
  Bytes, ltb, leb, length, Bool-cases, arith,
}
use c_db_k8s.Dns.{Rdata, hinfo, txt}
use c_db_k8s.Dns.Name.{e_rdatalen, e_msgfmt}
use c_db_k8s.Dns.Decode.{Ctx, at_rr, at_hinfo, at_txt, at_opt, advance, Section}
use c_db_k8s.Dns.Decode.Cases.{
  decode_os, decode_hinfo, decode_opt, opt_text, is_additional, txt_of, put_txt, add_txt, txt_loop,
  decode_txt,
}
use c_db_k8s.Dns.Decode.Rules.{
  Good, Ends, going, exited, Ends-bind, bound, advance-Good, guard-Ends, set_rdata-Ends, edit-Ends,
  get_slot-Ends,
}
use c_db_k8s.Dns.Decode.Stores.{Somewhere, store_str-Ends, store_name-Ends}
use c_db_k8s.Dns.Decode.Safe.{Counts, counted-Ends}

module _ {pkt : Bytes} {q : ℕ} {k : Section → ℕ} (sc : Section) (room : k sc < 32) where
  module _ {o : ℕ} {c : Ctx} (g : Good pkt q k o c) where
    hinfo_os :
        (cpu_str : Option Bytes) (rd_end rc : ℕ)
        → rd_end ≤ length pkt
        → 0 < rc
        → Counts pkt q k (decode_os sc cpu_str rd_end rc c)
    unfolding decode_os advance
    hinfo_os cpu_str rd_end rc le pos =
        Ends-bind _ (guard-Ends g (ltb c.dec.offset rd_end) at_rr at_hinfo e_rdatalen)
          λ u c1 (g1, before).
            Ends-bind _ (counted-Ends g1 at_hinfo rd_end (ground (arith, g.at)) le)
              λ os c2 (g2, fits).
                Ends-bind _
                  (store_str-Ends g2 os _ λ s c3 g3. set_rdata-Ends g3 sc (hinfo cpu_str s) room)
                  λ s c4 g4.
                    going ((o + 1 + length os, advance-Good (length os) g4 (omega arith)), pos)

    pub decode_opt-Counts :
        (rr_class rr_ttl rd_end : ℕ) (name : Bytes)
        → rd_end ≤ length pkt
        → Counts pkt q k (decode_opt sc rr_class rr_ttl rd_end name c)
    unfolding decode_opt opt_text
    decode_opt-Counts rr_class rr_ttl rd_end name le =
        Ends-bind _ (guard-Ends g (is_additional sc) at_rr at_opt e_msgfmt) λ u c1 (g1, allowed).
          Ends-bind _ (edit-Ends g1 sc _ room) λ u c2 g2.
            Ends-bind _ (store_name-Ends g2 name _ λ s c3 g3. edit-Ends g3 sc _ room) λ s c4 g4.
              going (
                (
                  rd_end,
                  record {
                    packet = g4.packet;
                    at = refl;
                    within = le;
                    names = g4.names;
                    questions = g4.questions;
                    size = g4.size;
                    counted = g4.counted;
                    errors = g4.errors;
                  },
                ),
                omega arith,
              )

  pub decode_hinfo-Counts :
      {o : ℕ} {c : Ctx} (rdlen rd_end rc : ℕ)
      → Good pkt q k o c
      → rd_end ≡ o + rdlen
      → rd_end ≤ length pkt
      → 0 < rc
      → Counts pkt q k (decode_hinfo sc rdlen rd_end rc c)
  unfolding decode_hinfo advance
  decode_hinfo-Counts rdlen rd_end rc g whole le pos =
      Ends-bind _ (guard-Ends g (leb 2 rdlen) at_rr at_hinfo e_rdatalen) λ u c1 (g1, two).
        Ends-bind _ (counted-Ends g1 at_hinfo rd_end (ground arith) le) λ cpu c2 (g2, fits).
          Ends-bind _ (store_str-Ends g2 cpu _ λ s c3 g3. set_rdata-Ends g3 sc (hinfo s none) room)
            λ s c4 g4. hinfo_os (advance-Good (length cpu) g4 (omega arith)) s rd_end rc le pos

module _ (punned : Rdata → List (Option Bytes)) {pkt : Bytes} {q : ℕ} {k : Section → ℕ}
    (sc : Section) (room : k sc < 32) where
  add_txt-Ends :
      {o : ℕ} {c : Ctx} (str : Bytes)
      → Good pkt q k o c
      → Ends pkt q k (λ u. Good pkt q k o) (add_txt punned sc str c)
  unfolding add_txt put_txt
  add_txt-Ends {o} {c} str g =
      let (r, e) = get_slot-Ends g sc room in
      bound _ e (elim (Bool-cases (leb 32 (length (txt_of punned r.rdata)))) [
        | inl full ↦ rw full (exited g)
        | inr free ↦ rw free (
            Ends-bind _
              (store_str-Ends g str _ (λ s c' g'. put (txt_of punned r.rdata) s c' free g'))
              λ s c2 g2. going g2)
      ])
    where
      put :
          (strs : List (Option Bytes)) (s : Option Bytes) (c' : Ctx)
          → leb 32 (length strs) ≡ false
          → Good pkt q k o c'
          → Ends pkt q k (λ u. Good pkt q k o) (put_txt punned sc strs s c')
      put strs none c' free g' = rw free (going g')
      put strs (some t) c' free g' =
          rw free (set_rdata-Ends g' sc (txt (strs ++ (some t ∷ []))) room)

  txt_loop-Ends :
      (rounds : ℕ) {o : ℕ} {c : Ctx} (rd_end : ℕ)
      → Good pkt q k o c
      → rd_end ≤ length pkt
      → rd_end ≤ o + rounds
      → Ends pkt q k (λ u. Somewhere pkt q k) (txt_loop punned rounds sc rd_end c)
  unfolding txt_loop advance
  txt_loop-Ends zero {o} {c} rd_end g le enough = rw ltb_false (going (o, g))
    where
      ltb_false : ltb c.dec.offset rd_end ≡ false
      ltb_false = ground (arith, g.at)
  txt_loop-Ends (suc rounds) {o} {c} rd_end g le enough =
      elim (Bool-cases (ltb c.dec.offset rd_end)) [
        | inl more ↦
            rw (more, txt_loop)
              (Ends-bind _ (counted-Ends g at_txt rd_end (ground (arith, g.at)) le)
                λ str c1 (g1, fits). Ends-bind _ (add_txt-Ends str g1) λ u c2 g2.
                  txt_loop-Ends rounds rd_end (advance-Good (length str) g2 (omega arith)) le
                    (omega arith))
        | inr last ↦ rw (last, txt_loop) (going (o, g))
      ]

  pub decode_txt-Counts :
      {o : ℕ} {c : Ctx} (rdlen rd_end rc : ℕ)
      → Good pkt q k o c
      → rd_end ≡ o + rdlen
      → rd_end ≤ length pkt
      → 0 < rc
      → Counts pkt q k (decode_txt punned sc rdlen rd_end rc c)
  unfolding decode_txt
  decode_txt-Counts rdlen rd_end rc g whole le pos =
      Ends-bind _ (txt_loop-Ends rdlen rd_end g le (omega arith)) λ u c1 there. going (there, pos)
