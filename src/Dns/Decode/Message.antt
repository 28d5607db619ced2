-- ===== src/Dns/Decode/Message.antt =====
-- `dns_msg_decode` of src/dns_proto.c, as a whole.
use c_db_k8s.Prelude.{
  ◌<◌, ◌≤◌, ◌≡◌, refl, sym, ap, ◌∙◌, subst, inl, inr, true, Option, List, Bytes, length, Run, ok,
  fault, stuck, arith,
}
use c_db_k8s.Dns.{Rdata, DnsMsg, dns_msg_reset}
use c_db_k8s.Dns.Decode.{Ctx, Ret, ret, ret_fail, Section, answer, authority, additional}
use c_db_k8s.Dns.Decode.Records.{
  is_zero, decode_qd, decode_an, decode_ns, decode_ar, decode_msg, dec_start, dns_msg_decode,
}
use c_db_k8s.Dns.Decode.Rules.{Good}
use c_db_k8s.Dns.Decode.Record.{NoWrap, bump}
use c_db_k8s.Dns.Decode.Sections.{Returns, Honest, qd_loop-Asked}
use c_db_k8s.Dns.Decode.Start.{
  HasArrays, Bounds, none_yet, step-Returns, sect-Bounds, widen, reset-size, reset-count,
  decode_hdr-Returns,
}

module _ (punned : Rdata → List (Option Bytes)) {pkt : Bytes} (flat : NoWrap pkt) where
  decode_msg-Returns :
      (msg : DnsMsg)
      → HasArrays msg
      → Returns
          (λ r c.
            Bounds pkt (bump additional (bump authority (bump answer none_yet))) c × Honest r c)
          (dns_msg_decode punned msg pkt)
  unfolding dns_msg_decode decode_msg decode_qd decode_an decode_ns decode_ar
  decode_msg-Returns msg arrays =
      let b1 = bump answer none_yet in
      let b2 = bump authority b1 in
      let b3 = bump additional b2 in
      let start : Good pkt 0 none_yet 0 (record { dec = dec_start pkt; msg = dns_msg_reset msg }) =
        record {
          packet = refl;
          at = refl;
          within = omega arith;
          names = unfold dns_msg_reset in omega arith;
          questions = unfold dns_msg_reset in refl;
          size = reset-size msg arrays;
          counted = reset-count msg;
          errors = omega arith;
        } in
      step-Returns (decode_hdr-Returns start)
        (λ c1 (o1, g1).
          step-Returns (qd_loop-Asked c1.msg.hdr.qd_count 0 g1)
            (λ c2 (q, le, there).
              step-Returns
                (sect-Bounds punned flat none_yet answer c2.msg.hdr.an_count c2
                  (q, le, none_yet, λ s. omega arith, there))
                (λ c3 p3.
                  step-Returns (sect-Bounds punned flat b1 authority c3.msg.hdr.ns_count c3 p3)
                    (λ c4 p4. sect-Bounds punned flat b2 additional c4.msg.hdr.ar_count c4 p4)
                    (λ c4 p4. widen punned flat b2 additional c4 p4))
                (λ c3 p3.
                  widen punned flat b2 additional c3 (widen punned flat b1 authority c3 p3)))
            (λ c2 (q, le, there). (q, le, none_yet, λ s. below s, there)))
        (λ c1 there. (0, omega arith, none_yet, λ s. below s, there))
    where
      below : (s : Section) → 0 ≤ bump additional (bump authority (bump answer none_yet)) s
      below s = omega arith

is_zero-ret : (r : Ret) → is_zero r ≡ true → r ≡ ret 0
is_zero-ret (ret n) h = ap ret (ground arith)
is_zero-ret ret_fail h = cc

-- the state that a call leaves, from what it returned
same_state :
    {Q : Ret → Ctx → Type 0} {m : Run (Ret × Ctx)} {r : Ret} {c : Ctx}
    → Returns Q m
    → m ≡ ok (r, c)
    → Q r c
same_state {Q} (r', c', e', h) e = subst (λ p. Q p.0 p.1) (ok-injective (sym e' ∙ e)) h
  where
    value : Run (Ret × Ctx) → Ret × Ctx
    value (ok p) = p
    value fault = (r', c')
    value stuck = (r', c')

    ok-injective : {p p' : Ret × Ctx} → ok p ≡ ok p' → p ≡ p'
    ok-injective h = ap value h

-- what a decoded message has room for
pub record Fits (pkt : Bytes) (c : Ctx) : Type 0 where
  pub names : c.msg.names_len ≤ 2048
  pub question : length c.msg.qd ≤ 1
  pub inside : c.dec.offset ≤ length pkt
  pub errors : length c.dec.errs ≤ 10
  pub arrays : HasArrays c.msg

module _ (punned : Rdata → List (Option Bytes)) (msg : DnsMsg) (pkt : Bytes)
    (arrays : HasArrays msg) (flat : NoWrap pkt) where
  -- `dns_msg_decode` loads at most one record into each section, which has 32 places, however many the
  -- packet has, where no two bytes of it, read as a length, reach behind 64 KiB.
  pub dns_msg_decode-one_each :
      (r : Ret) (c : Ctx)
      → dns_msg_decode punned msg pkt ≡ ok (r, c)
      → (c.msg.an.count ≤ 1) × (c.msg.ns.count ≤ 1) × (c.msg.ar.count ≤ 1)
  dns_msg_decode-one_each r c e =
      let (q, asked, k, le, there) = (same_state (decode_msg-Returns punned flat msg arrays) e).0 in
      let g = there.1 in
      (
        omega (arith, g.counted answer, le answer),
        omega (arith, g.counted authority, le authority),
        omega (arith, g.counted additional, le additional),
      )

  -- `dns_msg_decode` returns 0 whatever the packet is, unless ten errors have been noted: an error in
  -- the header, a question or a record is not reported, where no two bytes of the packet, read as a
  -- length, reach behind 64 KiB, and each section of the message has 32 places.
  pub dns_msg_decode-hides_errors :
      (r : Ret) (c : Ctx)
      → dns_msg_decode punned msg pkt ≡ ok (r, c)
      → length c.dec.errs < 10
      → r ≡ ret 0
  dns_msg_decode-hides_errors r c e few =
      elim ((same_state (decode_msg-Returns punned flat msg arrays) e).1) [
        | inl fine ↦ is_zero-ret r fine
        | inr full ↦ absurd (omega arith)
      ]
