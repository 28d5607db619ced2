-- ===== src/Dns/Decode/Start.antt =====
-- The steps of `decode_msg` of src/dns_proto.c, and the header.
use c_db_k8s.Prelude.{
  ℕ, ◌+◌, ◌≤◌, ◌≡◌, refl, ap, ◌∙◌, ◌⊎◌, inl, inr, true, false, Option, List, Bytes, ltb, ◌==◌,
  length, Run, ok, Bool-cases, arith,
}
use c_db_k8s.Dns.{Rdata, DnsHdr, DnsMsg, dns_hdr_decode, dns_msg_reset}
use c_db_k8s.Dns.Decode.{
  Ctx, Ret, ret, at_pdu, at_hdr, Section, answer, authority, additional, sect_of, dns_dec_err,
}
use c_db_k8s.Dns.Decode.Records.{is_zero, decode_hdr, sect_loop, step}
use c_db_k8s.Dns.Decode.Reads.{u16_at-ok}
use c_db_k8s.Dns.Decode.Rules.{Good, dns_dec_err-Good}
use c_db_k8s.Dns.Decode.Stores.{Somewhere}
use c_db_k8s.Dns.Decode.Record.{NoWrap, bump}
use c_db_k8s.Dns.Decode.Sections.{Returns, Honest, sect_loop-AtMost, k-le-bump, dns_dec_err-Honest}

-- a message has an array of 32 records in each section
abbrev pub HasArrays : DnsMsg → Type 0
HasArrays msg = (s : Section) → length (sect_of s msg).base ≡ 32

-- one question at most, and `b` records at most in each section
abbrev pub Bounds : Bytes → (Section → ℕ) → Ctx → Type 0
Bounds pkt b c =
    (q : ℕ) × (q ≤ 1) × (k : Section → ℕ) × ((s : Section) → k s ≤ b s) × Somewhere pkt q k c

abbrev pub none_yet : Section → ℕ
none_yet s = 0

bump_mono : (sc s : Section) (k b : Section → ℕ) → k s ≤ b s → bump sc k s ≤ bump sc b s
bump_mono answer answer k b h = omega arith
bump_mono answer authority k b h = h
bump_mono answer additional k b h = h
bump_mono authority answer k b h = h
bump_mono authority authority k b h = omega arith
bump_mono authority additional k b h = h
bump_mono additional answer k b h = h
bump_mono additional authority k b h = h
bump_mono additional additional k b h = omega arith

le_trans' : (a b c : ℕ) → a ≤ b → b ≤ c → a ≤ c
le_trans' a b c h k = omega arith

-- `if ((rc = step)) return rc;`
pub step-Returns :
    {P Q : Ctx → Type 0} {m : Run (Ret × Ctx)} {f : Ctx → Run (Ret × Ctx)}
    → Returns (λ r c. P c × Honest r c) m
    → ((c : Ctx) → P c → Returns (λ r c'. Q c' × Honest r c') (f c))
    → ((c : Ctx) → P c → Q c)
    → Returns (λ r c. Q c × Honest r c) (step m f)
step-Returns {P} {Q} {m} {f} (r, c, e, h) go weaken = rw e (branch (Bool-cases (is_zero r)))
  where
    branch :
        (is_zero r ≡ true) ⊎ (is_zero r ≡ false)
        → Returns (λ r c. Q c × Honest r c) (elim (is_zero r) [ true ↦ f c | false ↦ ok (r, c) ])
    branch (inl fine) = rw fine (go c h.0)
    branch (inr bad) = rw bad (r, c, refl, (weaken c h.0, h.1))

module _ (punned : Rdata → List (Option Bytes)) {pkt : Bytes} (flat : NoWrap pkt) where
  pub sect-Bounds :
      (b : Section → ℕ) (sc : Section) (n : ℕ) (c : Ctx)
      → Bounds pkt b c
      → Returns (λ r c'. Bounds pkt (bump sc b) c' × Honest r c') (sect_loop punned n 0 sc c)
  sect-Bounds b sc n c (q, asked, k, le, (o, g)) =
      let (r, c', e, h) = sect_loop-AtMost punned sc flat n 0 g in
      let (k', le', there) = h.0 in
      (
        r,
        c',
        e,
        ((q, asked, k', λ s. le_trans' _ _ _ (le' s) (bump_mono sc s k b (le s)), there), h.1),
      )

  pub widen : (b : Section → ℕ) (sc : Section) (c : Ctx) → Bounds pkt b c → Bounds pkt (bump sc b) c
  widen b sc c (q, asked, k, le, there) =
      (q, asked, k, λ s. le_trans' _ _ _ (le s) (k-le-bump sc s b), there)

hdr-total :
    (hdr : DnsHdr) (buf : Bytes)
    → (n : ℕ) × (h : DnsHdr) × (dns_hdr_decode hdr buf ≡ ok (n, h)) × (n ≡ 0 → 12 ≤ length buf)
unfolding dns_hdr_decode
hdr-total hdr buf = elim (Bool-cases (ltb (length buf) 12)) [
  | inl short ↦ (1, hdr, rw short, λ e. absurd (omega (arith, e)))
  | inr long ↦
      let (id, e0) = u16_at-ok buf 0 (ground arith) in
      let (flags, e1) = u16_at-ok buf 2 (ground arith) in
      let (qd_count, e2) = u16_at-ok buf 4 (ground arith) in
      let (an_count, e3) = u16_at-ok buf 6 (ground arith) in
      let (ns_count, e4) = u16_at-ok buf 8 (ground arith) in
      let (ar_count, e5) = u16_at-ok buf 10 (ground arith) in
      (
        0,
        record {
          id = id;
          flags = flags;
          qd_count = qd_count;
          an_count = an_count;
          ns_count = ns_count;
          ar_count = ar_count;
        },
        rw (long, e0, e1, e2, e3, e4, e5),
        λ e. ground arith,
      )
]

pub reset-size : (msg : DnsMsg) → HasArrays msg → HasArrays (dns_msg_reset msg)
unfolding dns_msg_reset
reset-size msg h answer = h answer
reset-size msg h authority = h authority
reset-size msg h additional = h additional

pub reset-count : (msg : DnsMsg) (s : Section) → (sect_of s (dns_msg_reset msg)).count ≡ 0
unfolding dns_msg_reset
reset-count msg answer = refl
reset-count msg authority = refl
reset-count msg additional = refl

hdr-size : (msg : DnsMsg) (h : DnsHdr) → HasArrays msg → HasArrays (record msg { hdr = h })
hdr-size msg h a answer = a answer
hdr-size msg h a authority = a authority
hdr-size msg h a additional = a additional

hdr-count :
    (msg : DnsMsg) (h : DnsHdr) (s : Section)
    → (sect_of s (record msg { hdr = h })).count ≡ (sect_of s msg).count
hdr-count msg h answer = refl
hdr-count msg h authority = refl
hdr-count msg h additional = refl

pub decode_hdr-Returns :
    {pkt : Bytes} {c : Ctx}
    → Good pkt 0 none_yet 0 c
    → Returns (λ r c'. Somewhere pkt 0 none_yet c' × Honest r c') (decode_hdr c)
unfolding decode_hdr
decode_hdr-Returns {pkt} {c} g =
    let (n, h, e, long) = hdr-total c.msg.hdr c.dec.pkt_buf in
    rw (e, decode_hdr)
      (elim (Bool-cases (n == 0)) [
        | inl fine ↦ rw fine (
          ret 0,
          record {
            dec = record c.dec { offset = c.dec.offset + 12 };
            msg = record c.msg { hdr = h };
          },
          refl,
          (
            (
              12,
              record {
                packet = g.packet;
                at = omega (arith, g.at);
                within = ground (arith, long, ap length g.packet);
                names = g.names;
                questions = g.questions;
                size = hdr-size c.msg h g.size;
                counted = λ s. hdr-count c.msg h s ∙ g.counted s;
                errors = g.errors;
              },
            ),
            inl refl,
          ),
        )
        | inr short ↦ rw short (
            let r = dns_dec_err c at_pdu at_hdr n in
            (
              r.0,
              r.1,
              refl,
              ((0, dns_dec_err-Good at_pdu at_hdr n g), dns_dec_err-Honest c at_pdu at_hdr n),
            ))
      ])
