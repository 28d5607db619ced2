-- ===== src/Dns/Decode/Stores.antt =====
-- What the routines of the decoder of src/dns_proto.c keep that read and store names.
use c_db_k8s.Prelude.{
  ℕ, ◌+◌, ◌-◌, ◌∙◌, ap, inl, inr, Option, none, some, Bytes, ltb, length, ok, Bool-cases, arith,
}
use c_db_k8s.Dns.{msg_store_str, c_string}
use c_db_k8s.Dns.Name.{Decoded, named, bad}
use c_db_k8s.Dns.Name.Total.{decode_name-total}
use c_db_k8s.Dns.Decode.{
  Ctx, ret_fail, goes, Routine, pure, leave, Location, dec_err, set_offset, decode_name_at, Section,
  store_str, store_name,
}
use c_db_k8s.Dns.Decode.Rules.{
  Good, Ends, going, exited, Ends-bind, Good-offset, dec_err-Ends, names-sect,
}

-- a state of the decoder anywhere in the packet
abbrev pub Somewhere : Bytes → ℕ → (Section → ℕ) → Ctx → Type 0
Somewhere pkt q k c = (o : ℕ) × Good pkt q k o c

module _ {pkt : Bytes} {q : ℕ} {k : Section → ℕ} {o : ℕ} {c : Ctx} (g : Good pkt q k o c) where
  pub decode_name_at-Ends :
      (group field : Location) (w : ℕ)
      → Ends pkt q k (λ name. Somewhere pkt q k) (decode_name_at group field w c)
  unfolding decode_name_at
  decode_name_at-Ends group field w =
      let (d, end, e, inside, most) =
        decode_name-total c.dec.pkt_buf c.dec.offset (1124 - w)
          (omega (arith, g.at, g.within, ap length g.packet)) in
      rw (e, decode_name_at)
        (finish d end (Good-offset end g (omega (arith, inside, ap length g.packet))))
    where
      finish :
          (d : Decoded) (end : ℕ)
          → Good pkt q k end (set_offset c end)
          → Ends pkt q k
              (λ name. Somewhere pkt q k)
              (elim d [
                | named name ↦ ok (goes name (set_offset c end))
                | bad ec ↦ dec_err group field ec (set_offset c end)
              ])
      finish (named name) end h = going (end, h)
      finish (bad ec) end h = dec_err-Ends h group field ec

  pub msg_store_str-Good :
      (str : Bytes) → Good pkt q k o (record c { msg = (msg_store_str c.msg str).0 })
  unfolding msg_store_str
  msg_store_str-Good str =
      let n = c.msg.names_len + length str + 1 in
      elim (Bool-cases (ltb 253 (length str))) [
        | inl long ↦ rw long g
        | inr fits ↦ rw fits (elim (Bool-cases (ltb 2048 (c.msg.names_len + length str + 1))) [
          | inl full ↦ rw full g
          | inr room ↦ rw room (record {
            packet = g.packet;
            at = g.at;
            within = g.within;
            names = ground arith;
            questions = g.questions;
            size = λ s. ap (λ t. length t.base) (names-sect s c.msg n) ∙ g.size s;
            counted = λ s. ap (λ t. t.count) (names-sect s c.msg n) ∙ g.counted s;
            errors = g.errors;
          })
        ])
      ]

  pub store_str-Ends :
      (str : Bytes) (put : Option Bytes → Routine (Unit {0}))
      → ((s : Option Bytes) (c' : Ctx)
          → Good pkt q k o c'
          → Ends pkt q k (λ u. Good pkt q k o) (put s c'))
      → Ends pkt q k (λ s. Good pkt q k o) (store_str str put c)
  unfolding store_str
  store_str-Ends str put h =
      let r = msg_store_str c.msg str in
      Ends-bind (λ u. elim (r.1) [ none ↦ leave ret_fail | some s ↦ pure (some s) ])
        (h r.1 (record c { msg = r.0 }) (msg_store_str-Good str)) (λ u c' g'. last r.1 c' g')
    where
      last :
          (s : Option Bytes) (c' : Ctx)
          → Good pkt q k o c'
          → Ends pkt q k
              (λ t. Good pkt q k o)
              ((elim s as (λ x. Routine (Option Bytes)) [
                | none ↦ leave ret_fail
                | some t ↦ pure (some t)
              ])
                c')
      last none c' g' = exited g'
      last (some t) c' g' = going g'

  pub store_name-Ends :
      (name : Bytes) (put : Option Bytes → Routine (Unit {0}))
      → ((s : Option Bytes) (c' : Ctx)
          → Good pkt q k o c'
          → Ends pkt q k (λ u. Good pkt q k o) (put s c'))
      → Ends pkt q k (λ s. Good pkt q k o) (store_name name put c)
  unfolding store_name
  store_name-Ends name put h = store_str-Ends (c_string name) put h
