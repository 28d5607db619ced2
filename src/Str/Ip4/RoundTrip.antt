-- ===== src/Str/Ip4/RoundTrip.antt =====
-- `ip4_str_encode` and `ip4_str_decode` of src/str_util.c, one after the other.
use c_db_k8s.Prelude.{
  ℕ, ◌+◌, ◌<◌, ◌≤◌, ◌≡◌, refl, ◌∙◌, false, [], ◌∷◌, ◌++◌, Bytes, ltb, length, arith, length-append,
  take, take-append, ap,
}
use c_db_k8s.Str.Codec.{uint8_toa}
use c_db_k8s.Str.Ip4.{Ip4, ip4_dot, ip4_loop, ip4_str_decode, ip4_str_encode, Addr4, dotted}

-- the state after the digits of `v`
abbrev took : Ip4 → ℕ → Ip4
took s v = record s {
  num_digit = length (uint8_toa v);
  acc = v;
  pos = s.pos + length (uint8_toa v);
}

ip4_loop-uint8_toa :
    (s : Ip4) (v : ℕ) (rest : Bytes)
    → v < 256
    → s.num_digit ≡ 0
    → s.acc ≡ 0
    → ip4_loop s (uint8_toa v ++ rest) ≡ ip4_loop (took s v) rest
unfolding uint8_toa ip4_loop
ip4_loop-uint8_toa s v rest h d a = ground arith

ip4_loop-dot :
    (s : Ip4) (rest : Bytes)
    → 0 < s.num_digit
    → s.num_dot < 3
    → ip4_loop s (b'.' ∷ rest) ≡ ip4_loop (ip4_dot s) rest
unfolding ip4_loop
ip4_loop-dot s rest d n = ground arith

uint8_toa-pos : (v : ℕ) → 0 < length (uint8_toa v)
unfolding uint8_toa
uint8_toa-pos v = ground arith

-- one number of the quad and its dot
ip4_loop-part :
    (s : Ip4) (v : ℕ) (rest : Bytes)
    → v < 256
    → s.num_digit ≡ 0
    → s.acc ≡ 0
    → s.num_dot < 3
    → ip4_loop s (uint8_toa v ++ (b'.' ∷ rest)) ≡ ip4_loop (ip4_dot (took s v)) rest
ip4_loop-part s v rest h d a n =
    ip4_loop-uint8_toa s v (b'.' ∷ rest) h d a ∙ ip4_loop-dot (took s v) rest (uint8_toa-pos v) n

pub record IsAddr4 (addr : Addr4) : Type 0 where
  pub b0 : addr.a0 < 256
  pub b1 : addr.a1 < 256
  pub b2 : addr.a2 < 256
  pub b3 : addr.a3 < 256

abbrev pub octets : Addr4 → Bytes
octets addr = addr.a0 ∷ addr.a1 ∷ addr.a2 ∷ addr.a3 ∷ []

length-dotted :
    (addr : Addr4)
    → length (dotted addr)
      ≡ length (uint8_toa addr.a0)
        + length (uint8_toa addr.a1)
        + length (uint8_toa addr.a2)
        + length (uint8_toa addr.a3)
        + 3
length-dotted addr = omega (
  arith,
  length-append (uint8_toa addr.a0) _,
  length-append (uint8_toa addr.a1) _,
  length-append (uint8_toa addr.a2) _,
)

-- the last number, at the end of the string
ip4_loop-last :
    (s : Ip4) (v : ℕ)
    → v < 256
    → s.num_digit ≡ 0
    → s.acc ≡ 0
    → s.num_dot ≡ 3
    → ip4_loop s (uint8_toa v) ≡ (s.pos + length (uint8_toa v), s.dst ++ (v ∷ []))
unfolding uint8_toa ip4_loop
ip4_loop-last s v h d a n = ground arith

decode-dotted :
    (addr : Addr4)
    → IsAddr4 addr
    → ip4_str_decode (dotted addr) ≡ (length (dotted addr), octets addr)
unfolding ip4_str_decode
decode-dotted addr v =
    ip4_loop-part _ addr.a0 _ v.b0 refl refl (omega arith)
    ∙ ip4_loop-part _ addr.a1 _ v.b1 refl refl (omega arith)
    ∙ ip4_loop-part _ addr.a2 _ v.b2 refl refl (omega arith)
    ∙ ip4_loop-last _ addr.a3 v.b3 refl refl refl
    ∙ ap (λ n. (n, octets addr)) (omega (arith, length-dotted addr))

uint8_toa-le : (v : ℕ) → length (uint8_toa v) ≤ 3
unfolding uint8_toa
uint8_toa-le v = ground arith

-- A quad of four octets, printed into a buffer of at least 16 bytes, stays inside the buffer with
-- its terminator, and the text before the terminator reads back as the same octets, all of it
-- consumed.
pub decode-encode :
    (addr : Addr4) (len : ℕ)
    → IsAddr4 addr
    → 16 ≤ len
    → (length (ip4_str_encode addr len).1 ≤ len)
      × (length (ip4_str_encode addr len).1 ≡ (ip4_str_encode addr len).0 + 1)
      × (ip4_str_decode (take (ip4_str_encode addr len).0 (ip4_str_encode addr len).1)
          ≡ ((ip4_str_encode addr len).0, octets addr))
unfolding ip4_str_encode
decode-encode addr len v room =
    let big : ltb len 16 ≡ false = ground arith in
    let seam = length-append (dotted addr) (0 ∷ []) in
    let parts = length-dotted addr in
    rw big (
      omega (
        arith,
        seam,
        parts,
        uint8_toa-le addr.a0,
        uint8_toa-le addr.a1,
        uint8_toa-le addr.a2,
        uint8_toa-le addr.a3,
      ),
      omega (arith, seam),
      rw (take-append (dotted addr) (0 ∷ [])) (decode-dotted addr v),
    )
