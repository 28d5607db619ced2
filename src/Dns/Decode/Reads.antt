-- ===== src/Dns/Decode/Reads.antt =====
-- Reads of a packet in src/dns_proto.c that stay inside it.
use c_db_k8s.Prelude.{
  ℕ, ◌+◌, ◌≤◌, ◌≡◌, Bytes, length, length-take, length-drop, take, drop, ok, arith,
}
use c_db_k8s.Dns.{u16_at, u32_at, copy_at}
use c_db_k8s.Str.Codec.{dec_u16, dec_u32}
use c_db_k8s.Dns.Name.Total.{byte_at-ok}

pub u16_at-ok : (pkt : Bytes) (i : ℕ) → i + 2 ≤ length pkt → (n : ℕ) × (u16_at pkt i ≡ ok n)
unfolding u16_at
u16_at-ok pkt i h =
    let (b0, e0) = byte_at-ok pkt i (omega arith) in
    let (b1, e1) = byte_at-ok pkt (i + 1) (omega arith) in (dec_u16 b0 b1, rw (e0, e1))

pub u32_at-ok : (pkt : Bytes) (i : ℕ) → i + 4 ≤ length pkt → (n : ℕ) × (u32_at pkt i ≡ ok n)
unfolding u32_at
u32_at-ok pkt i h =
    let (b0, e0) = byte_at-ok pkt i (omega arith) in
    let (b1, e1) = byte_at-ok pkt (i + 1) (omega arith) in
    let (b2, e2) = byte_at-ok pkt (i + 2) (omega arith) in
    let (b3, e3) = byte_at-ok pkt (i + 3) (omega arith) in
    (dec_u32 b0 b1 b2 b3, rw (e0, e1, e2, e3))

pub copy_at-ok :
    (pkt : Bytes) (i n : ℕ)
    → i + n ≤ length pkt
    → (bytes : Bytes) × (copy_at pkt i n ≡ ok bytes) × (length bytes ≡ n)
unfolding copy_at
copy_at-ok pkt i n h = (
  take n (drop i pkt),
  ground arith,
  omega (arith, length-take n (drop i pkt), length-drop i pkt),
)
