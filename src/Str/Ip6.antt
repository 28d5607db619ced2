-- ===== src/Str/Ip6.antt =====
-- `ip6_str_decode` of src/str_util.c. The buffer `dst` is the bytes it holds, and `dst_ptr`,
-- `zero_ptr`, `str_ptr` and `seg_ptr` are offsets.
pub mod Bounds
use c_db_k8s.Prelude.{
  ℕ, ◌+◌, ◌-◌, ◌*◌, ◌%◌, ◌^◌, Bool, true, false, not, ◌&&◌, ◌||◌, Option, none, some, [], ◌∷◌,
  Bytes, ltb, leb, ◌==◌, if◌then◌else◌, take, drop, replicate, write_at,
}
use c_db_k8s.Str.Chars.{is_numeral}
use c_db_k8s.Str.Codec.{hex_to_nibble, enc_u16}
use c_db_k8s.Str.Ip4.{ip4_str_decode}

-- the local variables; `skip` is whether the next character has been read with a double colon
pub record Ip6 : Type 0 where
  pub num_hex : ℕ
  pub num_seg : ℕ
  pub acc : ℕ
  pub dst : Bytes
  pub at : ℕ
  pub zero_at : Option ℕ
  pub pos : ℕ
  pub seg : ℕ
  pub skip : Bool

abbrev pub ip6_start : Bytes → Ip6
ip6_start dst = record {
  num_hex = 0;
  num_seg = 0;
  acc = 0;
  dst = dst;
  at = 0;
  zero_at = none;
  pos = 0;
  seg = 0;
  skip = false;
}

unfoldable pub is_hex : ℕ → Bool
is_hex ch = is_numeral ch || leb b'A' ch && leb ch b'F' || leb b'a' ch && leb ch b'f'

-- at most four digits, which do not overlap
abbrev pub ip6_digit : Ip6 → ℕ → Ip6
ip6_digit s ch = record s {
  num_hex = s.num_hex + 1;
  acc = s.acc * 16 + hex_to_nibble ch;
  pos = s.pos + 1;
}

-- the 16 bits of a segment are written
abbrev pub ip6_put : Ip6 → Ip6
ip6_put s = record s { dst = write_at s.at (enc_u16 s.acc) s.dst; at = s.at + 2 }

-- `next-segment`: `seg_ptr` is one behind `str_ptr`
abbrev pub ip6_next : Ip6 → Ip6
ip6_next s = record s { num_hex = 0; acc = 0; seg = s.pos + 1; num_seg = s.num_seg + 1 }

abbrev pub ip6_single : Ip6 → Ip6
ip6_single s = ip6_next (record s { pos = s.pos + 1 })

abbrev pub ip6_double : Ip6 → Ip6
ip6_double s = ip6_next (record s { pos = s.pos + 2; zero_at = some s.at; skip = true })

-- `zero-fill gap`
unfoldable pub ip6_fill : Ip6 → Ip6
ip6_fill s = elim s.zero_at [
  | none ↦ s
  | some z ↦ record s {
    dst =
        write_at z (replicate (16 - s.at) 0)
          (write_at (16 - (s.at - z)) (take (s.at - z) (drop z s.dst)) s.dst);
    num_seg = 8;
  }
]

-- `last-segment`
unfoldable pub ip6_last : Ip6 → Ip6
ip6_last s = if s.num_hex == 0 then s else record (ip6_put s) { num_seg = s.num_seg + 1 }

-- the code behind the loop
unfoldable pub ip6_finish : Ip6 → ℕ × Bytes
ip6_finish s =
    let full = ip6_fill (ip6_last s) in (if full.num_seg == 8 then full.pos else 0, full.dst)

-- the code on a dot; `str` is the whole string
unfoldable pub ip6_ip4 : Bytes → Ip6 → ℕ × Bytes
ip6_ip4 str s =
    let r = ip4_str_decode (drop s.seg str) in
    let dst = write_at s.at r.1 s.dst in
    if ltb 6 s.num_seg
    then (0, s.dst)
    else if r.0 == 0
    then (0, dst)
    else ip6_finish (record s {
      num_hex = 0;
      dst = dst;
      at = s.at + 4;
      num_seg = s.num_seg + 2;
      pos = (s.seg + r.0) % 2 ^ 64;
    })

-- whether a double colon begins in front of these characters
abbrev pub starts_colon : Bytes → Bool
starts_colon [] = false
starts_colon (c ∷ s) = c == b':'

unfoldable pub ip6_loop : Bytes → Ip6 → Bytes → ℕ × Bytes
ip6_loop str s [] = ip6_finish s
ip6_loop str s (ch ∷ rest) =
    let passed = ip6_loop str (record s { skip = false }) rest in
    let digit = ip6_loop str (ip6_digit s ch) rest in
    let written = if s.num_hex == 0 then s else ip6_put s in
    let single = ip6_loop str (ip6_single written) rest in
    let double = ip6_loop str (ip6_double written) rest in
    let again : Bool = elim written.zero_at [ none ↦ false | some z ↦ true ] in
    if s.skip
    then passed
    else if is_hex ch
    then (if ltb 4 (s.num_hex + 1) then (0, s.dst) else digit)
    else if ch == b':'
    then (if not (s.num_hex == 0) && leb 7 s.num_seg
        then (0, s.dst)
        else if starts_colon rest
        then (if again then (0, written.dst) else double)
        else single)
    else if ch == b'.'
    then ip6_ip4 str s
    else ip6_finish (record s { pos = s.pos + 1 })

unfoldable pub ip6_str_decode : Bytes → (dst : Bytes) → ℕ × Bytes
ip6_str_decode str dst = ip6_loop str (ip6_start dst) str
