-- ===== src/Str/Ip4.antt =====
-- `ip4_str_decode` and `ip4_str_encode` of src/str_util.c.
pub mod RoundTrip
pub mod Bounds
use c_db_k8s.Prelude.{
  ℕ, ◌+◌, ◌-◌, ◌*◌, ◌^◌, ◌||◌, [], ◌∷◌, ◌++◌, Bytes, ltb, leb, ◌==◌, if◌then◌else◌, length, not,
}
use c_db_k8s.Str.Chars.{is_numeral}
use c_db_k8s.Str.Codec.{uint8_toa}

-- the local variables of the loop, `dst` being the bytes written so far
pub record Ip4 : Type 0 where
  pub num_digit : ℕ
  pub num_dot : ℕ
  pub acc : ℕ
  pub dst : Bytes
  pub pos : ℕ

abbrev pub ip4_start : Ip4
ip4_start = record { num_digit = 0; num_dot = 0; acc = 0; dst = []; pos = 0 }

-- `-1` as a `size_t`
abbrev pub size_max : ℕ
size_max = 2 ^ 64 - 1

-- the code behind the loop: the value returned and the bytes in `dst`
unfoldable pub ip4_finish : Ip4 → ℕ × Bytes
ip4_finish s =
    if not (s.num_dot == 3) || s.num_digit == 0 then (0, s.dst) else (s.pos, s.dst ++ (s.acc ∷ []))

abbrev pub ip4_digit : Ip4 → ℕ → Ip4
ip4_digit s ch = record s {
  num_digit = s.num_digit + 1;
  acc = s.acc * 8 + s.acc * 2 + (ch - b'0');
  pos = s.pos + 1;
}

abbrev pub ip4_dot : Ip4 → Ip4
ip4_dot s = record {
  num_digit = 0;
  num_dot = s.num_dot + 1;
  acc = 0;
  dst = s.dst ++ (s.acc ∷ []);
  pos = s.pos + 1;
}

-- A character that is no digit and no dot ends the loop after it has been read.
unfoldable pub ip4_loop : Ip4 → Bytes → ℕ × Bytes
unfolding ip4_finish is_numeral
ip4_loop s [] = ip4_finish s
ip4_loop s (ch ∷ str) =
    let digit = ip4_loop (ip4_digit s ch) str in
    let dot = ip4_loop (ip4_dot s) str in
    if is_numeral ch
    then (if ltb 3 (s.num_digit + 1)
        then (size_max, s.dst)
        else (if ltb 255 (ip4_digit s ch).acc then (0, s.dst) else digit))
    else if ch == b'.'
    then (if s.num_digit == 0 || leb 3 s.num_dot then (0, s.dst) else dot)
    else ip4_finish (record s { pos = s.pos + 1 })

unfoldable pub ip4_str_decode : Bytes → ℕ × Bytes
unfolding ip4_loop
ip4_str_decode str = ip4_loop ip4_start str

pub record Addr4 : Type 0 where
  pub a0 : ℕ
  pub a1 : ℕ
  pub a2 : ℕ
  pub a3 : ℕ

-- `sizeof("255.255.255.255")`
abbrev pub ip4_addr_strlen : ℕ
ip4_addr_strlen = 16

abbrev pub dotted : Addr4 → Bytes
dotted addr =
    uint8_toa addr.a0
    ++ (b'.' ∷ (uint8_toa addr.a1 ++ (b'.' ∷ (uint8_toa addr.a2 ++ (b'.' ∷ uint8_toa addr.a3)))))

-- the value returned and the bytes written, the terminator included
unfoldable pub ip4_str_encode : Addr4 → ℕ → ℕ × Bytes
unfolding uint8_toa
ip4_str_encode addr len =
    if ltb len ip4_addr_strlen then (0, []) else (length (dotted addr), dotted addr ++ (0 ∷ []))
