-- ===== src/Resolv/Digits.antt =====
-- `ipstr_decode` of src/dns_resolv.c on a text that `ip4_str_decode` of src/str_util.c refuses with -1.
use c_db_k8s.Prelude.{ℕ, ◌+◌, ◌*◌, ◌<◌, ◌≡◌, refl, [], ◌∷◌, Bytes}
use c_db_k8s.Str.Ip4.{size_max, ip4_str_decode}
use c_db_k8s.Str.Ip4.Bounds.{ip4_str_decode_four_digits}
use c_db_k8s.Resolv.{ipv4, ipstr_decode}

-- A string that begins with four digits, the first three of which are a number below 256, gets
-- `SIZE_MAX` of `ip4_str_decode`, which has written no byte, and `ipstr_decode` takes that for an
-- IPv4 address: it returns `DNS_IPV4`, and the memory of the address is what it was.
pub ipstr_decode_four_digits :
    (a b c d : ℕ) (str ip_addr : Bytes)
    → a < 10
    → b < 10
    → c < 10
    → d < 10
    → a * 100 + b * 10 + c < 256
    → (ip4_str_decode ((a + b'0') ∷ (b + b'0') ∷ (c + b'0') ∷ (d + b'0') ∷ str) ≡ (size_max, []))
      × (ipstr_decode ((a + b'0') ∷ (b + b'0') ∷ (c + b'0') ∷ (d + b'0') ∷ str) ip_addr
          ≡ (ipv4, ip_addr))
unfolding ipstr_decode
ipstr_decode_four_digits a b c d str ip_addr ha hb hc hd h =
    let refused = ip4_str_decode_four_digits a b c d str ha hb hc hd h in
    (refused, rw (refused, ipstr_decode) refl)
