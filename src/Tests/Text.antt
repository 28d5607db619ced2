-- ===== src/Tests/Text.antt =====
-- The string and codec theorems at concrete inputs.
use c_db_k8s.Prelude.{replicate, ◌+◌, ◌≡◌, ◌≤◌, ◌⊎◌, refl, [], ◌∷◌, length, take, arith}
use c_db_k8s.Str.Chars.{is_numeral}
use c_db_k8s.Str.Ip6.{ip6_str_decode, ip6_loop, ip6_ip4, ip6_finish, ip6_fill, ip6_last, is_hex}
use c_db_k8s.Str.Ip6.Bounds.{ip6_str_decode_bounds}
use c_db_k8s.Str.Codec.{hex_to_nibble, enc_u16}
use c_db_k8s.Str.Ip4.{Addr4, ip4_str_encode, ip4_str_decode, size_max}
use c_db_k8s.Str.Ip4.RoundTrip.{decode-encode}
use c_db_k8s.Str.Ip4.Bounds.{ip4_str_decode_bounds}
use c_db_k8s.Str.Slice.{null, str, slice_splitch}
use c_db_k8s.Str.Slice.Split.{count_ch, slice_splitch-join}

abbrev localhost : Addr4
localhost = record { a0 = 127; a1 = 0; a2 = 10; a3 = 1 }

decode-encode_example :
    (length (ip4_str_encode localhost 16).1 ≤ 16)
    × (length (ip4_str_encode localhost 16).1 ≡ (ip4_str_encode localhost 16).0 + 1)
    × (ip4_str_decode (take (ip4_str_encode localhost 16).0 (ip4_str_encode localhost 16).1)
        ≡ ((ip4_str_encode localhost 16).0, 127 ∷ 0 ∷ 10 ∷ 1 ∷ []))
decode-encode_example =
    decode-encode localhost 16
      (record { b0 = omega arith; b1 = omega arith; b2 = omega arith; b3 = omega arith })
      (omega arith)

-- "1.2.x"
ip4_str_decode_bounds_example :
    (length (ip4_str_decode (49 ∷ 46 ∷ 50 ∷ 46 ∷ 120 ∷ [])).1 ≤ 4)
    × (((ip4_str_decode (49 ∷ 46 ∷ 50 ∷ 46 ∷ 120 ∷ [])).0 ≡ 0)
        ⊎ (((ip4_str_decode (49 ∷ 46 ∷ 50 ∷ 46 ∷ 120 ∷ [])).0 ≡ size_max)
            ⊎ ((length (ip4_str_decode (49 ∷ 46 ∷ 50 ∷ 46 ∷ 120 ∷ [])).1 ≡ 4)
                × ((ip4_str_decode (49 ∷ 46 ∷ 50 ∷ 46 ∷ 120 ∷ [])).0 ≤ 5))))
ip4_str_decode_bounds_example = ip4_str_decode_bounds (49 ∷ 46 ∷ 50 ∷ 46 ∷ 120 ∷ [])

-- "GET", a blank and "a"
slice_splitch-join_example :
    (slice_splitch (str (71 ∷ 69 ∷ 84 ∷ 32 ∷ 97 ∷ [])) 32
      ≡ (str (71 ∷ 69 ∷ 84 ∷ []), str (97 ∷ [])))
    × (slice_splitch (str (71 ∷ 69 ∷ 84 ∷ [])) 32 ≡ (str (71 ∷ 69 ∷ 84 ∷ []), null))
unfolding count_ch
slice_splitch-join_example = slice_splitch-join 32 (71 ∷ 69 ∷ 84 ∷ []) (97 ∷ []) refl

-- "fe80::1"
ip6_str_decode_bounds_example :
    length (ip6_str_decode (102 ∷ 101 ∷ 56 ∷ 48 ∷ 58 ∷ 58 ∷ 49 ∷ []) (replicate 16 7)).1 ≡ 16
ip6_str_decode_bounds_example =
    ip6_str_decode_bounds (102 ∷ 101 ∷ 56 ∷ 48 ∷ 58 ∷ 58 ∷ 49 ∷ []) (replicate 16 7) refl

-- "::f:127.0.0.1" is read without the first digit of the embedded address
embedded_test :
    ip6_str_decode
      (58 ∷ 58 ∷ 102 ∷ 58 ∷ 49 ∷ 50 ∷ 55 ∷ 46 ∷ 48 ∷ 46 ∷ 48 ∷ 46 ∷ 49 ∷ [])
      (replicate 16 7)
    ≡ (13, 0 ∷ 0 ∷ 0 ∷ 0 ∷ 0 ∷ 0 ∷ 0 ∷ 0 ∷ 0 ∷ 0 ∷ 0 ∷ 15 ∷ 27 ∷ 0 ∷ 0 ∷ 1 ∷ [])
unfolding ip6_str_decode ip6_loop ip6_ip4 ip6_finish ip6_fill ip6_last is_hex is_numeral
    hex_to_nibble enc_u16 ip4_str_decode
embedded_test = refl
