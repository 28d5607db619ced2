-- ===== src/Dns/Name/Names.antt =====
-- `encode_name` of src/dns_proto.c, and `decode_name` on what it wrote.
use c_db_k8s.Prelude.{
  ℕ, ◌+◌, ◌^◌, ◌<◌, ◌≤◌, ◌≡◌, ◌≢◌, refl, some, List, [], ◌∷◌, ◌++◌, Bytes, length, ok, arith,
}
use c_db_k8s.Dns.{c_string}
use c_db_k8s.Dns.Name.{Suffix, named, encode_name, decode_name}
use c_db_k8s.Dns.Name.RoundTrip.{Plain, AreLabels, Behind, join, wire, encode_loop-Written}
use c_db_k8s.Dns.Name.Decodes.{decode_name-wire}

-- the text of a name is a C string
NoNul : Bytes → Type 0
NoNul [] = Unit {0}
NoNul (c ∷ s) = (c ≢ 0) × NoNul s

c_string-NoNul : (s : Bytes) → NoNul s → c_string s ≡ s
unfolding c_string NoNul
c_string-NoNul [] h = refl
c_string-NoNul (c ∷ s) h = ground (arith, c_string-NoNul s h.1)

Plain-NoNul : (l rest : Bytes) → Plain l → NoNul rest → NoNul (l ++ rest)
unfolding NoNul
Plain-NoNul [] rest h r = r
Plain-NoNul (c ∷ l) rest h r = (h.0, Plain-NoNul l rest h.2 r)

Plain-NoNul_alone : (l : Bytes) → Plain l → NoNul l
unfolding NoNul
Plain-NoNul_alone [] h = tt
Plain-NoNul_alone (c ∷ l) h = (h.0, Plain-NoNul_alone l h.2)

join-NoNul : (ls : List Bytes) → AreLabels ls → NoNul (join ls)
unfolding join NoNul
join-NoNul [] h = tt
join-NoNul (l ∷ []) h = Plain-NoNul_alone l h.2
join-NoNul (l ∷ m ∷ ls) h =
    Plain-NoNul l (b'.' ∷ join (m ∷ ls)) h.2
      (λ e. absurd (omega (arith, e)), join-NoNul (m ∷ ls) h.3)

pub c_string-join : (ls : List Bytes) → AreLabels ls → c_string (join ls) ≡ join ls
c_string-join ls h = c_string-NoNul (join ls) (join-NoNul ls h)

-- A name that `encode_name` writes at the end of a packet, where the table holds no suffix that
-- stands in front of it, is read back by `decode_name`: labels of 1 to 63 bytes without a dot or a NUL
-- come back as the same text, behind which the decoder stops, where the packet stays within 64 KiB and
-- the buffer has room for the text and its NUL.
pub decode-encode_name :
    (ls : List Bytes) (pre post : Bytes) (table : List Suffix) (nlen : ℕ)
    → AreLabels ls
    → Behind (length pre) table
    → length pre + length (wire ls) ≤ 2 ^ 16
    → length (join ls) < nlen
    → (bytes : Bytes) × (t : List Suffix) × (encode_name (length pre) table (some (join ls))
        ≡ ok (some (bytes, t)))
      × (decode_name (pre ++ (bytes ++ post)) (length pre) nlen
          ≡ ok (named (join ls), length pre + length bytes))
unfolding encode_name
decode-encode_name ls pre post table nlen h b room space =
    let text = c_string-join ls h in
    let (t, e, b') =
      encode_loop-Written (length (join ls)) (length pre) (length pre) table ls h (omega arith) room
        (omega arith) b in
    (wire ls, t, rw text e, decode_name-wire ls pre post nlen h space)
