-- ===== src/Str/Ip6/Bounds.antt =====
-- `ip6_str_decode` of src/str_util.c on every string: its accesses.
use c_db_k8s.Prelude.{
  ℕ, ◌+◌, ◌*◌, ◌-◌, ◌≤◌, ◌≡◌, refl, ◌∙◌, ◌⊎◌, inl, inr, Bool, true, false, not, ◌&&◌, Option, none,
  some, [], ◌∷◌, Bytes, ltb, leb, ◌==◌, if◌then◌else◌, length, take, drop, replicate, write_at,
  length-write_at, length-take, length-drop, length-replicate, arith, subst, Bool-cases,
}
use c_db_k8s.Str.Codec.{enc_u16}
use c_db_k8s.Str.Ip4.{ip4_str_decode}
use c_db_k8s.Str.Ip4.Bounds.{ip4_str_decode_bounds}
use c_db_k8s.Str.Ip6.{
  Ip6, ip6_start, is_hex, ip6_digit, ip6_put, ip6_single, ip6_double, ip6_fill, ip6_last,
  ip6_finish, ip6_ip4, starts_colon, ip6_loop, ip6_str_decode,
}

-- the offset of the gap, where there is one, is in the part written
abbrev Gap : Option ℕ → ℕ → Type 0
Gap none at = Unit
Gap (some z) at = z ≤ at

Gap-le : (o : Option ℕ) {at at' : ℕ} → at ≤ at' → Gap o at → Gap o at'
Gap-le none le g = tt
Gap-le (some z) le g = omega (arith, le, g)

-- what holds of the loop's variables at every round
record Inv (s : Ip6) : Type 0 where
  size : length s.dst ≡ 16
  segments : s.at ≤ 2 * s.num_seg
  room : s.at ≤ 14
  gap : Gap s.zero_at s.at

-- what holds behind it
record Ended (s : Ip6) : Type 0 where
  size : length s.dst ≡ 16
  room : s.at ≤ 16
  gap : Gap s.zero_at s.at

length-enc_u16 : (v : ℕ) → length (enc_u16 v) ≡ 2
unfolding enc_u16
length-enc_u16 v = refl

put-size : (s : Ip6) → length s.dst ≡ 16 → s.at ≤ 14 → length (ip6_put s).dst ≡ 16
put-size s size room =
    length-write_at s.at (enc_u16 s.acc) s.dst (omega (arith, length-enc_u16 s.acc)) ∙ size

fill-size : (s : Ip6) (o : Option ℕ) → s.zero_at ≡ o → Ended s → length (ip6_fill s).dst ≡ 16
unfolding ip6_fill
fill-size s none h e = simp (h, ip6_fill) e.size
fill-size s (some z) h e =
    let le : z ≤ s.at = subst (λ o. Gap o s.at) h e.gap in
    let move = take (s.at - z) (drop z s.dst) in
    let moved = write_at (16 - (s.at - z)) move s.dst in
    let part : length move ≡ s.at - z =
      omega
        (arith, length-take (s.at - z) (drop z s.dst), length-drop z s.dst, e.size, e.room, le) in
    let first : length moved ≡ 16 =
      length-write_at (16 - (s.at - z)) move s.dst (omega (arith, part, e.size, e.room)) ∙ e.size in
    let zeros : Bytes = replicate (16 - s.at) 0 in
    simp (h, ip6_fill)
      (length-write_at z zeros moved
          (omega (arith, first, length-replicate {A = ℕ} (16 - s.at) 0, e.room, le))
        ∙ first)

-- what the code behind the loop needs
record Closes (s : Ip6) : Type 0 where
  size : length s.dst ≡ 16
  room : (s.at ≤ 14) ⊎ ((s.num_hex ≡ 0) × (s.at ≤ 16))
  gap : Gap s.zero_at s.at

last-Ended : (s : Ip6) → Closes s → Ended (ip6_last s)
unfolding ip6_last
last-Ended s c = elim (Bool-cases (s.num_hex == 0)) [
  | inl closed ↦ simp closed (record { size = c.size; room = ground (arith, c.room); gap = c.gap })
  | inr digits ↦
      let room : s.at ≤ 14 = ground (arith, c.room) in
      simp digits (record {
        size = put-size s c.size room;
        room = omega (arith, room);
        gap = Gap-le s.zero_at (omega arith) c.gap;
      })
]

finish-size : (s : Ip6) → Closes s → length (ip6_finish s).1 ≡ 16
unfolding ip6_finish
finish-size s c = fill-size (ip6_last s) (ip6_last s).zero_at refl (last-Ended s c)

ip4-size : (str : Bytes) (s : Ip6) → Inv s → length (ip6_ip4 str s).1 ≡ 16
unfolding ip6_ip4
ip4-size str s v =
    let r = ip4_str_decode (drop s.seg str) in
    let (four, _) = ip4_str_decode_bounds (drop s.seg str) in
    elim (Bool-cases (ltb 6 s.num_seg)) [
      | inl late ↦ simp late v.size
      | inr early ↦
          let at_le : s.at ≤ 12 = ground (arith, v.segments) in
          let size : length (write_at s.at r.1 s.dst) ≡ 16 =
            length-write_at s.at r.1 s.dst (omega (arith, four, at_le, v.size)) ∙ v.size in
          elim (Bool-cases (r.0 == 0)) [
            | inl bad ↦ simp (early, bad) size
            | inr good ↦
                simp (early, good)
                  (finish-size _ (record {
                    size = size;
                    room = inr (refl, omega (arith, at_le));
                    gap = Gap-le s.zero_at (omega arith) v.gap;
                  }))
          ]
    ]

-- a segment has been written
abbrev written : Ip6 → Ip6
written s = if s.num_hex == 0 then s else ip6_put s

record Written (s : Ip6) : Type 0 where
  size : length s.dst ≡ 16
  segments : s.at ≤ 2 * s.num_seg + 2
  room : s.at ≤ 14
  gap : Gap s.zero_at s.at

written-Written :
    (s : Ip6) → Inv s → (not (s.num_hex == 0) && leb 7 s.num_seg) ≡ false → Written (written s)
written-Written s v h = elim (Bool-cases (s.num_hex == 0)) [
  | inl none_there ↦
      simp none_there
        (record { size = v.size; segments = omega (arith, v.segments); room = v.room; gap = v.gap })
  | inr digits ↦
      let le : s.at ≤ 12 = ground (arith, v.segments) in
      simp digits (record {
        size = put-size s v.size v.room;
        segments = omega (arith, v.segments);
        room = omega (arith, le);
        gap = Gap-le s.zero_at (omega arith) v.gap;
      })
]

single-Inv : (s : Ip6) → Written s → Inv (ip6_single s)
single-Inv s w = record {
  size = w.size;
  segments = omega (arith, w.segments);
  room = w.room;
  gap = w.gap;
}

double-Inv : (s : Ip6) → Written s → Inv (ip6_double s)
double-Inv s w = record {
  size = w.size;
  segments = omega (arith, w.segments);
  room = w.room;
  gap = omega arith;
}

Closes-Inv : (s : Ip6) → Inv s → Closes s
Closes-Inv s v = record { size = v.size; room = inl v.room; gap = v.gap }

abbrev Sized : ℕ × Bytes → Type 0
Sized r = length r.1 ≡ 16

either-Sized : (b : Bool) (x y : ℕ × Bytes) → Sized x → Sized y → Sized (if b then x else y)
either-Sized true x y p q = p
either-Sized false x y p q = q

-- with no character to pass over
abbrev clear : Ip6 → Ip6
clear s = record s { skip = false }

colon-Sized :
    (str : Bytes) (s : Ip6) (ch : ℕ) (rest : Bytes)
    → Inv (clear s)
    → ((t : Ip6) → Inv t → Sized (ip6_loop str t rest))
    → is_hex ch ≡ false
    → (ch == b':') ≡ true
    → Sized (ip6_loop str (clear s) (ch ∷ rest))
unfolding ip6_loop
colon-Sized str s ch rest v next other colon =
    let t = clear s in
    elim (Bool-cases (not (s.num_hex == 0) && leb 7 s.num_seg)) [
      | inl many ↦ simp (other, colon, many) v.size
      | inr few ↦
          let w = written-Written t v few in
          let single = next (ip6_single (written t)) (single-Inv (written t) w) in
          let double = next (ip6_double (written t)) (double-Inv (written t) w) in
          elim (Bool-cases (starts_colon rest)) [
            | inr one ↦ simp (other, colon, few, one) single
            | inl two ↦ simp (other, colon, few, two) (either-Sized _ _ _ w.size double)
          ]
    ]

clear-Sized :
    (str : Bytes) (s : Ip6) (ch : ℕ) (rest : Bytes)
    → Inv (clear s)
    → ((t : Ip6) → Inv t → Sized (ip6_loop str t rest))
    → Sized (ip6_loop str (clear s) (ch ∷ rest))
unfolding ip6_loop
clear-Sized str s ch rest v next =
    let t = clear s in
    let digit : Inv (ip6_digit t ch) = record {
      size = v.size;
      segments = v.segments;
      room = v.room;
      gap = v.gap;
    } in
    let past : Inv (record t { pos = s.pos + 1 }) = record {
      size = v.size;
      segments = v.segments;
      room = v.room;
      gap = v.gap;
    } in
    elim (Bool-cases (is_hex ch)) [
      | inl hex ↦ simp hex (either-Sized (ltb 4 (s.num_hex + 1)) _ _ v.size (next _ digit))
      | inr other ↦ elim (Bool-cases (ch == b':')) [
        | inl colon ↦ colon-Sized str s ch rest v next other colon
        | inr no_colon ↦ elim (Bool-cases (ch == b'.')) [
          | inl dot ↦ simp (other, no_colon, dot) (ip4-size str t v)
          | inr stop ↦ simp (other, no_colon, stop) (finish-size _ (Closes-Inv _ past))
        ]
      ]
    ]

skip-Sized :
    (str : Bytes) (s : Ip6) (ch : ℕ) (rest : Bytes)
    → Inv s
    → ((t : Ip6) → Inv t → Sized (ip6_loop str t rest))
    → (skip : Bool) → Sized (ip6_loop str (record s { skip = skip }) (ch ∷ rest))
unfolding ip6_loop
skip-Sized str s ch rest v next true =
    next _ (record { size = v.size; segments = v.segments; room = v.room; gap = v.gap })
skip-Sized str s ch rest v next false =
    clear-Sized str s ch rest
      (record { size = v.size; segments = v.segments; room = v.room; gap = v.gap }) next

loop-Sized : (str : Bytes) (s : Ip6) (rest : Bytes) → Inv s → Sized (ip6_loop str s rest)
unfolding ip6_loop
loop-Sized str s [] v = finish-size s (Closes-Inv s v)
loop-Sized str s (ch ∷ rest) v = skip-Sized str s ch rest v (λ t w. loop-Sized str t rest w) s.skip

-- Whatever the string, `ip6_str_decode` with a buffer of 16 bytes leaves one of 16 bytes: a write
-- past its end would make it longer.
pub ip6_str_decode_bounds :
    (str dst : Bytes) → length dst ≡ 16 → length (ip6_str_decode str dst).1 ≡ 16
unfolding ip6_str_decode
ip6_str_decode_bounds str dst h =
    loop-Sized str (ip6_start dst) str
      (record { size = h; segments = omega arith; room = omega arith; gap = tt })
