-- ===== src/Dns/Name/RoundTrip.antt =====
-- `encode_name` and `decode_name` of src/dns_proto.c on the labels of a name.
use c_db_k8s.Prelude.{
  ℕ, zero, suc, ◌+◌, ◌%◌, ◌^◌, ◌<◌, ◌≤◌, ◌≡◌, ◌≢◌, refl, ap, inl, inr, false, Option, none, some,
  List, [], ◌∷◌, ◌++◌, Bytes, ltb, length, length-append, take_all, Run, ok, Bool-cases, arith,
}
use c_db_k8s.Dns.Name.{Suffix, find_suffix, before_dot, after_dot, add_suffix, encode_loop}

-- no NUL and no dot
abbrev pub Plain : Bytes → Type 0
Plain [] = Unit {0}
Plain (c ∷ s) = (c ≢ 0) × (c ≢ b'.') × Plain s

-- a label has 1 to 63 bytes
abbrev pub AreLabels : List Bytes → Type 0
AreLabels [] = Unit {0}
AreLabels (l ∷ ls) = (0 < length l) × (length l ≤ 63) × Plain l × AreLabels ls

-- the name in text
unfoldable pub join : List Bytes → Bytes
join [] = []
join (l ∷ []) = l
join (l ∷ m ∷ ls) = l ++ (b'.' ∷ join (m ∷ ls))

-- the name in a packet: each label behind its length, and the root
unfoldable pub wire : List Bytes → Bytes
wire [] = 0 ∷ []
wire (l ∷ ls) = length l ∷ (l ++ wire ls)

before_dot-append : (l rest : Bytes) → Plain l → before_dot (l ++ (b'.' ∷ rest)) ≡ l
unfolding before_dot
before_dot-append [] rest h = refl
before_dot-append (c ∷ l) rest h = ground (arith, before_dot-append l rest h.2)

before_dot-Plain : (l : Bytes) → Plain l → before_dot l ≡ l
unfolding before_dot
before_dot-Plain [] h = refl
before_dot-Plain (c ∷ l) h = ground (arith, before_dot-Plain l h.2)

after_dot-append : (l rest : Bytes) → Plain l → after_dot (l ++ (b'.' ∷ rest)) ≡ rest
unfolding after_dot
after_dot-append [] rest h = refl
after_dot-append (c ∷ l) rest h = ground (arith, after_dot-append l rest h.2)

after_dot-Plain : (l : Bytes) → Plain l → after_dot l ≡ []
unfolding after_dot
after_dot-Plain [] h = refl
after_dot-Plain (c ∷ l) h = ground (arith, after_dot-Plain l h.2)

-- no suffix of the table stands in front of `base`
abbrev pub Behind : ℕ → List Suffix → Type 0
Behind base [] = Unit {0}
Behind base (x ∷ table) = (base ≤ x.offset) × Behind base table

find_suffix-Behind :
    (base : ℕ) (table : List Suffix) (name : Bytes)
    → Behind base table
    → find_suffix table base name ≡ none
unfolding find_suffix
find_suffix-Behind base [] name h = refl
find_suffix-Behind base (x ∷ table) name h = ground (arith, find_suffix-Behind base table name h.1)

Behind-append :
    (base : ℕ) (table : List Suffix) (x : Suffix)
    → Behind base table
    → base ≤ x.offset
    → Behind base (table ++ (x ∷ []))
Behind-append base [] x h le = (le, tt)
Behind-append base (y ∷ table) x h le = (h.0, Behind-append base table x h.1 le)

add_suffix-Behind :
    (base : ℕ) (table : List Suffix) (x : Suffix)
    → Behind base table
    → base ≤ x.offset
    → Behind base (add_suffix table x)
unfolding add_suffix
add_suffix-Behind base table x h le = elim (Bool-cases (ltb (length table) 32)) [
  | inl free ↦ rw free (Behind-append base table x h le)
  | inr full ↦ rw full h
]

before_dot-nil : before_dot [] ≡ []
unfolding before_dot
before_dot-nil = refl

before_dot-join : (l : Bytes) (ls : List Bytes) → Plain l → before_dot (join (l ∷ ls)) ≡ l
unfolding join
before_dot-join l [] h = before_dot-Plain l h
before_dot-join l (m ∷ ls) h = before_dot-append l (join (m ∷ ls)) h

after_dot-join : (l : Bytes) (ls : List Bytes) → Plain l → after_dot (join (l ∷ ls)) ≡ join ls
unfolding join
after_dot-join l [] h = after_dot-Plain l h
after_dot-join l (m ∷ ls) h = after_dot-append l (join (m ∷ ls)) h

length-join : (l : Bytes) (ls : List Bytes) → length l + length (join ls) ≤ length (join (l ∷ ls))
unfolding join
length-join l [] = omega arith
length-join l (m ∷ ls) = omega (arith, length-append l (b'.' ∷ join (m ∷ ls)))

-- the bytes in a packet are two more than in text
pub length-wire :
    (l : Bytes) (ls : List Bytes) → length (wire (l ∷ ls)) ≡ length (join (l ∷ ls)) + 2
unfolding wire join
length-wire l [] = omega (arith, length-append l (0 ∷ []))
length-wire l (m ∷ ls) = omega (
  arith,
  length-append l (wire (m ∷ ls)),
  length-append l (b'.' ∷ join (m ∷ ls)),
  length-wire m ls,
)

-- what the encoder makes of a name of which the table holds no suffix in front of it
abbrev pub Written : (base : ℕ) → List Bytes → Run (Option (Bytes × List Suffix)) → Type 0
Written base ls m = (t : List Suffix) × (m ≡ ok (some (wire ls, t))) × Behind base t

pub encode_loop-Written :
    (rounds base at : ℕ) (table : List Suffix) (ls : List Bytes)
    → AreLabels ls
    → length (join ls) ≤ rounds
    → at + length (wire ls) ≤ 2 ^ 16
    → base ≤ at
    → Behind base table
    → Written base ls (encode_loop rounds base at table (join ls))
unfolding encode_loop wire
encode_loop-Written rounds base at table [] h fuel room le b =
    unfold encode_loop join wire in (table, refl, b)
encode_loop-Written zero base at table (l ∷ ls) h fuel room le b =
    absurd (omega (arith, length-join l ls, h.0))
encode_loop-Written (suc rounds) base at table (l ∷ ls) h fuel room le b =
    go (join (l ∷ ls)) (before_dot-join l ls h.2) (after_dot-join l ls h.2) (λ table' b'.
      encode_loop-Written rounds base (at + (1 + length l)) table' ls h.3
        (omega (arith, length-join l ls, h.0))
        (unfold wire in omega (arith, room, length-append l (wire ls))) (omega arith) b')
  where
    go :
        (name : Bytes)
        → before_dot name ≡ l
        → after_dot name ≡ join ls
        → ((table' : List Suffix)
            → Behind base table'
            → Written base ls (encode_loop rounds base (at + (1 + length l)) table' (join ls)))
        → Written base (l ∷ ls) (encode_loop (suc rounds) base at table name)
    go [] front back next = absurd (omega (arith, h.0, ap length front, ap length before_dot-nil))
    go (c ∷ s) front back next =
        let x : Suffix = record { text = c ∷ s; offset = at % 2 ^ 16 } in
        let found = find_suffix-Behind base table (c ∷ s) b in
        let len : length (before_dot (c ∷ s)) % 2 ^ 8 ≡ length l =
          omega (arith, ap length front, h.1) in
        let l256 : length l % 2 ^ 8 ≡ length l = omega (arith, h.1) in
        let small : ltb 63 (length (before_dot (c ∷ s)) % 2 ^ 8) ≡ false =
          ground (arith, len, h.1) in
        let (t, e, b') =
          next (add_suffix table x) (add_suffix-Behind base table x b (omega (arith, room, le))) in
        (
          t,
          rw (
            found,
            small,
            encode_loop,
            len,
            back,
            e,
            front,
            l256,
            take_all (length l) l (omega arith),
          ),
          b',
        )
