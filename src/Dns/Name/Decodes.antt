-- ===== src/Dns/Name/Decodes.antt =====
-- `decode_name` of src/dns_proto.c on a name that stands in the packet label by label.
use c_db_k8s.Prelude.{
  ℕ, zero, suc, ◌+◌, ◌-◌, ◌<◌, ◌≤◌, ◌≡◌, refl, sym, ap, ◌∙◌, Bool, true, false, not, some, List, [],
  ◌∷◌, ◌++◌, append_assoc, append-nil, Bytes, ltb, leb, ◌==◌, if◌then◌else◌, length, get_elem?,
  take, drop, range, length-append, take-append, drop-append_back, Run, ok, arith,
}
use mathlib.Core.Path.{ap₂}
use c_db_k8s.Dns.{byte_at}
use c_db_k8s.Dns.Name.{
  NameState, named, Round, more, ended, name_label, name_copied, name_round, name_loop, decode_name,
  label_follows, put_bytes, size_minus,
}
use c_db_k8s.Dns.Name.RoundTrip.{AreLabels, join, wire}

-- the first byte behind `pre`
pub get_elem?-append :
    (pre rest : Bytes) (x : ℕ) → get_elem? (pre ++ (x ∷ rest)) (length pre) ≡ some x
get_elem?-append [] rest x = refl
get_elem?-append (c ∷ pre) rest x = get_elem?-append pre rest x

pub byte_at-append : (pre rest : Bytes) (x : ℕ) → byte_at (pre ++ (x ∷ rest)) (length pre) ≡ ok x
byte_at-append [] rest x = refl
byte_at-append (c ∷ pre) rest x = byte_at-append pre rest x

module _ (pre l rest : Bytes) where
  -- a packet with the label `l` behind `pre`
  abbrev packet : Bytes
  packet = pre ++ (length l ∷ (l ++ rest))

  abbrev past : Bytes
  past = pre ++ (length l ∷ l)

  past-append : past ++ rest ≡ packet
  past-append = append_assoc pre (length l ∷ l) rest

  length-past : length past ≡ length pre + 1 + length l
  length-past = omega (arith, length-append pre (length l ∷ l))

  length-packet : length packet ≡ length pre + 1 + length l + length rest
  length-packet = omega (arith, length-append pre (length l ∷ (l ++ rest)), length-append l rest)

  range-label : range (length pre + 1) (length pre + 1 + length l) packet ≡ l
  range-label =
      ap (λ n. take n (drop (length pre + 1) packet)) (omega arith)
      ∙ ap (take (length l)) (drop-append_back pre (length l ∷ (l ++ rest)) 1)
      ∙ take-append l rest

  module _ (nlen out : ℕ) (name : Bytes) (some_ : 0 < length l) (short : length l ≤ 63)
      (space : length l < out) (whole : length name + out ≡ nlen) where
    abbrev before : NameState
    before = record { idx = length pre; njmp = 0; offset = length pre; out_len = out; name = name }

    -- the state behind the label, with a dot if `dot`
    abbrev behind : Bool → NameState
    behind dot = record {
      idx = length pre + 1 + length l;
      njmp = 0;
      offset = length pre + (1 + length l);
      out_len = if dot then out - length l - 1 else out - length l;
      name = if dot then (name ++ l) ++ (b'.' ∷ []) else name ++ l;
    }

    label_round :
        (dot : Bool)
        → label_follows packet (length pre + 1 + length l) ≡ dot
        → name_round nlen packet before ≡ ok (more (behind dot))
    unfolding name_round name_label name_copied put_bytes size_minus
    label_round dot e =
        rw (inside, byte, low, fits, small, ne, range-label, copied, left, e, dotted) (finish dot)
      where
        inside : leb (length packet) (length pre) ≡ false
        inside = ground (arith, length-packet)

        byte : byte_at packet (length pre) ≡ ok (length l)
        byte = byte_at-append pre (l ++ rest) (length l)

        low : leb 0xc0 (length l) ≡ false
        low = ground arith

        fits : ltb (length packet - (length pre + 1)) (length l) ≡ false
        fits = ground (arith, length-packet)

        small : ltb out (length l) ≡ false
        small = ground arith

        ne : (length l == 0) ≡ false
        ne = ground arith

        left : (out - length l == 0) ≡ false
        left = ground arith

        copied : ltb nlen (length name + length l) ≡ false
        copied = ground arith

        dotted : ltb nlen (length (name ++ l) + 1) ≡ false
        dotted = ground (arith, length-append name l)

        finish :
            (b : Bool)
            → ◌≡◌ {A = Run Round}
                (if b then ok (more (behind true)) else ok (more (behind false)))
                (ok (more (behind b)))
        finish true = refl
        finish false = refl

follows-append :
    (pre rest : Bytes) (x : ℕ) → label_follows (pre ++ (x ∷ rest)) (length pre) ≡ not (x == 0)
unfolding label_follows
follows-append [] rest x = refl
follows-append (c ∷ pre) rest x = follows-append pre rest x

-- the state at the byte behind `pre`, before any compression pointer
abbrev at_label : (pre : Bytes) (out : ℕ) (name : Bytes) → NameState
at_label pre out name = record {
  idx = length pre;
  njmp = 0;
  offset = length pre;
  out_len = out;
  name = name;
}

root_round :
    (pre post : Bytes) (nlen out : ℕ) (name : Bytes)
    → 0 < out
    → length name + out ≡ nlen
    → name_round nlen (pre ++ (0 ∷ post)) (at_label pre out name)
      ≡ ok (ended (named name) (length pre + 1))
unfolding name_round name_label put_bytes
root_round pre post nlen out name pos whole = rw (inside, byte, fits, small, space, nul)
  where
    inside : leb (length (pre ++ (0 ∷ post))) (length pre) ≡ false
    inside = ground (arith, length-append pre (0 ∷ post))

    byte : byte_at (pre ++ (0 ∷ post)) (length pre) ≡ ok 0
    byte = byte_at-append pre post 0

    fits : ltb (length (pre ++ (0 ∷ post)) - (length pre + 1)) 0 ≡ false
    fits = ground arith

    small : ltb out 0 ≡ false
    small = ground arith

    space : (out == 0) ≡ false
    space = ground arith

    nul : ltb nlen (length name + 1) ≡ false
    nul = ground arith

has_label : List Bytes → Bool
has_label [] = false
has_label (l ∷ ls) = true

-- what follows a label is the next one, or the root
label_follows-wire :
    (pre : Bytes) (ls : List Bytes) (post : Bytes)
    → AreLabels ls
    → label_follows (pre ++ (wire ls ++ post)) (length pre) ≡ has_label ls
unfolding wire has_label
label_follows-wire pre [] post h = follows-append pre post 0
label_follows-wire pre (l ∷ ls) post h =
    follows-append pre ((l ++ wire ls) ++ post) (length l) ∙ nonzero
  where
    nonzero : not (length l == 0) ≡ true
    nonzero = ground (arith, h.0)

-- the name so far and the labels to come
join-behind :
    (name l : Bytes) (ls : List Bytes)
    → (if has_label ls then (name ++ l) ++ (b'.' ∷ []) else name ++ l) ++ join ls
      ≡ name ++ join (l ∷ ls)
unfolding has_label join
join-behind name l [] = append-nil (name ++ l)
join-behind name l (m ∷ ls) =
    append_assoc (name ++ l) (b'.' ∷ []) (join (m ∷ ls))
    ∙ append_assoc name l (b'.' ∷ join (m ∷ ls))

-- what a label and its dot take of the buffer is written
space-behind :
    (name l : Bytes) (ls : List Bytes) (nlen out : ℕ)
    → length name + out ≡ nlen
    → length (join (l ∷ ls)) < out
    → length (if has_label ls then (name ++ l) ++ (b'.' ∷ []) else name ++ l)
        + (if has_label ls then out - length l - 1 else out - length l)
      ≡ nlen
unfolding has_label join
space-behind name l [] nlen out whole h = omega (arith, length-append name l)
space-behind name l (m ∷ ls) nlen out whole h = omega (
  arith,
  length-append name l,
  length-append (name ++ l) (b'.' ∷ []),
  length-append l (b'.' ∷ join (m ∷ ls)),
)

join-space :
    (l : Bytes) (ls : List Bytes) (out : ℕ)
    → length (join (l ∷ ls)) < out
    → (length l < out)
      × (length (join ls) < (if has_label ls then out - length l - 1 else out - length l))
unfolding has_label join
join-space l [] out h = (h, omega arith)
join-space l (m ∷ ls) out h =
    let e = length-append l (b'.' ∷ join (m ∷ ls)) in (omega (arith, e), omega (arith, e))

name_loop-wire :
    (rounds : ℕ) (ls : List Bytes) (pre post : Bytes) (nlen out : ℕ) (name : Bytes)
    → AreLabels ls
    → length ls < rounds
    → length (join ls) < out
    → length name + out ≡ nlen
    → name_loop rounds nlen (pre ++ (wire ls ++ post)) (at_label pre out name)
      ≡ ok (named (name ++ join ls), length pre + length (wire ls))
unfolding name_loop
name_loop-wire zero ls pre post nlen out name h fuel space full = absurd (omega arith)
name_loop-wire (suc rounds) [] pre post nlen out name h fuel space full =
    unfold wire join in rw (root_round pre post nlen out name (omega arith) full, append-nil)
name_loop-wire (suc rounds) (l ∷ ls) pre post nlen out name h fuel space full =
    let rest = wire ls ++ post in
    let room = join-space l ls out space in
    let whole : pre ++ (wire (l ∷ ls) ++ post) ≡ packet pre l rest =
      unfold wire in ap (λ w. pre ++ (length l ∷ w)) (append_assoc l (wire ls) post) in
    let dots : label_follows (packet pre l rest) (length pre + 1 + length l) ≡ has_label ls =
      ap (λ p. label_follows p (length pre + 1 + length l)) (sym (past-append pre l rest))
      ∙ ap (label_follows (past pre l rest ++ rest)) (sym (length-past pre l rest))
      ∙ label_follows-wire (past pre l rest) ls post h.3 in
    let round = label_round pre l rest nlen out name h.0 h.1 room.0 full (has_label ls) dots in
    let ih =
      name_loop-wire rounds ls (past pre l rest) post nlen
        (if has_label ls then out - length l - 1 else out - length l)
        (if has_label ls then (name ++ l) ++ (b'.' ∷ []) else name ++ l) h.3 (omega arith) room.1
        (space-behind name l ls nlen out full space) in
    rw (whole, round)
      (ap
          (λ p.
            name_loop rounds nlen p
              (behind pre l rest nlen out name h.0 h.1 room.0 full (has_label ls)))
          (whole ∙ sym (past-append pre l rest))
        ∙ ap (name_loop rounds nlen (past pre l rest ++ rest)) (moved pre l rest _ _)
        ∙ ih
        ∙ ap₂ (λ n i. ok (named n, i)) (join-behind name l ls) (ends pre l ls rest))
  where
    ends :
        (pre l : Bytes) (ls : List Bytes) (rest : Bytes)
        → length (past pre l rest) + length (wire ls) ≡ length pre + length (wire (l ∷ ls))
    ends pre l ls rest =
        unfold wire in omega (arith, length-past pre l rest, length-append l (wire ls))

    moved :
        (pre l rest : Bytes) (out : ℕ) (name : Bytes)
        → ◌≡◌ {A = NameState}
            (record {
              idx = length pre + 1 + length l;
              njmp = 0;
              offset = length pre + (1 + length l);
              out_len = out;
              name = name;
            })
            (at_label (past pre l rest) out name)
    moved pre l rest out name =
        ap₂ (λ i j. record { idx = i; njmp = 0; offset = j; out_len = out; name = name })
          (omega (arith, length-past pre l rest)) (omega (arith, length-past pre l rest))

-- the labels are no more than the bytes of the name, and one
pub length-labels : (ls : List Bytes) → AreLabels ls → length ls ≤ length (join ls)
unfolding join
length-labels [] h = omega arith
length-labels (l ∷ []) h = omega (arith, h.0)
length-labels (l ∷ m ∷ ls) h =
    omega (arith, h.0, length-append l (b'.' ∷ join (m ∷ ls)), length-labels (m ∷ ls) h.3)

-- `decode_name` reads the labels of a name that stands in the packet without a pointer as the text of
-- the name, and stops behind them, where the buffer has room for the text and its NUL.
pub decode_name-wire :
    (ls : List Bytes) (pre post : Bytes) (nlen : ℕ)
    → AreLabels ls
    → length (join ls) < nlen
    → decode_name (pre ++ (wire ls ++ post)) (length pre) nlen
      ≡ ok (named (join ls), length pre + length (wire ls))
unfolding decode_name
decode_name-wire ls pre post nlen h room =
    name_loop-wire (nlen + 19) ls pre post nlen nlen [] h (omega (arith, length-labels ls h)) room
      (omega arith)
