-- ===== src/Rwbuf/Valid.antt =====
-- The invariant of a buffer of src/rwbuf.c, and the bytes that it holds.
use c_db_k8s.Prelude.{
  ℕ, ◌+◌, ◌-◌, ◌^◌, ◌<◌, ◌≤◌, ◌≡◌, ◌≢◌, refl, sym, ap, ◌∙◌, inl, inr, Bool, true, Bytes, ltb, ◌==◌,
  length, take, drop, write_at, range, arith, Bool-cases, length-range, length-write_at,
  range-write_at, range-drop, drop_all,
}
use c_db_k8s.Rwbuf.{Rwbuf, used, space, add64, shift_down, consume}

-- Sizes stay below 2 ^ 62: the allocator hands out no more.
pub record IsValid (b : Rwbuf) : Type 0 where
  pub memory_size : length b.memory ≡ b.size
  pub read_le : b.ridx ≤ b.widx
  pub write_le : b.widx ≤ b.size
  pub small : b.size < 2 ^ 62
  pub max_small : b.max_size < 2 ^ 62
  pub bounded : b.max_size ≢ 0 → b.size ≤ b.max_size

-- the bytes that have been written and not read
abbrev pub contents : Rwbuf → Bytes
contents b = range b.ridx b.widx b.memory

-- `realloc` gives no block of 2 ^ 62 bytes or more
abbrev pub Grants : (ℕ → Bool) → Type 0
Grants grant = (n : ℕ) → grant n ≡ true → n < 2 ^ 62

-- `c` has the unread bytes of `b`, and whatever else a client may rely on
pub record Keeps (b c : Rwbuf) : Type 0 where
  pub valid : IsValid c
  pub same : contents c ≡ contents b
  pub malloc : c.is_malloc ≡ b.is_malloc
  pub max : c.max_size ≡ b.max_size
  pub size_le : b.size ≤ c.size

module _ {b : Rwbuf} (v : IsValid b) where
  pub used-eq : used b ≡ b.widx - b.ridx
  used-eq = omega (arith, v.read_le, v.write_le, v.small)

  pub space-eq : space b ≡ b.size - b.widx
  space-eq = omega (arith, v.write_le, v.small)

  pub length-contents : length (contents b) ≡ b.widx - b.ridx
  length-contents =
      length-range b.ridx b.widx b.memory v.read_le (omega (arith, v.memory_size, v.write_le))

  -- what the routines read is the contents
  pub unread-contents : take (used b) (drop b.ridx b.memory) ≡ contents b
  unread-contents = ap (λ n. take n (drop b.ridx b.memory)) used-eq

  shifted : Rwbuf
  shifted = record b {
    memory = write_at 0 (take (used b) (drop b.ridx b.memory)) b.memory;
    ridx = 0;
    widx = used b;
  }

  abbrev front : Bytes
  front = take (used b) (drop b.ridx b.memory)

  length-front : length front ≡ used b
  length-front = ap length unread-contents ∙ length-contents ∙ sym used-eq

  shifted-contents : contents shifted ≡ contents b
  unfolding shifted
  shifted-contents =
      ap (λ n. range 0 n (write_at 0 front b.memory)) (omega (arith, length-front))
      ∙ range-write_at 0 0 front b.memory (omega arith)
          (omega (arith, length-front, used-eq, v.memory_size, v.write_le))
      ∙ unread-contents

  shifted-IsValid : IsValid shifted
  unfolding shifted
  shifted-IsValid = record {
    memory_size =
        length-write_at 0 front b.memory
          (omega (arith, length-front, used-eq, v.memory_size, v.write_le))
        ∙ v.memory_size;
    read_le = omega arith;
    write_le = omega (arith, used-eq, v.write_le);
    small = v.small;
    max_small = v.max_small;
    bounded = v.bounded;
  }

  pub Keeps-refl : Keeps b b
  Keeps-refl = record { valid = v; same = refl; malloc = refl; max = refl; size_le = omega arith }

  shifted-Keeps : Keeps b shifted
  unfolding shifted
  shifted-Keeps = record {
    valid = shifted-IsValid;
    same = shifted-contents;
    malloc = refl;
    max = refl;
    size_le = omega arith;
  }

  -- The unread bytes stay, and stand at the start.
  pub shift_down-Keeps : Keeps b (shift_down b)
  unfolding shift_down shifted
  shift_down-Keeps = elim (Bool-cases (ltb 0 b.ridx)) [
    | inl moved ↦ rw moved shifted-Keeps
    | inr here ↦ rw here Keeps-refl
  ]

  pub shift_down-ridx : ((shift_down b).ridx ≡ 0) × ((shift_down b).widx ≡ used b)
  unfolding shift_down
  shift_down-ridx = ground (arith, v.read_le, v.write_le, v.small)

pub Keeps-trans : {a b c : Rwbuf} → Keeps a b → Keeps b c → Keeps a c
Keeps-trans p q = record {
  valid = q.valid;
  same = q.same ∙ p.same;
  malloc = q.malloc ∙ p.malloc;
  max = q.max ∙ p.max;
  size_le = omega (arith, p.size_le, q.size_le);
}

-- Bytes leave at the front; a buffer that becomes empty starts over.
pub consume-drop :
    (b : Rwbuf) (n : ℕ)
    → IsValid b
    → n ≤ b.widx - b.ridx
    → IsValid (consume b n) × (contents (consume b n) ≡ drop n (contents b))
consume-drop b n v h =
    let at : add64 b.ridx n ≡ b.ridx + n = omega (arith, v.read_le, v.write_le, v.small) in
    elim (Bool-cases (add64 b.ridx n == b.widx)) [
      | inl all ↦ rw all (
        record {
          memory_size = v.memory_size;
          read_le = omega arith;
          write_le = omega arith;
          small = v.small;
          max_small = v.max_small;
          bounded = v.bounded;
        },
        sym (drop_all n (contents b) (ground (arith, length-contents v))),
      )
      | inr part ↦
          rw (part, at)
            (
              record {
                memory_size = v.memory_size;
                read_le = omega (arith, v.read_le);
                write_le = v.write_le;
                small = v.small;
                max_small = v.max_small;
                bounded = v.bounded;
              },
              range-drop b.ridx b.widx n b.memory (omega (arith, v.read_le)),
            )
    ]
