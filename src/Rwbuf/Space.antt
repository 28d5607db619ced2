-- ===== src/Rwbuf/Space.antt =====
-- `rwbuf_mkspace` of src/rwbuf.c.
use c_db_k8s.Prelude.{
  ℕ, ◌+◌, ◌-◌, ◌^◌, ◌<◌, ◌≤◌, ◌≡◌, ◌≢◌, refl, ap, ◌∙◌, inl, inr, Bool, true, false, not, ◌&&◌, ◌++◌,
  ltb, leb, ◌==◌, length, take, replicate, range, arith, Bool-cases, range-append, take_all,
  length-append, length-replicate, length-take,
}
use mathlib.Core.Bool.{false≢true}
use c_db_k8s.Rwbuf.{Rwbuf, space, shift_down, new_size, grow, rwbuf_mkspace}
use c_db_k8s.Rwbuf.Valid.{
  IsValid, Grants, Keeps, space-eq, Keeps-refl, shift_down-Keeps, Keeps-trans,
}

-- the size asked for is at least what is needed, and at least the old size
new_size-bounds :
    (b : Rwbuf) (need : ℕ)
    → IsValid b
    → need < 2 ^ 62
    → (b.widx + need ≤ new_size b need) × (b.size ≤ new_size b need)
unfolding new_size
new_size-bounds b need v h = ground (arith, v.write_le, v.small)

-- the conclusion of `rwbuf_mkspace`: the space is there on success
pub record Reserved (b : Rwbuf) (need : ℕ) (r : Bool × Rwbuf) : Type 0 where
  pub keeps : Keeps b (r.1)
  pub room : r.0 ≡ true → (r.1).widx + need ≤ (r.1).size

grown-Keeps :
    (b : Rwbuf) (n : ℕ)
    → IsValid b
    → b.size ≤ n
    → n < 2 ^ 62
    → (b.max_size ≢ 0 → n ≤ b.max_size)
    → Keeps b (record b { memory = take n b.memory ++ replicate (n - length b.memory) 0; size = n })
grown-Keeps b n v le lt max =
    let all = take_all n b.memory (omega (arith, v.memory_size)) in
    record {
      valid = record {
        memory_size = omega (
          arith,
          length-append (take n b.memory) (replicate (n - length b.memory) 0),
          length-replicate {A = ℕ} (n - length b.memory) 0,
          length-take n b.memory,
          v.memory_size,
        );
        read_le = v.read_le;
        write_le = omega (arith, v.write_le);
        small = lt;
        max_small = v.max_small;
        bounded = max;
      };
      same =
          ap (λ m. range b.ridx b.widx (m ++ replicate (n - length b.memory) 0)) all
          ∙ range-append b.ridx b.widx b.memory (replicate (n - length b.memory) 0) v.read_le
              (omega (arith, v.memory_size, v.write_le));
      malloc = refl;
      max = refl;
      size_le = le;
    }

grow-Reserved :
    (grant : ℕ → Bool) (b : Rwbuf) (need : ℕ)
    → Grants grant
    → IsValid b
    → need < 2 ^ 62
    → Reserved b need (grow grant b need)
unfolding grow
grow-Reserved grant b need g v h =
    let n = new_size b need in
    let kept : Reserved b need (false, b) = record {
      keeps = Keeps-refl v;
      room = λ e. absurd (false≢true e);
    } in
    let enough = new_size-bounds b need v h in
    elim (Bool-cases (not b.is_grow)) [
      | inl fixed ↦ rw fixed kept
      | inr grows ↦ rw grows (elim (Bool-cases (not (b.max_size == 0) && ltb b.max_size n)) [
        | inl over ↦ rw over kept
        | inr under ↦ rw under (elim (Bool-cases (not (grant n))) [
          | inl refused ↦ rw refused kept
          | inr granted ↦ rw granted (record {
            keeps = grown-Keeps b n v enough.1 (g n (ground arith)) (ground arith);
            room = λ e. enough.0;
          })
        ])
      ])
    ]

-- On a valid buffer, for fewer than 2^62 bytes and an allocator that gives no more,
-- `rwbuf_mkspace` keeps the buffer valid and the unread bytes, whether it succeeds or not, and on
-- success leaves room for `need` bytes behind them.
pub mkspace-Reserved :
    (grant : ℕ → Bool) (b : Rwbuf) (need : ℕ)
    → Grants grant
    → IsValid b
    → need < 2 ^ 62
    → Reserved b need (rwbuf_mkspace grant b need)
unfolding rwbuf_mkspace
mkspace-Reserved grant b need g v h =
    let c = shift_down b in
    let s = shift_down-Keeps v in
    elim (Bool-cases (leb need (space b))) [
      | inl roomy ↦
          rw roomy (record { keeps = Keeps-refl v; room = λ e. ground (arith, space-eq v) })
      | inr tight ↦ rw tight (elim (Bool-cases (ltb (space c) need)) [
        | inl still ↦ rw still (
            let r = grow-Reserved grant c need g s.valid h in
            record { keeps = Keeps-trans s r.keeps; room = r.room })
        | inr now ↦ rw now (record { keeps = s; room = λ e. ground (arith, space-eq s.valid) })
      ])
    ]
