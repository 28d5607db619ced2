-- ===== src/Rwbuf/Queue.antt =====
-- A buffer of src/rwbuf.c as a queue of bytes: `rwbuf_write`, `rwbuf_writev`, `rwbuf_rdinc`.
use mathlib.Core.List.{flatten}
use c_db_k8s.Prelude.{
  ℕ, ◌+◌, ◌-◌, ◌^◌, ◌<◌, ◌≤◌, ◌≡◌, refl, sym, ap, ◌∙◌, inl, inr, Bool, true, false, List, [], ◌∷◌,
  ◌&&◌, ◌++◌, Bytes, ltb, leb, length, take, drop, write_at, range, arith, Bool-cases,
  length-write_at, range-write_at, length-append, write_at-append, take-append-drop,
}
use mathlib.Core.Bool.{false≢true}
use c_db_k8s.Rwbuf.{
  Rwbuf, space, add64, rwbuf_mkspace, shift_down, grow, put, rwbuf_write, has_data, iovs_len,
  copy_all, rwbuf_writev, rwbuf_rdinc,
}
use c_db_k8s.Rwbuf.Valid.{
  IsValid, contents, Grants, consume-drop, used-eq, space-eq, shift_down-Keeps, shift_down-ridx,
}
use c_db_k8s.Rwbuf.Space.{mkspace-Reserved}

pub put-append :
    (b : Rwbuf) (mem : Bytes)
    → IsValid b
    → b.widx + length mem ≤ b.size
    → IsValid (put b mem) × (contents (put b mem) ≡ contents b ++ mem)
put-append b mem v h = (
  record {
    memory_size =
        length-write_at b.widx mem b.memory (omega (arith, v.memory_size)) ∙ v.memory_size;
    read_le = omega (arith, v.read_le, v.small);
    write_le = omega (arith, v.small);
    small = v.small;
    max_small = v.max_small;
    bounded = v.bounded;
  },
  ap (λ n. range b.ridx n (write_at b.widx mem b.memory)) (omega (arith, v.small))
      ∙ range-write_at b.ridx b.widx mem b.memory v.read_le (omega (arith, v.memory_size)),
)

shift_down-size : (b : Rwbuf) → (shift_down b).size ≡ b.size
unfolding shift_down
shift_down-size b = ground arith

shift_down-is_grow : (b : Rwbuf) → (shift_down b).is_grow ≡ b.is_grow
unfolding shift_down
shift_down-is_grow b = ground arith

grow-fixed :
    (grant : ℕ → Bool) (b : Rwbuf) (need : ℕ) → b.is_grow ≡ false → (grow grant b need).0 ≡ false
unfolding grow
grow-fixed grant b need h = rw h

iovs_len-flatten :
    (iovs : List Bytes) → length (flatten iovs) < 2 ^ 62 → iovs_len iovs ≡ length (flatten iovs)
unfolding iovs_len flatten
iovs_len-flatten [] h = refl
iovs_len-flatten (v ∷ iovs) h =
    let seam = length-append v (flatten iovs) in
    let rest = iovs_len-flatten iovs (omega (arith, seam)) in omega (arith, seam, rest)

copy_all-flatten :
    (at : ℕ) (iovs : List Bytes) (memory : Bytes)
    → at + length (flatten iovs) ≤ length memory
    → copy_all at iovs memory ≡ write_at at (flatten iovs) memory
unfolding copy_all flatten
copy_all-flatten at [] memory h =
    sym (take-append-drop at memory) ∙ ap (λ n. take at memory ++ drop n memory) (omega arith)
copy_all-flatten at (v ∷ iovs) memory h =
    let seam = length-append v (flatten iovs) in
    copy_all-flatten (at + length v) iovs (write_at at v memory)
      (omega (arith, seam, length-write_at at v memory))
    ∙ write_at-append at v (flatten iovs) memory (omega (arith, seam))

and_left : (a b : Bool) → (a && b) ≡ true → a ≡ true
and_left true b h = refl
and_left false b h = h

-- The conclusion of a write of `mem`: all of it is appended or none of it.
pub record Appends (b : Rwbuf) (mem : Bytes) (r : Bool × Rwbuf) : Type 0 where
  pub valid : IsValid (r.1)
  pub done : r.0 ≡ true → contents (r.1) ≡ contents b ++ mem
  pub failed : r.0 ≡ false → contents (r.1) ≡ contents b

module _ (grant : ℕ → Bool) (b : Rwbuf) where
  -- `rwbuf_write` of fewer than 2^62 bytes to a valid buffer, over an allocator that gives no
  -- more, appends them all to the unread bytes or, on failure, leaves these alone; the buffer
  -- stays valid.
  pub rwbuf_write-Appends :
      (mem : Bytes)
      → Grants grant
      → IsValid b
      → length mem < 2 ^ 62
      → Appends b mem (rwbuf_write grant b mem)
  unfolding rwbuf_write has_data
  rwbuf_write-Appends mem g v h =
      let s = mkspace-Reserved grant b (length mem) g v h in
      let r = rwbuf_mkspace grant b (length mem) in
      elim (Bool-cases (r.0 && ltb 0 r.1.size)) [
        | inl got ↦
            let p =
              put-append (r.1) mem s.keeps.valid (s.room (and_left r.0 (ltb 0 r.1.size) got)) in
            rw got (record {
              valid = p.0;
              done = λ _. p.1 ∙ ap (◌++ mem) s.keeps.same;
              failed = λ e. absurd (false≢true (sym e));
            })
        | inr full ↦ rw full (record {
          valid = s.keeps.valid;
          done = λ e. absurd (false≢true e);
          failed = λ _. s.keeps.same;
        })
      ]

  -- when `rwbuf_mkspace` succeeds, for any buffer and for one that may not grow
  pub mkspace_iff :
      (need : ℕ)
      → IsValid b
      → (b.widx - b.ridx + need ≤ b.size → (rwbuf_mkspace grant b need).0 ≡ true)
        × (b.is_grow ≡ false
            → (rwbuf_mkspace grant b need).0 ≡ true
            → b.widx - b.ridx + need ≤ b.size)
  unfolding rwbuf_mkspace
  mkspace_iff need v =
      let c = shift_down b in
      let s = shift_down-Keeps v in
      let (at, top) = shift_down-ridx v in
      let roomy = space-eq v in
      let after = space-eq s.valid in
      let whole = used-eq v in
      let same = shift_down-size b in
      let still = shift_down-is_grow b in
      elim (Bool-cases (leb need (space b))) [
        | inl has ↦ rw has (λ _. refl, λ _ _. ground arith)
        | inr tight ↦ rw tight (elim (Bool-cases (ltb (space c) need)) [
          | inl short ↦ rw short (
            λ h. absurd (ground arith),
            λ fixed e. absurd (false≢true (sym (grow-fixed grant c need (still ∙ fixed)) ∙ e)),
          )
          | inr now ↦ rw now (λ _. refl, λ _ _. ground arith)
        ])
      ]

  -- To a valid buffer, `rwbuf_writev` is one `rwbuf_write` of the vectors joined, where these are
  -- fewer than 2^62 bytes and the allocator gives no more.
  pub rwbuf_writev-flatten :
      (iovs : List Bytes)
      → Grants grant
      → IsValid b
      → length (flatten iovs) < 2 ^ 62
      → rwbuf_writev grant b iovs ≡ rwbuf_write grant b (flatten iovs)
  unfolding rwbuf_writev rwbuf_write has_data
  rwbuf_writev-flatten iovs g v h =
      let all = iovs_len-flatten iovs h in
      let s = mkspace-Reserved grant b (length (flatten iovs)) g v h in
      let r = rwbuf_mkspace grant b (length (flatten iovs)) in
      rw all (elim (Bool-cases (r.0 && ltb 0 r.1.size)) [
        | inr full ↦ rw full
        | inl got ↦ rw got (
            ap
              (λ m. (
                true,
                record (r.1) { memory = m; widx = add64 (r.1).widx (length (flatten iovs)) },
              ))
              (copy_all-flatten (r.1).widx iovs (r.1).memory (
                omega
                  (arith, s.room (and_left r.0 (ltb 0 r.1.size) got), s.keeps.valid.memory_size))))
      ])

-- On a valid buffer, consuming no more bytes than are unread succeeds, removes that many from
-- their front and keeps the buffer valid.
pub rwbuf_rdinc-drop :
    (b : Rwbuf) (len : ℕ)
    → IsValid b
    → len ≤ b.widx - b.ridx
    → ((rwbuf_rdinc b len).0 ≡ true)
      × IsValid (rwbuf_rdinc b len).1
      × (contents (rwbuf_rdinc b len).1 ≡ drop len (contents b))
unfolding rwbuf_rdinc
rwbuf_rdinc-drop b len v h =
    let fits : ltb b.size (add64 b.ridx len) ≡ false =
      ground (arith, v.read_le, v.write_le, v.small) in
    let c = consume-drop b len v h in rw fits (refl, c.0, c.1)

-- A valid buffer that may not grow gives space exactly where the unread bytes and `need` more fit
-- it.
pub mkspace-fixed :
    (grant : ℕ → Bool) (b : Rwbuf) (need : ℕ)
    → IsValid b
    → b.is_grow ≡ false
    → (rwbuf_mkspace grant b need).0 ≡ leb (b.widx - b.ridx + need) b.size
mkspace-fixed grant b need v fixed =
    let (fits, only) = mkspace_iff grant b need v in
    elim (Bool-cases (rwbuf_mkspace grant b need).0) [
      | inl got ↦ got ∙ sym (le_leb (only fixed got))
      | inr full ↦ elim (Bool-cases (leb (b.widx - b.ridx + need) b.size)) [
        | inl le ↦ absurd (false≢true (sym full ∙ fits (leb_le le)))
        | inr gt ↦ full ∙ sym gt
      ]
    ]
  where
    le_leb : {m n : ℕ} → m ≤ n → leb m n ≡ true
    le_leb h = ground arith

    leb_le : {m n : ℕ} → leb m n ≡ true → m ≤ n
    leb_le h = ground arith
