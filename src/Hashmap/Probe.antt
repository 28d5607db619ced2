-- ===== src/Hashmap/Probe.antt =====
-- The search of src/hashmap_impl.h for a key or a free bucket.
use c_db_k8s.Prelude.{
  ℕ, zero, suc, ◌+◌, ◌-◌, ◌^◌, ◌<◌, ◌≤◌, ◌≡◌, ◌≢◌, sym, ap, subst, ◌∙◌, ◌⊎◌, inl, inr, bit_and,
  Bool, true, false, ◌||◌, none, some, arith, ◌==◌, ltb, if◌then◌else◌, ok, Bool-cases, next_index,
  first_index,
}
use c_db_k8s.Db.{update}
use c_db_k8s.Hashmap.{Entry, probe}

-- buckets that a search looks at before it is back at `end`
abbrev pub left : (capacity end idx : ℕ) → ℕ
left capacity end idx = if ltb idx end then end - idx else end + capacity - idx

-- the bucket `i` places behind `idx`, around the end of the table
abbrev pub around : (capacity idx i : ℕ) → ℕ
around capacity idx i = if ltb (idx + i) capacity then idx + i else idx + i - capacity

-- the first `d` buckets from `idx` on are in use by other keys
abbrev pub Passed : (buckets : ℕ → Entry) (capacity key idx d : ℕ) → Type 0
Passed buckets capacity key idx d =
    (i : ℕ)
    → i < d
    → ((buckets (around capacity idx i)).key ≢ 0) × ((buckets (around capacity idx i)).key ≢ key)

pub record Found (rounds : ℕ) (buckets : ℕ → Entry) (capacity mask key end idx at : ℕ)
    : Type 0 where
  pub runs : probe rounds buckets mask key end idx ≡ ok (some at)
  pub inside : at < capacity
  pub free : ((buckets at).key ≡ 0) ⊎ ((buckets at).key ≡ key)
  pub far : ℕ
  pub place : at ≡ around capacity idx far
  pub near : far < left capacity end idx
  pub passed : Passed buckets capacity key idx far
  pub again :
      (e : Entry) → e.key ≡ key → probe rounds (update buckets at e) mask key end idx ≡ ok (some at)

abbrev pub Probed : (rounds : ℕ) (buckets : ℕ → Entry) (capacity mask key end idx : ℕ) → Type 0
Probed rounds buckets capacity mask key end idx =
    (probe rounds buckets mask key end idx ≡ ok none)
      × Passed buckets capacity key idx (left capacity end idx)
    ⊎ ((at : ℕ) × Found rounds buckets capacity mask key end idx at)

module _ (buckets : ℕ → Entry) (n key end : ℕ) (h : end < 2 ^ n) where
  abbrev stops : ℕ → Bool
  stops idx = (buckets idx).key == 0 || (buckets idx).key == key

  updated : (at idx : ℕ) (e : Entry) → at ≢ idx → update buckets at e idx ≡ buckets idx
  updated at idx e ne = let other : (idx == at) ≡ false = ground arith in rw other

  -- the bucket at `idx` is passed, and the search goes on at the next
  pass :
      (idx next d : ℕ)
      → idx < 2 ^ n
      → stops idx ≡ false
      → ((i : ℕ) → i < d → around (2 ^ n) idx (suc i) ≡ around (2 ^ n) next i)
      → Passed buckets (2 ^ n) key next d
      → Passed buckets (2 ^ n) key idx (d + 1)
  pass idx next d lt stop shift far zero h =
      let here : around (2 ^ n) idx 0 ≡ idx = ground arith in
      subst (λ j. ((buckets j).key ≢ 0) × ((buckets j).key ≢ key)) (sym here)
        (λ e. ground (arith, stop, e), λ e. ground (arith, stop, e))
  pass idx next d lt stop shift far (suc i) h =
      subst (λ j. ((buckets j).key ≢ 0) × ((buckets j).key ≢ key))
        (sym (shift i (omega (arith, h)))) (far i (omega (arith, h)))

  stop_here :
      (rounds idx : ℕ)
      → idx < 2 ^ n
      → stops idx ≡ true
      → Found (suc rounds) buckets (2 ^ n) (2 ^ n - 1) key end idx idx
  unfolding probe
  stop_here rounds idx lt stop = record {
    runs = simp stop;
    inside = lt;
    free = ground arith;
    far = 0;
    place = ground arith;
    near = ground arith;
    passed = λ i h. absurd (omega (arith, h));
    again = λ e same.
        (let here : (idx == idx) ≡ true = ground arith in
          let hit : (e.key == 0 || e.key == key) ≡ true = ground arith in simp (here, hit));
  }

  go_on :
      (rounds idx next : ℕ)
      → stops idx ≡ false
      → bit_and (idx + 1) (2 ^ n - 1) ≡ next
      → (next == end) ≡ false
      → idx < 2 ^ n
      → left (2 ^ n) end idx ≡ left (2 ^ n) end next + 1
      → ((i : ℕ) → i < left (2 ^ n) end next → around (2 ^ n) idx (suc i) ≡ around (2 ^ n) next i)
      → Probed rounds buckets (2 ^ n) (2 ^ n - 1) key end next
      → Probed (suc rounds) buckets (2 ^ n) (2 ^ n - 1) key end idx
  unfolding probe
  go_on rounds idx next stop e more lt len shift (inl (full, far)) = inl (
    simp (stop, e, more, full),
    subst (Passed buckets (2 ^ n) key idx) (sym len)
        (pass idx next (left (2 ^ n) end next) lt stop shift far),
  )
  go_on rounds idx next stop e more lt len shift (inr (at, f)) = inr (
    at,
    record {
      runs = simp (stop, e, more) f.runs;
      inside = f.inside;
      free = f.free;
      far = f.far + 1;
      place = f.place ∙ sym (shift f.far f.near) ∙ ap (around (2 ^ n) idx) (omega arith);
      near = omega (arith, f.near, len);
      passed = pass idx next f.far lt stop (λ i h. shift i (omega (arith, h, f.near))) f.passed;
      again = λ new same.
          (let other : at ≢ idx =
              λ place. ground (arith, ap (λ j. (buckets j).key) place, f.free) in
            simp (updated at idx new other, stop, e, more) (f.again new same));
    },
  )

  -- one bucket was left
  back_again :
      (rounds idx next : ℕ)
      → stops idx ≡ false
      → bit_and (idx + 1) (2 ^ n - 1) ≡ next
      → (next == end) ≡ true
      → idx < 2 ^ n
      → left (2 ^ n) end idx ≡ 1
      → Probed (suc rounds) buckets (2 ^ n) (2 ^ n - 1) key end idx
  unfolding probe
  back_again rounds idx next stop e back lt len = inl (
    simp (stop, e, back),
    λ i h.
        let here : around (2 ^ n) idx i ≡ idx = ground (arith, h, len) in
        subst (λ j. ((buckets j).key ≢ 0) × ((buckets j).key ≢ key)) (sym here)
          (λ e. ground (arith, stop, e), λ e. ground (arith, stop, e)),
  )

  -- With a round for each of the 2^n buckets that is left, and both indices in the table, the
  -- search ends. Either it returns the first bucket, going on from `idx` and around the end of the
  -- table, that is free or has the key, which it meets before it is back at `end`, and it ends there
  -- again once an entry of the key is put there; or it is back where it began, and all the
  -- buckets that were left are in use by other keys.
  pub probe-Probed :
      (rounds idx : ℕ)
      → idx < 2 ^ n
      → left (2 ^ n) end idx ≤ rounds
      → Probed rounds buckets (2 ^ n) (2 ^ n - 1) key end idx
  unfolding probe
  probe-Probed zero idx lt enough = absurd (ground arith)
  probe-Probed (suc rounds) idx lt enough = elim (Bool-cases (stops idx)) [
    | inl stop ↦ inr (idx, stop_here rounds idx lt stop)
    | inr stop ↦ elim (Bool-cases (idx + 1 == 2 ^ n)) [
      | inl last ↦
          let e = first_index n idx (ground arith) in
          elim (Bool-cases (0 == end)) [
            | inl back ↦ back_again rounds idx 0 stop e back lt (ground arith)
            | inr more ↦
                go_on rounds idx 0 stop e more lt (ground arith)
                  (λ i before. ground (arith, before))
                  (probe-Probed rounds 0 (ground arith) (ground arith))
          ]
      | inr inner ↦
          let e = next_index n idx (ground arith) in
          elim (Bool-cases (idx + 1 == end)) [
            | inl back ↦ back_again rounds idx (idx + 1) stop e back lt (ground arith)
            | inr more ↦
                go_on rounds idx (idx + 1) stop e more lt (ground arith)
                  (λ i before. ground (arith, before))
                  (probe-Probed rounds (idx + 1) (ground arith) (ground arith))
          ]
    ]
  ]
