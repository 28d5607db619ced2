-- ===== src/Hashmap/Stores.antt =====
-- `put`, `get` and `val` of src/hashmap_impl.h, one after the other.
use c_db_k8s.Prelude.{
  ℕ, ◌+◌, ◌-◌, ◌^◌, ◌<◌, ◌≡◌, ◌≢◌, subst, refl, ◌⊎◌, inl, inr, Bool, true, false, arith, ◌==◌, ltb,
  leb, if◌then◌else◌, ok,
}
use c_db_k8s.Db.{update}
use c_db_k8s.Hashmap.{Map, sanitize, put_at, map_put, map_get, map_key, map_val}
use c_db_k8s.Hashmap.Probe.{left, around, Passed, Probed, probe-Probed}

-- A table of 2^n buckets, and none of them in use where the size is 0.
pub record IsTable (m : Map) (n : ℕ) : Type 0 where
  pub capacity : m.capacity ≡ 2 ^ n
  pub mask : m.mask ≡ 2 ^ n - 1
  pub empty : (i : ℕ) → m.size ≡ 0 → i < 2 ^ n → (m.buckets i).key ≡ 0

module _ (key_hash : ℕ → ℕ → ℕ) (top : ℕ) (calloc : ℕ → Bool) (m : Map) (n : ℕ) where
  abbrev clean : ℕ → ℕ
  clean = sanitize key_hash top calloc

  -- every bucket is in use, and by another key
  abbrev pub AllOthers : ℕ → Type 0
  AllOthers key = (i : ℕ) → i < 2 ^ n → ((m.buckets i).key ≢ 0) × ((m.buckets i).key ≢ clean key)

  -- where `put` has stored the entry
  pub record Stored (key val idx : ℕ) (m' : Map) : Type 0 where
    pub inside : idx < m.capacity
    pub table : IsTable m' n
    pub get_finds : map_get key_hash top calloc m' key ≡ ok idx
    pub key_there : map_key m' idx ≡ clean key
    pub val_there : map_val m' idx ≡ val
    pub others : (i : ℕ) → i ≢ idx → m'.buckets i ≡ m.buckets i
    pub size : m'.size ≡ (if (m.buckets idx).key == 0 then m.size + 1 else m.size)

  -- a search around the whole table has passed each bucket
  each-Passed :
      (k home : ℕ)
      → home < 2 ^ n
      → Passed m.buckets (2 ^ n) k home (left (2 ^ n) home home)
      → (i : ℕ) → i < 2 ^ n
      → ((m.buckets i).key ≢ 0) × ((m.buckets i).key ≢ k)
  each-Passed k home lt passed i h =
      let d = if ltb i home then i + 2 ^ n - home else i - home in
      let there : around (2 ^ n) home d ≡ i = ground (arith, h, lt) in
      subst (λ j. ((m.buckets j).key ≢ 0) × ((m.buckets j).key ≢ k)) there
        (passed d (ground (arith, h, lt)))

  -- In a table of 2^n buckets, below its threshold, for a key that is not the key type's greatest
  -- and has its home slot in the table, `put` ends. Where all the buckets are in use by other keys
  -- it returns the capacity and the table is unchanged; otherwise the entry is stored at the index returned, where `get`, `key` and `val` find
  -- it, no other bucket has changed, and the size counts a bucket that was free.
  pub map_put-Stored :
      (key val : ℕ)
      → IsTable m n
      → m.size < m.threshold
      → key ≢ top
      → top ≢ 0
      → key_hash (clean key) m.nbits < 2 ^ n
      → (idx : ℕ) × (m' : Map) × (map_put key_hash top calloc m key val ≡ ok (idx, m'))
        × ((AllOthers key × (idx ≡ m.capacity) × (m' ≡ m)) ⊎ Stored key val idx m')
  unfolding map_put put_at map_get map_key map_val
  map_put-Stored key val t below ne top_ne home_lt =
      let k = clean key in
      let home = key_hash k m.nbits in
      let k_ne : k ≢ 0 = ground arith in
      let room : leb m.threshold m.size ≡ false = ground arith in
      let usual : (key == top) ≡ false = ground arith in
      let search : Probed m.capacity m.buckets (2 ^ n) (2 ^ n - 1) k home home =
        probe-Probed m.buckets n k home home_lt m.capacity home home_lt
          (ground (arith, t.capacity)) in
      elim search [
        | inl (full, passed) ↦ (
          m.capacity,
          m,
          simp (room, usual, t.mask, full),
          inl (each-Passed k home home_lt passed, refl, refl),
        )
        | inr (at, f) ↦
            let m' : Map = record m {
              buckets = update m.buckets at (record { key = k; val = val });
              size = if (m.buckets at).key == 0 then m.size + 1 else m.size;
            } in
            let used : (m'.size == 0) ≡ false = ground (arith, t.empty at, f.inside, f.free) in
            let here : (at == at) ≡ true = ground arith in
            let set : (k == 0) ≡ false = ground arith in
            let in_table : leb m.capacity at ≡ false = ground (arith, f.inside, t.capacity) in
            (
              at,
              m',
              simp (room, usual, t.mask, f.runs),
              inr (record {
                inside = ground (arith, f.inside, t.capacity);
                table = record {
                  capacity = t.capacity;
                  mask = t.mask;
                  empty = λ i e lt. absurd (ground (arith, used, e));
                };
                get_finds =
                    simp (used, t.mask, f.again (record { key = k; val = val }) refl, here, set);
                key_there = simp (in_table, here, set);
                val_there = simp (in_table, here, set);
                others = λ i other. (let off : (i == at) ≡ false = ground arith in simp off);
                size = refl;
              }),
            )
      ]
