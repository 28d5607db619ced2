-- ===== src/Hashmap.antt =====
-- src/hashmap_impl.h and the hashes of src/hashmap.h: the map with integer keys. The macros
-- `KEY_HASH` and `KEY_TYPE` are the parameters `key_hash` and `top`, the key type's greatest value;
-- `KEY_EQ` is the equality of numbers, as it is for these keys. The buckets are a function of the
-- index; whether `calloc` of so many entries succeeds is the argument `calloc`.
pub mod Probe
pub mod Stores
pub mod Backshift
use c_db_k8s.Prelude.{
  ℕ, zero, suc, ◌+◌, ◌-◌, ◌*◌, ◌/◌, ◌%◌, ◌^◌, bit_and, bit_xor, Bool, true, false, not, ◌&&◌, ◌||◌,
  Option, none, some, ltb, leb, ◌==◌, if◌then◌else◌, Run, ok, stuck, ◌>>=◌,
}
use c_db_k8s.Db.{update}

pub record Entry : Type 0 where
  pub key : ℕ
  pub val : ℕ

pub record Map : Type 0 where
  pub buckets : ℕ → Entry
  pub has_buckets : Bool
  pub capacity : ℕ
  pub threshold : ℕ
  pub size : ℕ
  pub mask : ℕ
  pub nbits : ℕ
  pub is_fixed : Bool

abbrev pub no_entry : Entry
no_entry = record { key = 0; val = 0 }

-- Fibonacci hashing
unfoldable pub map_hash32 : ℕ → ℕ → ℕ
map_hash32 key bits = bit_xor key (key / 2 ^ 16) * 2654435761 % 2 ^ 32 / 2 ^ (32 - bits)

unfoldable pub map_hash64 : ℕ → ℕ → ℕ
map_hash64 key bits =
    bit_xor key (key / 2 ^ 33) * 11400714819323198485 % 2 ^ 64 / 2 ^ (64 - bits) % 2 ^ 32

-- `32 - __builtin_clz(n)`
unfoldable pub bit_length : ℕ → ℕ → ℕ
bit_length zero n = 0
bit_length (suc rounds) n = if n == 0 then 0 else suc (bit_length rounds (n / 2))

unfoldable pub calc_bits : ℕ → ℕ
unfolding bit_length
calc_bits n = bit_length 32 n

abbrev pub calc_threshold : ℕ → ℕ
calc_threshold capacity = capacity / 2 + capacity / 4

-- the capacity that `resize` gives for the one asked for
unfoldable pub calc_nbits : ℕ → ℕ
unfolding calc_bits
calc_nbits capacity =
    let nbits = calc_bits ((capacity + 2 ^ 32 - 1) % 2 ^ 32) in if ltb nbits 2 then 2 else nbits

-- `while (buckets[idx].key)`
unfoldable pub find_free : ℕ → (ℕ → Entry) → (mask idx : ℕ) → Run ℕ
find_free zero buckets mask idx = stuck
find_free (suc rounds) buckets mask idx =
    if (buckets idx).key == 0
    then ok idx
    else find_free rounds buckets mask (bit_and (idx + 1) mask)

-- the search of `put` and `get`; `none` is the return of the capacity
unfoldable pub probe : ℕ → (ℕ → Entry) → (mask key end idx : ℕ) → Run (Option ℕ)
probe zero buckets mask key end idx = stuck
probe (suc rounds) buckets mask key end idx =
    let next = bit_and (idx + 1) mask in
    let rest = probe rounds buckets mask key end next in
    if (buckets idx).key == 0 || (buckets idx).key == key
    then ok (some idx)
    else if next == end
    then ok none
    else rest

-- `must_backshift` in its two versions; the first is the one that is compiled by default
unfoldable pub must_backshift : ℕ → ℕ → ℕ → Bool
must_backshift idx nidx kidx =
    let a = ltb nidx idx in
    let b = leb kidx idx in
    let c = ltb nidx kidx in let ab = if a then not b else b in if ab then not c else c

unfoldable pub must_backshift_normal : ℕ → ℕ → ℕ → Bool
must_backshift_normal idx nidx kidx =
    if leb idx nidx then leb kidx idx || ltb nidx kidx else ltb nidx kidx && leb kidx idx

abbrev pub map_end : Map → ℕ
map_end m = m.capacity

abbrev pub map_size : Map → ℕ
map_size m = m.size

unfoldable pub map_key : Map → ℕ → ℕ
map_key m idx = if leb m.capacity idx || (m.buckets idx).key == 0 then 0 else (m.buckets idx).key

unfoldable pub map_val : Map → ℕ → ℕ
map_val m idx = if leb m.capacity idx || (m.buckets idx).key == 0 then 0 else (m.buckets idx).val

unfoldable pub map_set : Map → ℕ → ℕ → ℕ × Map
map_set m idx val = if leb m.capacity idx || (m.buckets idx).key == 0 then (m.capacity, m) else (
  idx,
  record m { buckets = update m.buckets idx (record { key = (m.buckets idx).key; val = val }) },
)

unfoldable pub map_free : Map → Map
map_free m = if m.has_buckets && not m.is_fixed then record m { has_buckets = false } else m

unfoldable pub map_attach : Map → (ℕ → Entry) → ℕ → Bool × Map
unfolding calc_bits
map_attach m buffer capacity =
    if ltb capacity 4 || not (bit_and capacity (capacity - 1) == 0) then (false, m) else (
      true,
      record {
        buckets = buffer;
        has_buckets = true;
        capacity = capacity;
        threshold = calc_threshold capacity;
        size = 0;
        mask = capacity - 1;
        nbits = calc_bits (capacity - 1);
        is_fixed = true;
      },
    )

module _ (key_hash : ℕ → ℕ → ℕ) (top : ℕ) (calloc : ℕ → Bool) where
  -- key 0 marks an empty bucket
  abbrev pub sanitize : ℕ → ℕ
  sanitize k = if k == 0 then top else k

  -- the loop over the old buckets from `i` on, `left` of them
  unfoldable pub rehash :
      (left i : ℕ) → Map → (nbits : ℕ) → (ℕ → Entry) → (size : ℕ) → Run ((ℕ → Entry) × ℕ)
  unfolding find_free
  rehash zero i m nbits buckets size = ok (buckets, size)
  rehash (suc left) i m nbits buckets size =
      let entry = m.buckets i in
      let skip = rehash left (i + 1) m nbits buckets size in
      let place = find_free (2 ^ nbits) buckets (2 ^ nbits - 1) (key_hash entry.key nbits) in
      let move =
        place >>= λ idx. rehash left (i + 1) m nbits (update buckets idx entry) (size + 1) in
      if entry.key == 0 then skip else move

  unfoldable pub map_resize : Map → ℕ → Run (Bool × Map)
  unfolding rehash calc_nbits
  map_resize m capacity =
      let nbits = calc_nbits capacity in
      let cap = 2 ^ nbits % 2 ^ 32 in
      if m.is_fixed || not (calloc cap) then ok (false, m) else do
        (buckets, size) ← rehash m.capacity 0 m nbits (λ i. no_entry) 0
        ok (
          true,
          record m {
            buckets = buckets;
            has_buckets = true;
            capacity = cap;
            threshold = calc_threshold cap;
            size = size;
            mask = cap - 1;
            nbits = nbits;
          },
        )

  abbrev pub map_init : Map → ℕ → Run (Bool × Map)
  map_init m capacity = map_resize m capacity

  -- the part of `put` behind the resize
  unfoldable pub put_at : Map → ℕ → ℕ → Run (ℕ × Map)
  put_at m key val =
      let k = sanitize key in
      let home = key_hash k m.nbits in
      if key == top then ok (m.capacity, m) else do
        found ← probe m.capacity m.buckets m.mask k home home
        elim found [
          | none ↦ ok (m.capacity, m)
          | some idx ↦ ok (
            idx,
            record m {
              buckets = update m.buckets idx (record { key = k; val = val });
              size = if (m.buckets idx).key == 0 then m.size + 1 else m.size;
            },
          )
        ]

  unfoldable pub map_put : Map → ℕ → ℕ → Run (ℕ × Map)
  unfolding put_at
  map_put m key val =
      let direct = put_at m key val in
      if not (leb m.threshold m.size) then direct else do
        (done, m') ← map_resize m ((m.capacity + 1) % 2 ^ 32)
        let rest = put_at m' key val
        if done then rest else ok (m'.capacity, m')

  unfoldable pub map_get : Map → ℕ → Run ℕ
  map_get m key =
      let k = sanitize key in
      let home = key_hash k m.nbits in
      if m.size == 0 then ok m.capacity else do
        found ← probe m.capacity m.buckets m.mask k home home
        elim found [
          | none ↦ ok m.capacity
          | some idx ↦ ok (if (m.buckets idx).key == 0 then m.capacity else idx)
        ]

  -- `while (1)` of `rem`: the hole `idx` moves to where an entry came from
  unfoldable pub backshift : ℕ → Map → (idx nidx : ℕ) → Run (ℕ × Map)
  unfolding must_backshift
  backshift zero m idx nidx = stuck
  backshift (suc rounds) m idx nidx =
      let next = bit_and (nidx + 1) m.mask in
      let kidx = key_hash (m.buckets next).key m.nbits in
      let moved =
        backshift rounds (record m { buckets = update m.buckets idx (m.buckets next) }) next next in
      let stay = backshift rounds m idx next in
      if next == idx || (m.buckets next).key == 0
      then ok (idx, m)
      else if must_backshift idx next kidx
      then moved
      else stay

  unfoldable pub map_rem : Map → ℕ → Run (ℕ × Map)
  unfolding backshift
  map_rem m idx = if m.size == 0 || leb m.capacity idx then ok (m.capacity, m) else do
    (hole, m') ← backshift m.capacity m idx idx
    ok (
      hole,
      record m' {
        buckets = update m'.buckets hole (record { key = 0; val = (m'.buckets hole).val });
        size = m'.size - 1;
      },
    )

  unfoldable pub map_del : Map → ℕ → Run (ℕ × Map)
  map_del m key = do
    idx ← map_get m (sanitize key)
    let gone = map_rem m idx
    if idx == m.capacity then ok (idx, m) else gone
