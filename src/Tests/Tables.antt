-- ===== src/Tests/Tables.antt =====
-- The hash map theorems at a table of 4 buckets with 32-bit keys.
use c_db_k8s.Prelude.{
  ℕ, ◌-◌, ◌^◌, ◌≡◌, ◌⊎◌, refl, Bool, true, false, leb, arith, ok, if◌then◌else◌, ◌==◌,
}
use c_db_k8s.Hashmap.{Entry, Map, no_entry, map_hash32, map_put, must_backshift}
use c_db_k8s.Hashmap.Probe.{Probed, probe-Probed}
use c_db_k8s.Hashmap.Stores.{IsTable, AllOthers, Stored, map_put-Stored}
use c_db_k8s.Hashmap.Backshift.{steps, must_backshift-steps}

-- every bucket but one is free
abbrev some_buckets : ℕ → Entry
some_buckets i = if i == 2 then record { key = 9; val = 90 } else no_entry

abbrev some_map : Map
some_map = record {
  buckets = some_buckets;
  has_buckets = true;
  capacity = 4;
  threshold = 3;
  size = 1;
  mask = 3;
  nbits = 2;
  is_fixed = true;
}

abbrev greatest : ℕ
greatest = 2 ^ 32 - 1

no_memory : ℕ → Bool
no_memory n = false

some_map-IsTable : IsTable some_map 2
some_map-IsTable = record {
  capacity = refl;
  mask = refl;
  empty = λ i e lt. absurd (omega (arith, e));
}

map_put-Stored_example :
    (idx : ℕ) × (m' : Map) × (map_put map_hash32 greatest no_memory some_map 7 70 ≡ ok (idx, m'))
    × ((AllOthers map_hash32 greatest no_memory some_map 2 7 × (idx ≡ 4) × (m' ≡ some_map))
        ⊎ Stored map_hash32 greatest no_memory some_map 2 7 70 idx m')
unfolding map_hash32
map_put-Stored_example =
    map_put-Stored map_hash32 greatest no_memory some_map 2 7 70 some_map-IsTable (omega arith)
      (λ e. ground (arith, e)) (λ e. ground (arith, e)) (omega arith)

probe-Probed_example : Probed 4 some_buckets 4 3 7 2 2
probe-Probed_example = probe-Probed some_buckets 2 7 2 (omega arith) 4 2 (omega arith) (omega arith)

must_backshift-steps_example : must_backshift 3 1 2 ≡ leb (steps 4 2 3) (steps 4 2 1)
must_backshift-steps_example =
    must_backshift-steps 4 3 1 2 (omega arith) (omega arith) (omega arith) (λ e. ground (arith, e))
