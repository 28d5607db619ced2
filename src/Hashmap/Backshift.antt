-- ===== src/Hashmap/Backshift.antt =====
-- `must_backshift` of src/hashmap_impl.h.
use c_db_k8s.Prelude.{ℕ, ◌+◌, ◌-◌, ◌<◌, ◌≢◌, ◌≡◌, arith, leb, if◌then◌else◌}
use c_db_k8s.Hashmap.{must_backshift, must_backshift_normal}

-- The branch-free version is the version with branches, for any indices.
pub must_backshift-normal :
    (idx nidx kidx : ℕ) → must_backshift idx nidx kidx ≡ must_backshift_normal idx nidx kidx
unfolding must_backshift must_backshift_normal
must_backshift-normal idx nidx kidx = ground arith

-- steps from one slot to another in a table that goes round
abbrev pub steps : (capacity from to : ℕ) → ℕ
steps capacity from to = if leb from to then to - from else to + capacity - from

-- For different slots of a table, an entry moves into the hole exactly where the hole is on the
-- way from the entry's home slot to the slot it is in: going on from its home, a search meets the
-- hole no later.
pub must_backshift-steps :
    (capacity idx nidx kidx : ℕ)
    → idx < capacity
    → nidx < capacity
    → kidx < capacity
    → idx ≢ nidx
    → must_backshift idx nidx kidx ≡ leb (steps capacity kidx idx) (steps capacity kidx nidx)
unfolding must_backshift
must_backshift-steps capacity idx nidx kidx h1 h2 h3 ne = ground arith
