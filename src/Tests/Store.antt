-- ===== src/Tests/Store.antt =====
-- The store theorems at a store in memory that binds "suj" to "b".
use c_db_k8s.Prelude.{
  ℕ, ◌≡◌, refl, inl, inr, Bool, true, false, none, some, [], ◌∷◌, Bytes, ◌==◌, if◌then◌else◌, arith,
  ok, Bool-cases,
}
use c_db_k8s.Str.Chars.{str_cmp}
use c_db_k8s.Str.Slice.{str}
use c_db_k8s.Db.{Db, calc_hash, dbj2a_hash, dbj2a_loop, new_rec}
use c_db_k8s.Db.Loops.{db_get, db_del}
use c_db_k8s.Db.Chain.{Cell, Chain, nil, cons, lookup, same_key}
use c_db_k8s.Db.Store.{Layout, IsStore, db_get-view}
use c_db_k8s.Db.Delete.{Removes, db_del-Removes}
use c_db_k8s.Db.Put.{Sets, db_set-Sets}
use c_db_k8s.Db.Prefix.{db_get-prefix}

abbrev pub suj : Bytes
suj = 115 ∷ 117 ∷ 106 ∷ []

abbrev pub one_cell : Cell
one_cell = record { at = 100; key = suj; val = 98 ∷ [] }

abbrev pub one_layout : Layout
one_layout i = if i == 5381 then one_cell ∷ [] else []

abbrev pub one_store : Db
one_store = record {
  file = false;
  size = 0;
  hdr = record { magic = 0; version = 0; num_rec = 0; num_del = 0; next_offset = 0 };
  buckets = λ i. if i == 5381 then 100 else 0;
  recs = λ a. if a == 100 then some (new_rec suj (98 ∷ [])) else none;
  init_done = true;
}

-- the memory behind each record
abbrev pub zeros : ℕ → ℕ → ℕ
zeros a i = 0

pub suj_home : calc_hash suj ≡ 5381
unfolding calc_hash dbj2a_hash dbj2a_loop
suj_home = refl

pub one-Chain : Chain one_store.recs 100 (one_cell ∷ [])
one-Chain = cons {next = 0} {flags = 0} (λ e. ground (arith, e)) refl refl refl (nil refl)

pub one_store-IsStore : IsStore one_store one_layout
one_store-IsStore = record {
  chains = λ i. elim (Bool-cases (i == 5381)) [ inl e ↦ rw e one-Chain | inr e ↦ rw e (nil refl) ];
  homes = λ i. elim (Bool-cases (i == 5381)) [
    | inl e ↦ rw e (ground (arith, suj_home), tt)
    | inr e ↦ rw e tt
  ];
  unique = λ i. elim (Bool-cases (i == 5381)) [ inl e ↦ rw e (tt, tt) | inr e ↦ rw e tt ];
}

db_get-view_example : db_get zeros 2 one_store (str suj) ≡ ok (str (98 ∷ []))
unfolding calc_hash dbj2a_hash dbj2a_loop lookup same_key str_cmp
db_get-view_example =
    db_get-view zeros 2 one_store one_layout (str suj) one_store-IsStore (λ _. refl, tt)
      (omega arith)

db_set-Sets_example : Sets zeros 2 200 one_store one_layout (str suj) (str (120 ∷ 121 ∷ []))
unfolding calc_hash dbj2a_hash dbj2a_loop
db_set-Sets_example =
    db_set-Sets zeros 2 200 one_store one_layout (str suj) (str (120 ∷ 121 ∷ [])) one_store-IsStore
      (λ _. refl, tt) (omega arith) (λ _ _. refl, λ e. ground (arith, e))

db_del-Removes_example :
    (out : Bool) × (db' : Db) × (db_del zeros 2 one_store (str suj) ≡ ok (out, db'))
    × Removes one_layout suj out db'
unfolding calc_hash dbj2a_hash dbj2a_loop
db_del-Removes_example =
    db_del-Removes zeros 2 one_store one_layout (str suj) one_store-IsStore (λ _. refl, tt)
      (omega arith)

-- the empty key begins every record, and its bucket is that of "suj"
db_get-prefix_example : db_get zeros 2 one_store (str []) ≡ ok (str (98 ∷ []))
unfolding calc_hash dbj2a_hash dbj2a_loop
db_get-prefix_example =
    db_get-prefix zeros 1 one_store [] (115 ∷ 117 ∷ 106 ∷ 98 ∷ []) one_cell [] one-Chain refl
