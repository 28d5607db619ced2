-- ===== src/Tests/Files.antt =====
-- The check of a file and the end of a store at the chain of a store with one record.
use c_db_k8s.Prelude.{◌≡◌, refl, true, [], ◌∷◌, arith, ok}
use c_db_k8s.Db.{Db}
use c_db_k8s.Db.File.{check_chain, check_chain-all_fit}
use c_db_k8s.Db.Free.{free_chain, Freed, free_chain-Freed}
use c_db_k8s.Tests.Store.{one_cell, one_store, one-Chain}

-- the record takes the bytes from 100 to 136
abbrev one_file : Db
one_file = record one_store { file = true; size = 136 }

check_chain-all_fit_example : check_chain 2 one_file 100 ≡ ok true
check_chain-all_fit_example =
    check_chain-all_fit one_file 2 one-Chain (omega arith, omega arith, omega arith, tt)
      (omega arith)

free_chain-Freed_example :
    (db' : Db) × (free_chain 2 one_store 5381 ≡ ok db') × Freed one_store 5381 (one_cell ∷ []) db'
free_chain-Freed_example = free_chain-Freed 2 one_store 5381 one-Chain (omega arith) refl
