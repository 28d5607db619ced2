-- ===== src/Linked.antt =====
-- src/list.h: the doubly linked list. Memory is the two fields `next` and `prev` at every address;
-- `NULL` is 0. Each write is made to the memory that the write before it left.
pub mod Ring
pub mod Edits
use c_db_k8s.Prelude.{ℕ, Bool, not, ◌==◌}
use c_db_k8s.Db.{update}

-- every `struct list_elem`
pub record Links : Type 0 where
  pub next : ℕ → ℕ
  pub prev : ℕ → ℕ

abbrev pub set_next : Links → ℕ → ℕ → Links
set_next m at p = record m { next = update m.next at p }

abbrev pub set_prev : Links → ℕ → ℕ → Links
set_prev m at p = record m { prev = update m.prev at p }

abbrev pub list_isempty : Links → ℕ → Bool
list_isempty m list = m.next list == list

abbrev pub list_inuse : Links → ℕ → Bool
list_inuse m elem = not (m.next elem == 0)

unfoldable pub list_init : Links → ℕ → Links
list_init m elem = set_prev (set_next m elem elem) elem elem

unfoldable pub list_chain : Links → (prev node next : ℕ) → Links
list_chain m prev node next =
    set_next (set_prev (set_next (set_prev m next node) node next) node prev) prev node

unfoldable pub list_prepend : Links → (head node : ℕ) → Links
unfolding list_chain
list_prepend m head node = list_chain m head node (m.next head)

unfoldable pub list_append : Links → (head node : ℕ) → Links
unfolding list_chain
list_append m head node = list_chain m (m.prev head) node head

unfoldable pub list_remove : Links → ℕ → Links
list_remove m elem =
    let m1 = set_next m (m.prev elem) (m.next elem) in
    let m2 = set_prev m1 (m1.next elem) (m1.prev elem) in set_prev (set_next m2 elem 0) elem 0

unfoldable pub list_replace : Links → (old new : ℕ) → Links
list_replace m old new =
    let m1 = set_prev m new (m.prev old) in
    let m2 = set_next m1 new (m1.next old) in
    let m3 = set_next (set_prev m2 old 0) old 0 in
    let m4 = set_next m3 (m3.prev new) new in set_prev m4 (m4.next new) new
