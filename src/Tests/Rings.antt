-- ===== src/Tests/Rings.antt =====
-- The list theorems at a ring of the head 1 and the elements 2, 3 and 4.
use c_db_k8s.Prelude.{ℕ, ◌≡◌, refl, false, [], ◌∷◌, ◌==◌, if◌then◌else◌}
use c_db_k8s.Linked.{Links, list_inuse, list_remove}
use c_db_k8s.Linked.Ring.{Ring}
use c_db_k8s.Linked.Edits.{list_remove-Ring}

abbrev table : ℕ → ℕ → ℕ → ℕ → ℕ → ℕ
table a b c d i =
    if i == 1 then a else if i == 2 then b else if i == 3 then c else if i == 4 then d else 0

abbrev some_links : Links
some_links = record { next = table 2 3 4 1; prev = table 4 1 2 3 }

some_links-Ring : Ring some_links 1 (2 ∷ 3 ∷ 4 ∷ [])
some_links-Ring = (
  ((refl, refl), ((refl, refl), ((refl, refl), (refl, refl)))),
  (refl, (refl, (refl, (refl, tt)))),
)

list_remove-Ring_example :
    Ring (list_remove some_links 3) 1 (2 ∷ 4 ∷ [])
    × (list_inuse (list_remove some_links 3) 3 ≡ false)
list_remove-Ring_example = list_remove-Ring some_links 1 (2 ∷ []) 3 (4 ∷ []) some_links-Ring
