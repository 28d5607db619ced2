-- ===== src/Dns/Tables.antt =====
-- src/dns_proto.c: names of types and classes, in both directions.
use c_db_k8s.Prelude.{
  ℕ, ◌≡◌, refl, ◌⊎◌, inl, inr, true, Option, none, some, List, [], ◌∷◌, Bytes, ◌==◌, if◌then◌else◌,
  Bool-cases,
}
use c_db_k8s.Dns.Name.{case_eq}

-- a chain of `if (!strcasecmp(str, name)) return code;` with 0 at its end
unfoldable pub get_code : List (Bytes × ℕ) → Bytes → ℕ
get_code [] str = 0
get_code ((name, code) ∷ names) str = if case_eq str name then code else get_code names str

-- a chain of `if (code == n) return name;`, with `none` for the text of the number
unfoldable pub get_name : List (ℕ × Bytes) → ℕ → Option Bytes
get_name [] code = none
get_name ((n, name) ∷ codes) code = if code == n then some name else get_name codes code

abbrev pub type_names : List (Bytes × ℕ)
type_names =
    (65 ∷ [], 1)
    ∷ (78 ∷ 83 ∷ [], 2)
    ∷ (67 ∷ 78 ∷ 65 ∷ 77 ∷ 69 ∷ [], 5)
    ∷ (83 ∷ 79 ∷ 65 ∷ [], 6)
    ∷ (80 ∷ 84 ∷ 82 ∷ [], 12)
    ∷ (72 ∷ 73 ∷ 78 ∷ 70 ∷ 79 ∷ [], 13)
    ∷ (77 ∷ 88 ∷ [], 15)
    ∷ (84 ∷ 88 ∷ 84 ∷ [], 16)
    ∷ (65 ∷ 65 ∷ 65 ∷ 65 ∷ [], 28)
    ∷ (83 ∷ 82 ∷ 86 ∷ [], 33)
    ∷ []

unfoldable pub dns_get_type : Bytes → ℕ
unfolding get_code
dns_get_type str = get_code type_names str

abbrev pub class_names : List (Bytes × ℕ)
class_names =
    (73 ∷ 78 ∷ [], 1)
    ∷ (67 ∷ 83 ∷ [], 2)
    ∷ (67 ∷ 72 ∷ [], 3)
    ∷ (72 ∷ 83 ∷ [], 4)
    ∷ (65 ∷ 78 ∷ 89 ∷ [], 255)
    ∷ []

unfoldable pub dns_get_class : Bytes → ℕ
unfolding get_code
dns_get_class str = get_code class_names str

unfoldable pub dns_get_flag : Bytes → ℕ
unfolding get_code
dns_get_flag str =
    get_code ((67 ∷ 68 ∷ [], 0x0800) ∷ (82 ∷ 68 ∷ [], 0x0100) ∷ (65 ∷ 68 ∷ [], 0x0020) ∷ []) str

unfoldable pub dns_type_tostr : ℕ → Option Bytes
unfolding get_name
dns_type_tostr code =
    get_name
      ((1, 65 ∷ [])
        ∷ (2, 78 ∷ 83 ∷ [])
        ∷ (5, 67 ∷ 78 ∷ 65 ∷ 77 ∷ 69 ∷ [])
        ∷ (6, 83 ∷ 79 ∷ 65 ∷ [])
        ∷ (12, 80 ∷ 84 ∷ 82 ∷ [])
        ∷ (15, 77 ∷ 88 ∷ [])
        ∷ (16, 84 ∷ 88 ∷ 84 ∷ [])
        ∷ (28, 65 ∷ 65 ∷ 65 ∷ 65 ∷ [])
        ∷ (33, 83 ∷ 82 ∷ 86 ∷ [])
        ∷ (41, 79 ∷ 80 ∷ 84 ∷ [])
        ∷ (252, 65 ∷ 88 ∷ 70 ∷ 82 ∷ [])
        ∷ (255, 65 ∷ 78 ∷ 89 ∷ [])
        ∷ [])
      code

unfoldable pub dns_class_tostr : ℕ → Option Bytes
unfolding get_name
dns_class_tostr code =
    get_name
      ((1, 73 ∷ 78 ∷ [])
        ∷ (3, 67 ∷ 72 ∷ [])
        ∷ (4, 72 ∷ 83 ∷ [])
        ∷ (254, 78 ∷ 79 ∷ 78 ∷ 69 ∷ [])
        ∷ (255, 42 ∷ [])
        ∷ [])
      code

-- a property of each entry of a table
Each : (Bytes → ℕ → Type 0) → List (Bytes × ℕ) → Type 0
Each P [] = Unit {0}
Each P ((name, code) ∷ names) = P name code × Each P names

get_code-Each :
    (P : Bytes → ℕ → Type 0) (names : List (Bytes × ℕ)) (str : Bytes)
    → Each P names
    → (get_code names str ≡ 0)
      ⊎ ((name : Bytes) × (case_eq str name ≡ true) × P name (get_code names str))
unfolding get_code Each
get_code-Each P [] str all = inl refl
get_code-Each P ((name, code) ∷ names) str all = elim (Bool-cases (case_eq str name)) [
  | inl same ↦ rw same (inr (name, same, all.0))
  | inr other ↦ rw other (get_code-Each P names str all.1)
]

-- `dns_type_tostr` gives back the name that `dns_get_type` was asked for, but for the case of its
-- letters: `dns_get_type` returns 0, or 13 (HINFO, which has no text), or a code whose text is the name.
pub dns_get_type-dns_type_tostr :
    (str : Bytes)
    → (dns_get_type str ≡ 0)
      ⊎ ((name : Bytes) × (case_eq str name ≡ true)
          × ((dns_get_type str ≡ 13) ⊎ (dns_type_tostr (dns_get_type str) ≡ some name)))
unfolding dns_get_type dns_type_tostr Each
dns_get_type-dns_type_tostr str =
    get_code-Each (λ name code. (code ≡ 13) ⊎ (dns_type_tostr code ≡ some name)) type_names str
      (
        inr refl,
        (
          inr refl,
          (
            inr refl,
            (inr refl, (inr refl, (inl refl, (inr refl, (inr refl, (inr refl, (inr refl, tt))))))),
          ),
        ),
      )
