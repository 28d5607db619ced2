-- ===== src/Str/Slice/Compare.antt =====
-- `memcmp`, `str_cmp` and the comparisons of slices of src/str_util.h.
use c_db_k8s.Prelude.{
  ◌≤◌, ◌≡◌, refl, ap, ◌↔◌, inl, inr, Ordering, [], ◌∷◌, Bytes, ◌==◌, length, take, arith,
  Bool-cases, subst,
}
use c_db_k8s.Str.Chars.{memcmp, str_cmp}
use c_db_k8s.Str.Slice.{Slice, bytes, slice_cmpmem}

-- `memcmp` over the whole of `a` tells whether `b` begins with `a`
pub memcmp_iff :
    (a b : Bytes)
    → length a ≤ length b
    → (memcmp (length a) a b ≡ Ordering.eq) ↔ (take (length a) b ≡ a)
unfolding memcmp
memcmp_iff [] b h = (λ _. refl, λ _. refl)
memcmp_iff (x ∷ a) [] h = absurd (omega arith)
memcmp_iff (x ∷ a) (y ∷ b) h = ground (arith, memcmp_iff a b)

pub memcmp_refl : (a : Bytes) → memcmp (length a) a a ≡ Ordering.eq
unfolding memcmp
memcmp_refl [] = refl
memcmp_refl (x ∷ a) = ground (arith, memcmp_refl a)

memcmp-eq : (a b : Bytes) → length a ≡ length b → memcmp (length a) a b ≡ Ordering.eq → a ≡ b
unfolding memcmp
memcmp-eq [] [] l h = refl
memcmp-eq [] (y ∷ b) l h = absurd (omega arith)
memcmp-eq (x ∷ a) [] l h = absurd (omega arith)
memcmp-eq (x ∷ a) (y ∷ b) l h = ground (arith, memcmp-eq a b)

memcmp_bytes : (a b : Bytes) → length a ≡ length b → (memcmp (length a) a b ≡ Ordering.eq) ↔ (a ≡ b)
memcmp_bytes a b l =
    (memcmp-eq a b l, λ e. subst (λ c. memcmp (length a) a c ≡ Ordering.eq) e (memcmp_refl a))

pub str_cmp_iff : (a b : Bytes) → (str_cmp a b ≡ Ordering.eq) ↔ (a ≡ b)
unfolding str_cmp
str_cmp_iff a b = elim (Bool-cases (length a == length b)) [
  | inl same ↦ rw same (memcmp_bytes a b (ground arith))
  | inr differ ↦ rw differ (λ h. absurd (ground arith), λ e. absurd (ground (arith, ap length e)))
]

-- `slice_cmpmem` returns 0 exactly where the slice holds the same bytes as the memory.
pub slice_cmpmem_iff :
    (s : Slice) (mem : Bytes) → (slice_cmpmem s mem ≡ Ordering.eq) ↔ (bytes s ≡ mem)
slice_cmpmem_iff s mem = unfold slice_cmpmem in str_cmp_iff (bytes s) mem
