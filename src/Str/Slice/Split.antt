-- ===== src/Str/Slice/Split.antt =====
-- Cutting a slice at a character, and comparing slices.
use c_db_k8s.Prelude.{
  ℕ, ◌+◌, ◌≡◌, refl, none, some, [], ◌∷◌, ◌++◌, Bytes, ◌==◌, if◌then◌else◌, arith,
}
use c_db_k8s.Str.Slice.{null, str, find_ch, slice_splitch, rfind_ch, slice_rsplit}

-- how often `ch` stands in the bytes
unfoldable pub count_ch : ℕ → Bytes → ℕ
count_ch ch [] = 0
count_ch ch (c ∷ s) = (if c == ch then 1 else 0) + count_ch ch s

pub find_ch-join :
    (ch : ℕ) (a b : Bytes) → count_ch ch a ≡ 0 → find_ch ch (a ++ (ch ∷ b)) ≡ some (a, b)
unfolding find_ch count_ch
find_ch-join ch [] b h = ground arith
find_ch-join ch (c ∷ a) b h = ground (arith, find_ch-join ch a b)

pub find_ch-eq-none : (ch : ℕ) (s : Bytes) → count_ch ch s ≡ 0 → find_ch ch s ≡ none
unfolding find_ch count_ch
find_ch-eq-none ch [] h = refl
find_ch-eq-none ch (c ∷ s) h = ground (arith, find_ch-eq-none ch s)

rfind_ch-eq-none : (ch : ℕ) (s : Bytes) → count_ch ch s ≡ 0 → rfind_ch ch s ≡ none
unfolding rfind_ch count_ch
rfind_ch-eq-none ch [] h = refl
rfind_ch-eq-none ch (c ∷ s) h = ground (arith, rfind_ch-eq-none ch s)

rfind_ch-join :
    (ch : ℕ) (a b : Bytes) → count_ch ch b ≡ 0 → rfind_ch ch (a ++ (ch ∷ b)) ≡ some (a, b)
unfolding rfind_ch
rfind_ch-join ch [] b h = ground (arith, rfind_ch-eq-none ch b)
rfind_ch-join ch (c ∷ a) b h = ground (arith, rfind_ch-join ch a b)

-- `slice_splitch` undoes a join at the first separator: a token without `ch`, followed by `ch` and
-- any rest, is split into the token and the rest; a source without `ch` is the token, and null is
-- left.
pub slice_splitch-join :
    (ch : ℕ) (a b : Bytes)
    → count_ch ch a ≡ 0
    → (slice_splitch (str (a ++ (ch ∷ b))) ch ≡ (str a, str b))
      × (slice_splitch (str a) ch ≡ (str a, null))
unfolding slice_splitch
slice_splitch-join ch a b h =
    (rw (find_ch-join ch a b h, slice_splitch), rw (find_ch-eq-none ch a h, slice_splitch))

-- `slice_rsplit` undoes a join at the last separator: of a head, `ch` and a tail without `ch` the
-- tail is returned and the head stays; a source without `ch` stays, and null is returned.
pub slice_rsplit-join :
    (ch : ℕ) (a b : Bytes)
    → count_ch ch b ≡ 0
    → (slice_rsplit (str (a ++ (ch ∷ b))) ch ≡ (str b, str a))
      × (slice_rsplit (str b) ch ≡ (null, str b))
unfolding slice_rsplit
slice_rsplit-join ch a b h =
    (rw (rfind_ch-join ch a b h, slice_rsplit), rw (rfind_ch-eq-none ch b h, slice_rsplit))
