-- ===== src/Str/Slice/Trim.antt =====
-- `slice_trim` of src/str_util.h and the white space around a slice.
use c_db_k8s.Prelude.{
  ℕ, ◌≡◌, refl, ap, ◌∙◌, true, false, [], ◌∷◌, ◌++◌, Bytes, arith, append_assoc, sym,
}
use c_db_k8s.Str.Chars.{is_white}
use c_db_k8s.Str.Slice.{str, ltrim, rtrim, slice_trim}

abbrev pub AllWhite : Bytes → Type 0
AllWhite [] = Unit
AllWhite (c ∷ s) = (is_white c ≡ true) × AllWhite s

-- the bytes neither begin nor end with white space
abbrev pub StartsInk : Bytes → Type 0
StartsInk [] = Unit
StartsInk (c ∷ s) = is_white c ≡ false

abbrev pub EndsInk : Bytes → Type 0
EndsInk [] = Unit
EndsInk (c ∷ []) = is_white c ≡ false
EndsInk (c ∷ d ∷ s) = EndsInk (d ∷ s)

ltrim-append : (w s : Bytes) → AllWhite w → ltrim (w ++ s) ≡ ltrim s
unfolding ltrim
ltrim-append [] s h = refl
ltrim-append (c ∷ w) s h = rw (h.0) (ltrim-append w s h.1)

ltrim-StartsInk : (s : Bytes) → StartsInk s → ltrim s ≡ s
unfolding ltrim
ltrim-StartsInk [] h = refl
ltrim-StartsInk (c ∷ s) h = rw h

rtrim-AllWhite : (w : Bytes) → AllWhite w → rtrim w ≡ []
unfolding rtrim
rtrim-AllWhite [] h = refl
rtrim-AllWhite (c ∷ w) h = ground (arith, rtrim-AllWhite w)

rtrim-EndsInk : (s w : Bytes) → EndsInk s → AllWhite w → rtrim (s ++ w) ≡ s
unfolding rtrim
rtrim-EndsInk [] w e h = rtrim-AllWhite w h
rtrim-EndsInk (c ∷ []) w e h = ground (arith, rtrim-AllWhite w)
rtrim-EndsInk (c ∷ d ∷ s) w e h = ground (arith, rtrim-EndsInk (d ∷ s) w e h)

EndsInk-append : (a : Bytes) (c : ℕ) (s : Bytes) → EndsInk (c ∷ s) → EndsInk (a ++ (c ∷ s))
EndsInk-append [] c s h = h
EndsInk-append (x ∷ []) c s h = h
EndsInk-append (x ∷ y ∷ a) c s h = EndsInk-append (y ∷ a) c s h

AllWhite-append : (a b : Bytes) → AllWhite a → AllWhite b → AllWhite (a ++ b)
AllWhite-append [] b ha hb = hb
AllWhite-append (c ∷ a) b ha hb = (ha.0, AllWhite-append a b ha.1 hb)

trim_lem :
    (a s b : Bytes)
    → AllWhite a
    → AllWhite b
    → StartsInk s
    → EndsInk s
    → ltrim (rtrim (a ++ (s ++ b))) ≡ s
trim_lem a [] b ha hb start end =
    ap ltrim (rtrim-AllWhite (a ++ b) (AllWhite-append a b ha hb)) ∙ ltrim-StartsInk [] tt
trim_lem a (c ∷ s) b ha hb start end =
    ap (λ t. ltrim (rtrim t)) (sym (append_assoc a (c ∷ s) b))
    ∙ ap ltrim (rtrim-EndsInk (a ++ (c ∷ s)) b (EndsInk-append a c s end) hb)
    ∙ ltrim-append a (c ∷ s) ha
    ∙ ltrim-StartsInk (c ∷ s) start

-- White space, a text that neither begins nor ends with white space, and white space again are
-- trimmed to the text.
pub slice_trim_lem :
    (a s b : Bytes)
    → AllWhite a
    → AllWhite b
    → StartsInk s
    → EndsInk s
    → slice_trim (str (a ++ (s ++ b))) ≡ str s
unfolding slice_trim
slice_trim_lem a s b ha hb start end = ap str (trim_lem a s b ha hb start end)
