-- ===== src/Rwbuf/Lines.antt =====
-- `rwbuf_readline` of src/rwbuf.c and the lines among the unread bytes.
use c_db_k8s.Prelude.{
  append_assoc, ℕ, ◌+◌, ◌-◌, ◌<◌, ◌≤◌, ◌≡◌, ◌≢◌, refl, sym, ap, ◌∙◌, ◌⊎◌, inl, inr, Bool, true,
  false, not, ◌&&◌, none, some, [], ◌∷◌, ◌++◌, Bytes, ltb, ◌==◌, if◌then◌else◌, length, take, drop,
  write_at, arith, Bool-cases, length-append, length-write_at, drop-write_at, drop-append_back,
}
use c_db_k8s.Str.Slice.{find_ch}
use c_db_k8s.Str.Slice.Split.{count_ch, find_ch-join, find_ch-eq-none}
use c_db_k8s.Rwbuf.{
  Rwbuf, Line, line, incomplete, too_long, used, unread, strip_cr, consume, rwbuf_readline,
}
use c_db_k8s.Rwbuf.Valid.{
  IsValid, contents, Keeps, consume-drop, unread-contents, used-eq, length-contents,
  shift_down-Keeps,
}

pub strip_cr-le : (a : Bytes) → length (strip_cr a) ≤ length a
unfolding strip_cr
strip_cr-le [] = omega arith
strip_cr-le (c ∷ []) = ground arith
strip_cr-le (c ∷ d ∷ s) = omega (arith, strip_cr-le (d ∷ s))

-- of text and CR the text is left
pub strip_cr-append : (a : Bytes) → strip_cr (a ++ (13 ∷ [])) ≡ a
unfolding strip_cr
strip_cr-append [] = refl
strip_cr-append (c ∷ []) = refl
strip_cr-append (c ∷ d ∷ s) = ap (◌∷◌ c) (strip_cr-append (d ∷ s))

-- the NUL is written behind the text, in front of the bytes that are still unread
abbrev terminated : Bool → Rwbuf → ℕ → Rwbuf
terminated addnul c at = if addnul then record c { memory = write_at at (0 ∷ []) c.memory } else c

terminated-contents :
    (addnul : Bool) (c : Rwbuf) (at : ℕ)
    → IsValid c
    → at < c.size
    → (at < c.ridx) ⊎ (c.ridx ≡ c.widx)
    → IsValid (terminated addnul c at) × (contents (terminated addnul c at) ≡ contents c)
terminated-contents false c at v h before = (v, refl)
terminated-contents true c at v h before = (
  record {
    memory_size =
        length-write_at at (0 ∷ []) c.memory (omega (arith, v.memory_size)) ∙ v.memory_size;
    read_le = v.read_le;
    write_le = v.write_le;
    small = v.small;
    max_small = v.max_small;
    bounded = v.bounded;
  },
  elim before [
    | inl below ↦ ap (take (c.widx - c.ridx)) (
        drop-write_at at c.ridx (0 ∷ []) c.memory (omega arith)
          (omega (arith, v.memory_size, v.read_le, v.write_le)))
    | inr empty ↦ let e : c.widx - c.ridx ≡ 0 = omega arith in rw e
  ],
)

consume-place :
    (b : Rwbuf) (n at : ℕ)
    → IsValid b
    → n ≤ b.widx - b.ridx
    → at < b.ridx + n
    → ((consume b n).size ≡ b.size)
      × ((at < (consume b n).ridx) ⊎ ((consume b n).ridx ≡ (consume b n).widx))
consume-place b n at v h below = ground (arith, v.read_le, v.write_le, v.small)

-- a line `a` has been taken off, and `rest` is left
pub record Took (b : Rwbuf) (max : ℕ) (a rest : Bytes) (r : Line × Rwbuf) : Type 0 where
  pub valid : IsValid (r.1)
  pub left : contents (r.1) ≡ rest
  pub result : r.0 ≡ (
      if not (max == 0) && ltb max (length (strip_cr a))
      then too_long
      else line (length a + 1) (strip_cr a))

-- the text does not end with CR
abbrev pub EndsPlain : Bytes → Type 0
EndsPlain [] = Unit
EndsPlain (c ∷ []) = (c == 13) ≡ false
EndsPlain (c ∷ d ∷ s) = EndsPlain (d ∷ s)

strip_cr-EndsPlain : (text : Bytes) → EndsPlain text → strip_cr text ≡ text
unfolding strip_cr
strip_cr-EndsPlain [] h = refl
strip_cr-EndsPlain (c ∷ []) h = rw h
strip_cr-EndsPlain (c ∷ d ∷ s) h = ap (◌∷◌ c) (strip_cr-EndsPlain (d ∷ s) h)

count_ch-append : (ch : ℕ) (a b : Bytes) → count_ch ch (a ++ b) ≡ count_ch ch a + count_ch ch b
unfolding count_ch
count_ch-append ch [] b = omega arith
count_ch-append ch (c ∷ a) b = omega (arith, count_ch-append ch a b)

cr_lf : count_ch 10 (13 ∷ []) ≡ 0
unfolding count_ch
cr_lf = refl

-- the bytes that end a line
abbrev pub line_end : Bool → Bytes
line_end true = 13 ∷ 10 ∷ []
line_end false = 10 ∷ []

module _ (b : Rwbuf) (max : ℕ) (eof addnul : Bool) (v : IsValid b) where
  -- where the unread bytes hold an LF
  readline-Took :
      (a rest : Bytes)
      → contents b ≡ a ++ (10 ∷ rest)
      → count_ch 10 a ≡ 0
      → Took b max a rest (rwbuf_readline b max eof addnul)
  unfolding rwbuf_readline
  readline-Took a rest whole once =
      let found : find_ch 10 (unread b) ≡ some (a, rest) =
        ap (find_ch 10) (unread-contents v ∙ whole) ∙ find_ch-join 10 a rest once in
      let size = length-append a (10 ∷ rest) in
      let total = ap length whole in
      let at = b.ridx + length (strip_cr a) in
      let fits : length a + 1 ≤ b.widx - b.ridx = omega (arith, length-contents v, total, size) in
      let below : at < b.ridx + (length a + 1) = omega (arith, strip_cr-le a) in
      let taken = consume-drop b (length a + 1) v fits in
      let place = consume-place b (length a + 1) at v fits below in
      let nul =
        terminated-contents addnul (consume b (length a + 1)) at taken.0
          (omega (arith, place.0, v.read_le, v.write_le)) place.1 in
      let left =
        nul.1 ∙ taken.1 ∙ ap (drop (length a + 1)) whole ∙ drop-append_back a (10 ∷ rest) 1 in
      rw (found, rwbuf_readline)
        (elim (Bool-cases (not (max == 0) && ltb max (length (strip_cr a)))) [
          | inl big ↦ rw big (record { valid = nul.0; left = left; result = rw big })
          | inr good ↦ rw good (record { valid = nul.0; left = left; result = rw good })
        ])

  -- `rwbuf_readline` on a valid buffer that holds a text without LF, CRLF or (`cr` is `false`, and
  -- the text does not end with CR) LF, and a rest, returns the text and the length with the line's
  -- end, and leaves the rest in a valid buffer. Where `max` is not 0 and the text is longer, the
  -- line is refused, but it is taken off the buffer all the same.
  pub readline-text :
      (cr : Bool) (text rest : Bytes)
      → contents b ≡ text ++ (line_end cr ++ rest)
      → count_ch 10 text ≡ 0
      → (cr ≡ true) ⊎ EndsPlain text
      → IsValid (rwbuf_readline b max eof addnul).1
        × (contents (rwbuf_readline b max eof addnul).1 ≡ rest)
        × ((rwbuf_readline b max eof addnul).0 ≡ (
            if not (max == 0) && ltb max (length text)
            then too_long
            else line (length text + length (line_end cr)) text))
  readline-text true text rest whole once plain =
      let a = text ++ (13 ∷ []) in
      let none_in : count_ch 10 a ≡ 0 =
        omega (arith, count_ch-append 10 text (13 ∷ []), once, cr_lf) in
      let t =
        readline-Took a rest (whole ∙ sym (append_assoc text (13 ∷ []) (10 ∷ rest))) none_in in
      let size : length a + 1 ≡ length text + 2 = omega (arith, length-append text (13 ∷ [])) in
      (
        t.valid,
        t.left,
        t.result
            ∙ ap
                (λ s.
                  if not (max == 0) && ltb max (length s) then too_long else line (length a + 1) s)
                (strip_cr-append text)
            ∙ ap (λ n. if not (max == 0) && ltb max (length text) then too_long else line n text)
                size,
      )
  readline-text false text rest whole once (inl never) = absurd (cc)
  readline-text false text rest whole once (inr plain) =
      let t = readline-Took text rest whole once in
      (
        t.valid,
        t.left,
        t.result
            ∙ ap
                (λ s.
                  if not (max == 0) && ltb max (length s)
                  then too_long
                  else line (length text + 1) s)
                (strip_cr-EndsPlain text plain),
      )

  choose :
      {A : Type 0} {p q e : Bool} (x y z : A)
      → p ≡ false
      → q ≡ e
      → (if p then x else if q then y else z) ≡ (if e then y else z)
  choose x y z f g = simp (f, g)

  abbrev too_many : Bool
  too_many = not (max == 0) && ltb max (length (contents b))

  few : too_many ≡ false → (max ≡ 0) ⊎ (length (contents b) ≤ max)
  few h = ground arith

  -- the three ends of `rwbuf_readline` where no LF is there
  partial :
      count_ch 10 (contents b) ≡ 0
      → (max ≢ 0 → max < length (contents b) → rwbuf_readline b max eof addnul ≡ (too_long, b))
        × ((max ≡ 0) ⊎ (length (contents b) ≤ max)
            → eof ≡ true
            → ((rwbuf_readline b max eof addnul).0 ≡ line (length (contents b)) (contents b))
              × (contents (rwbuf_readline b max eof addnul).1 ≡ []))
        × ((max ≡ 0) ⊎ (length (contents b) ≤ max)
            → eof ≡ false
            → ((rwbuf_readline b max eof addnul).0 ≡ incomplete)
              × Keeps b (rwbuf_readline b max eof addnul).1)
  unfolding rwbuf_readline
  partial none_there =
      let missing : find_ch 10 (unread b) ≡ none =
        ap (find_ch 10) (unread-contents v) ∙ find_ch-eq-none 10 (contents b) none_there in
      let size = length-contents v ∙ sym (used-eq v) in
      let text = unread-contents v in
      rw (missing, rwbuf_readline)
        (
          λ ne big.
              (let long : (not (max == 0) && ltb max (used b)) ≡ true = ground arith in rw long),
          λ small at_end.
              (let short : (not (max == 0) && ltb max (used b)) ≡ false = ground arith in
                rw (short, at_end) (rw (size, text), refl)),
          λ small more.
              (let short : (not (max == 0) && ltb max (used b)) ≡ false = ground arith in
                rw (short, more) (refl, shift_down-Keeps v)),
        )

  -- On a valid buffer with no LF among the unread bytes `rwbuf_readline` refuses more bytes than
  -- `max`, where that is not 0, and they stay; at the end of the input it returns them as the last
  -- line and the buffer is empty; otherwise the line is incomplete and they stay.
  pub readline-partial :
      count_ch 10 (contents b) ≡ 0
      → ((rwbuf_readline b max eof addnul).0 ≡ (
          if too_many
          then too_long
          else if eof
          then line (length (contents b)) (contents b)
          else incomplete))
        × (contents (rwbuf_readline b max eof addnul).1
            ≡ (if too_many then contents b else if eof then [] else contents b))
  readline-partial none_there =
      let (long, whole, short) = partial none_there in
      elim (Bool-cases too_many) [
        | inl big ↦ let e = long (ground arith) (ground arith) in simp (big, e) (refl, refl)
        | inr good ↦
            let small : (max ≡ 0) ⊎ (length (contents b) ≤ max) = few good in
            elim (Bool-cases eof) [
              | inl at_end ↦
                  let r = whole small at_end in
                  (r.0 ∙ sym (choose _ _ _ good at_end), r.1 ∙ sym (choose _ _ _ good at_end))
              | inr more ↦
                  let r = short small more in
                  (r.0 ∙ sym (choose _ _ _ good more), r.1.same ∙ sym (choose _ _ _ good more))
            ]
      ]
