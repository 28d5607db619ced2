-- ===== src/Rwbuf.antt =====
-- src/rwbuf.h and src/rwbuf.c: the read/write buffer.
-- `data` is the buffer's memory and has `size` bytes. Fresh memory of `realloc` is filled with 0,
-- since no routine reads a byte that has not been written. Whether `realloc` of so many bytes
-- succeeds is the argument `grant`. A pointer into the buffer is its offset.
pub mod Valid
pub mod Space
pub mod Queue
pub mod Lines
use c_db_k8s.Prelude.{
  ℕ, ◌+◌, ◌-◌, ◌*◌, ◌%◌, ◌^◌, Bool, true, false, not, ◌&&◌, ◌||◌, Option, none, some, List, [], ◌∷◌,
  ◌++◌, Bytes, ltb, leb, ◌==◌, if◌then◌else◌, length, take, drop, replicate, write_at, range,
}
use c_db_k8s.Str.Slice.{find_ch}

-- a `size_t`
abbrev pub w64 : ℕ
w64 = 2 ^ 64

abbrev pub add64 : ℕ → ℕ → ℕ
add64 a b = (a + b) % w64

abbrev pub sub64 : ℕ → ℕ → ℕ
sub64 a b = (a + w64 - b) % w64

-- `ALIGN_UP(n, 128)`
abbrev pub align_up : ℕ → ℕ
align_up n = add64 n 127 - add64 n 127 % 128

pub record Rwbuf : Type 0 where
  pub memory : Bytes
  pub max_size : ℕ
  pub size : ℕ
  pub ridx : ℕ
  pub widx : ℕ
  pub is_malloc : Bool
  pub is_grow : Bool

abbrev pub used : Rwbuf → ℕ
used b = sub64 b.widx b.ridx

abbrev pub space : Rwbuf → ℕ
space b = sub64 b.size b.widx

-- `RWBUF_INIT`
unfoldable pub static_buf : Bytes → Rwbuf
static_buf mem = record {
  memory = mem;
  max_size = length mem;
  size = length mem;
  ridx = 0;
  widx = 0;
  is_malloc = false;
  is_grow = false;
}

-- `memmove` of the unread bytes to the start
unfoldable pub shift_down : Rwbuf → Rwbuf
shift_down b =
    if ltb 0 b.ridx
    then record b {
      memory = write_at 0 (take (used b) (drop b.ridx b.memory)) b.memory;
      ridx = 0;
      widx = used b;
    }
    else b

-- the size that the code asks `realloc` for
unfoldable pub new_size : Rwbuf → ℕ → ℕ
new_size b need =
    let double = b.size * 2 % w64 in
    let least = add64 b.widx need in align_up (if ltb double least then least else double)

-- the code under `if (space < need)`; the first component tells success
unfoldable pub grow : (ℕ → Bool) → Rwbuf → ℕ → Bool × Rwbuf
grow grant b need =
    let n = new_size b need in
    if not b.is_grow
    then (false, b)
    else if not (b.max_size == 0) && ltb b.max_size n
    then (false, b)
    else if not (grant n)
    then (false, b)
    else (
      true,
      record b { memory = take n b.memory ++ replicate (n - length b.memory) 0; size = n },
    )

-- Success returns the offset of the space, which is `widx`.
unfoldable pub rwbuf_mkspace : (ℕ → Bool) → Rwbuf → ℕ → Bool × Rwbuf
rwbuf_mkspace grant b need =
    let c = shift_down b in
    if leb need (space b)
    then (true, b)
    else if ltb (space c) need
    then grow grant c need
    else (true, c)

-- `memcpy` to the space and the advance of `widx`
abbrev pub put : Rwbuf → Bytes → Rwbuf
put b mem = record b { memory = write_at b.widx mem b.memory; widx = add64 b.widx (length mem) }

-- `data` is null until memory is allocated, so that a buffer of size 0 gives no pointer to its space
unfoldable pub has_data : Rwbuf → Bool
has_data b = ltb 0 b.size

unfoldable pub rwbuf_write : (ℕ → Bool) → Rwbuf → Bytes → Bool × Rwbuf
unfolding rwbuf_mkspace has_data
rwbuf_write grant b mem =
    let r = rwbuf_mkspace grant b (length mem) in
    if r.0 && has_data r.1 then (true, put r.1 mem) else (false, r.1)

unfoldable pub iovs_len : List Bytes → ℕ
iovs_len [] = 0
iovs_len (v ∷ iovs) = add64 (length v) (iovs_len iovs)

-- the loop of `mempcpy` calls, each from where the one before it ended
unfoldable pub copy_all : ℕ → List Bytes → Bytes → Bytes
copy_all at [] memory = memory
copy_all at (v ∷ iovs) memory = copy_all (at + length v) iovs (write_at at v memory)

unfoldable pub rwbuf_writev : (ℕ → Bool) → Rwbuf → List Bytes → Bool × Rwbuf
unfolding rwbuf_mkspace has_data iovs_len copy_all
rwbuf_writev grant b iovs =
    let r = rwbuf_mkspace grant b (iovs_len iovs) in
    if r.0 && has_data r.1
    then (
      true,
      record (r.1) {
        memory = copy_all (r.1).widx iovs (r.1).memory;
        widx = add64 (r.1).widx (iovs_len iovs);
      },
    )
    else (false, r.1)

unfoldable pub rwbuf_rdinc : Rwbuf → ℕ → Bool × Rwbuf
rwbuf_rdinc b len =
    let r = add64 b.ridx len in
    if ltb b.size r
    then (false, b)
    else (true, if r == b.widx then record b { ridx = 0; widx = 0 } else record b { ridx = r })

unfoldable pub rwbuf_init : (ℕ → Bool) → ℕ → ℕ → Bool × Rwbuf
unfolding rwbuf_mkspace
rwbuf_init grant init_size max_size =
    let b : Rwbuf = record {
      memory = [];
      max_size = max_size;
      size = 0;
      ridx = 0;
      widx = 0;
      is_malloc = true;
      is_grow = true;
    } in
    if init_size == 0 then (true, b) else rwbuf_mkspace grant b init_size

-- The memory of a static buffer stays with its owner.
unfoldable pub rwbuf_deinit : Rwbuf → Rwbuf
rwbuf_deinit b = record b {
  memory = if b.is_malloc then [] else b.memory;
  size = 0;
  ridx = 0;
  widx = 0;
}

-- The results of `rwbuf_readline`: `llen` bytes consumed with the line, incomplete, or too long.
pub data Line : Type 0 where
  line : (llen : ℕ) → Bytes → Line
  incomplete : Line
  too_long : Line

-- the CR before the LF that ends a line
unfoldable pub strip_cr : Bytes → Bytes
strip_cr [] = []
strip_cr (c ∷ []) = if c == 13 then [] else c ∷ []
strip_cr (c ∷ d ∷ s) = c ∷ strip_cr (d ∷ s)

-- the bytes that have not been read
abbrev pub unread : Rwbuf → Bytes
unread b = take (used b) (drop b.ridx b.memory)

-- the empty buffer, where all has been read
abbrev pub consume : Rwbuf → ℕ → Rwbuf
consume b llen =
    let r = add64 b.ridx llen in
    if r == b.widx then record b { ridx = 0; widx = 0 } else record b { ridx = r }

-- `eof` and `addnul` are the flags `RWBUF_EOF` and `RWBUF_ADDNUL`; `RWBUF_NOLOG` only chooses
-- whether an error is logged. The line is what it holds when the routine returns.
unfoldable pub rwbuf_readline : Rwbuf → (max : ℕ) → (eof addnul : Bool) → Line × Rwbuf
rwbuf_readline b max eof addnul = elim (find_ch 10 (unread b)) [
  | some (a, rest) ↦
      let text = strip_cr a in
      let c = consume b (length a + 1) in
      let d =
        if addnul
        then record c { memory = write_at (b.ridx + length text) (0 ∷ []) c.memory }
        else c in
      if not (max == 0) && ltb max (length text)
      then (too_long, d)
      else (line (length a + 1) text, d)
  | none ↦
      if not (max == 0) && ltb max (used b)
      then (too_long, b)
      else if eof
      then (line (used b) (unread b), record b { ridx = 0; widx = 0 })
      else (incomplete, shift_down b)
]
