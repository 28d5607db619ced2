-- ===== src/Tests/Buffers.antt =====
-- The buffer theorems at a buffer of 8 bytes with 3 unread ones.
use mathlib.Core.List.{flatten}
use c_db_k8s.Prelude.{inr, ℕ, ◌≡◌, refl, [], ◌∷◌, Bool, true, false, leb, arith}
use c_db_k8s.Str.Slice.Split.{count_ch}
use c_db_k8s.Rwbuf.{Rwbuf, rwbuf_mkspace, rwbuf_write, rwbuf_writev, rwbuf_readline, line}
use c_db_k8s.Rwbuf.Valid.{IsValid, contents, Grants}
use c_db_k8s.Rwbuf.Space.{Reserved, mkspace-Reserved}
use c_db_k8s.Rwbuf.Queue.{Appends, rwbuf_write-Appends, rwbuf_writev-flatten}
use c_db_k8s.Rwbuf.Lines.{readline-text, readline-partial}

-- "ab", LF and "c", of which "a" has been read
abbrev pub some_lines : Rwbuf
some_lines = record {
  memory = 97 ∷ 98 ∷ 10 ∷ 99 ∷ 0 ∷ 0 ∷ 0 ∷ 0 ∷ [];
  max_size = 8;
  size = 8;
  ridx = 1;
  widx = 4;
  is_malloc = false;
  is_grow = false;
}

-- the same where all but "c" has been read
abbrev rest_line : Rwbuf
rest_line = record some_lines { ridx = 3 }

pub some_lines-IsValid : IsValid some_lines
some_lines-IsValid = record {
  memory_size = refl;
  read_le = omega arith;
  write_le = omega arith;
  small = omega arith;
  max_small = omega arith;
  bounded = λ _. omega arith;
}

rest_line-IsValid : IsValid rest_line
rest_line-IsValid = record {
  memory_size = refl;
  read_le = omega arith;
  write_le = omega arith;
  small = omega arith;
  max_small = omega arith;
  bounded = λ _. omega arith;
}

-- an allocator that gives up to 4096 bytes
abbrev pub grants : ℕ → Bool
grants n = leb n 4096

pub grants-Grants : Grants grants
grants-Grants n e = ground arith

rwbuf_write-Appends_example :
    Appends some_lines (120 ∷ []) (rwbuf_write grants some_lines (120 ∷ []))
rwbuf_write-Appends_example =
    rwbuf_write-Appends grants some_lines (120 ∷ []) grants-Grants some_lines-IsValid (omega arith)

rwbuf_writev-flatten_example :
    rwbuf_writev grants some_lines ((120 ∷ []) ∷ (121 ∷ 122 ∷ []) ∷ [])
    ≡ rwbuf_write grants some_lines (120 ∷ 121 ∷ 122 ∷ [])
unfolding flatten
rwbuf_writev-flatten_example =
    rwbuf_writev-flatten grants some_lines ((120 ∷ []) ∷ (121 ∷ 122 ∷ []) ∷ []) grants-Grants
      some_lines-IsValid (omega arith)

mkspace-Reserved_example : Reserved some_lines 5 (rwbuf_mkspace grants some_lines 5)
mkspace-Reserved_example =
    mkspace-Reserved grants some_lines 5 grants-Grants some_lines-IsValid (omega arith)

readline-text_example :
    IsValid (rwbuf_readline some_lines 80 false false).1
    × (contents (rwbuf_readline some_lines 80 false false).1 ≡ 99 ∷ [])
    × ((rwbuf_readline some_lines 80 false false).0 ≡ line 2 (98 ∷ []))
unfolding count_ch
readline-text_example =
    readline-text some_lines 80 false false some_lines-IsValid false (98 ∷ []) (99 ∷ []) refl refl
      (inr refl)

readline-partial_example :
    ((rwbuf_readline rest_line 80 true false).0 ≡ line 1 (99 ∷ []))
    × (contents (rwbuf_readline rest_line 80 true false).1 ≡ [])
unfolding count_ch
readline-partial_example = readline-partial rest_line 80 true false rest_line-IsValid refl
