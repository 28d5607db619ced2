-- ===== src/Resolv/Config/Loops.antt =====
-- The loops over an entry of resolv.conf in src/dns_resolv.c.
use c_db_k8s.Prelude.{
  ℕ, zero, suc, ◌+◌, ◌-◌, ◌<◌, ◌≤◌, ◌≡◌, ◌≢◌, refl, inl, inr, Bool, true, false, not, List, [], ◌∷◌,
  ◌++◌, Bytes, ltb, leb, ◌==◌, length, drop, length-drop, length-append, Run, ok, Bool-cases, arith,
}
use c_db_k8s.Str.Chars.{str_tolower}
use c_db_k8s.Str.Slice.{
  Slice, null, str, bytes, len, member, scan_until, slice_splitset, slice_splitch,
}
use c_db_k8s.Resolv.Config.{
  DnsConfig, CfgOption, opt_ndots, opt_timeout, opt_attempts, opt_usevc, opt_none, str_toopt,
  set_option, options_loop, search_loop, blanks,
}

-- the bytes that names take with their NULs
abbrev pub space_of : List Bytes → ℕ
space_of [] = 0
space_of (s ∷ names) = length s + 1 + space_of names

-- a configuration within its arrays, whose store holds the names of its search list
pub record IsConfig (c : DnsConfig) : Type 0 where
  pub servers : length c.ns_addrs ≤ 3
  pub names : length c.search ≤ 8
  pub room : c.store_len ≤ 256
  pub used : c.store_len ≡ space_of c.search

-- a loop ends with a configuration for which `P` holds
abbrev pub Loads : (DnsConfig → Type 0) → Run DnsConfig → Type 0
Loads P r = (c : DnsConfig) × (r ≡ ok c) × P c

scan_until-stops :
    (inside : Bool) (c : ℕ) (s set : Bytes)
    → member c set ≡ inside
    → scan_until inside set (c ∷ s) ≡ []
unfolding scan_until
scan_until-stops true c s set h = rw h refl
scan_until-stops false c s set h = rw h refl

scan_until-takes :
    (inside : Bool) (c : ℕ) (s set : Bytes)
    → member c set ≡ not inside
    → scan_until inside set (c ∷ s) ≡ c ∷ scan_until inside set s
unfolding scan_until
scan_until-takes true c s set h = rw h refl
scan_until-takes false c s set h = rw h refl

-- a token takes a byte at least, with the blanks behind it
slice_splitset-shorter :
    (s : Slice) (set : Bytes) → len s ≢ 0 → len (slice_splitset s set).1 < len s
unfolding slice_splitset
slice_splitset-shorter null set ne = absurd (ne refl)
slice_splitset-shorter (str []) set ne = absurd (ne refl)
slice_splitset-shorter (str (c ∷ s)) set ne = elim (Bool-cases (member c set)) [
  | inl blank ↦
      rw (scan_until-stops true c s set blank, scan_until-takes false c s set blank)
        (omega (arith, length-drop (length (scan_until false set s)) s))
  | inr text ↦ rw (scan_until-takes true c s set text) (
      let rest = drop (length (scan_until true set s)) s in
      omega (
        arith,
        length-drop (length (scan_until true set s)) s,
        length-drop (length (scan_until false set rest)) rest,
      ))
]

space_of-append :
    (names : List Bytes) (s : Bytes)
    → space_of (names ++ (s ∷ [])) ≡ space_of names + (length s + 1)
space_of-append [] s = omega arith
space_of-append (x ∷ names) s = omega (arith, space_of-append names s)

length-str_tolower : (s : Bytes) → length (str_tolower s) ≡ length s
unfolding str_tolower
length-str_tolower [] = refl
length-str_tolower (c ∷ s) = omega (arith, length-str_tolower s)

set_option-IsConfig :
    (c : DnsConfig) (o : CfgOption) (val : Slice) → IsConfig c → IsConfig (set_option c o val)
unfolding set_option
set_option-IsConfig c opt_ndots val v = record {
  servers = v.servers;
  names = v.names;
  room = v.room;
  used = v.used;
}
set_option-IsConfig c opt_timeout val v = record {
  servers = v.servers;
  names = v.names;
  room = v.room;
  used = v.used;
}
set_option-IsConfig c opt_attempts val v = record {
  servers = v.servers;
  names = v.names;
  room = v.room;
  used = v.used;
}
set_option-IsConfig c opt_usevc val v = record {
  servers = v.servers;
  names = v.names;
  room = v.room;
  used = v.used;
}
set_option-IsConfig c opt_none val v = v

pub options_loop-Loads :
    (rounds : ℕ) (c : DnsConfig) (s : Slice)
    → len s ≤ rounds
    → IsConfig c
    → Loads IsConfig (options_loop rounds c s)
unfolding options_loop
options_loop-Loads zero c s h v = (c, ground arith, v)
options_loop-Loads (suc rounds) c s h v = elim (Bool-cases (len s == 0)) [
  | inl done ↦ (c, rw done refl, v)
  | inr more ↦ rw more (
      let item = slice_splitset s blanks in
      let key = slice_splitch item.0 b':' in
      options_loop-Loads rounds (set_option c (str_toopt key.0) key.1) item.1
        (omega (arith, slice_splitset-shorter s blanks (ground arith)))
        (set_option-IsConfig c (str_toopt key.0) key.1 v))
]

pub search_loop-Loads :
    (rounds : ℕ) (c : DnsConfig) (s : Slice)
    → len s ≤ rounds
    → IsConfig c
    → Loads IsConfig (search_loop rounds c s)
unfolding search_loop
search_loop-Loads zero c s h v = (c, ground arith, v)
search_loop-Loads (suc rounds) c s h v = elim (Bool-cases (len s == 0)) [
  | inl done ↦ (c, rw done refl, v)
  | inr more ↦ rw more (elim (Bool-cases (leb 8 (length c.search))) [
    | inl full ↦ (c, rw full refl, v)
    | inr free ↦ rw free (
        let item = slice_splitset s blanks in
        let name = str_tolower (bytes item.0) in
        elim (Bool-cases (ltb (256 - c.store_len) (len item.0 + 1))) [
          | inl big ↦ (c, rw big refl, v)
          | inr fits ↦ rw fits (
              search_loop-Loads rounds
                (record c {
                  store_len = c.store_len + (len item.0 + 1);
                  search = c.search ++ (name ∷ []);
                })
                item.1 (omega (arith, slice_splitset-shorter s blanks (ground arith)))
                (record {
                  servers = v.servers;
                  names = ground (arith, length-append c.search (name ∷ []));
                  room = ground (arith, v.room);
                  used = omega (
                    arith,
                    v.used,
                    space_of-append c.search name,
                    length-str_tolower (bytes item.0),
                  );
                }))
        ])
  ])
]
