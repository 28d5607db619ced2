-- ===== src/Dns/Name/Total.antt =====
-- `decode_name` of src/dns_proto.c on every packet: its accesses, its end and what it writes.
use c_db_k8s.Prelude.{
  ℕ, zero, suc, ◌+◌, ◌-◌, ◌*◌, ◌%◌, ◌^◌, ◌<◌, ◌≤◌, ◌≡◌, refl, inl, inr, false, [], ◌∷◌, ◌++◌, Bytes,
  ltb, leb, ◌==◌, ◌||◌, length, range, length-append, length-range, Run, ok, ◌>>=◌, if◌then◌else◌,
  ◌≢◌, Bool-cases, arith,
}
use c_db_k8s.Dns.{byte_at}
use c_db_k8s.Dns.Name.{
  NameState, Decoded, named, bad, Round, more, ended, name_jump, name_label, name_copied,
  name_round, name_loop, decode_name, label_follows, put_bytes, size_minus,
}

-- a byte inside the packet can be read
pub byte_at-ok : (pkt : Bytes) (i : ℕ) → i < length pkt → (b : ℕ) × (byte_at pkt i ≡ ok b)
byte_at-ok [] i h = absurd (omega arith)
byte_at-ok (b ∷ pkt) zero h = (b, refl)
byte_at-ok (b ∷ pkt) (suc i) h = byte_at-ok pkt i (omega arith)

-- what has been written, with the NUL
abbrev pub written : Decoded → ℕ
written (named name) = length name + 1
written (bad ec) = 0

module _ (pkt : Bytes) (nlen : ℕ) where
  record Kept (s : NameState) : Type 0 where
    space : length s.name + s.out_len ≡ nlen
    within : s.offset ≤ length pkt
    here : s.njmp ≡ 0 → s.offset ≡ s.idx
    jumps : s.njmp ≤ 17

  -- the rounds left, but one
  abbrev left : NameState → ℕ
  left s = s.out_len + (17 - s.njmp)

  abbrev Ended : Decoded → ℕ → Type 0
  Ended d offset = (offset ≤ length pkt) × (written d ≤ nlen)

  -- a round from `s` keeps the invariant and comes nearer to the end
  data Goes (s : NameState) : Run Round → Type 0 where
    on : {t : NameState} → Kept t → left t < left s → Goes s (ok (more t))
    done : {d : Decoded} {offset : ℕ} → Ended d offset → Goes s (ok (ended d offset))

  name_jump-Goes :
      (s : NameState) (len : ℕ)
      → Kept s
      → s.idx < length pkt
      → Goes s (name_jump pkt s len (s.idx + 1))
  unfolding name_jump
  name_jump-Goes s len k h = elim (Bool-cases (s.idx + 1 == length pkt)) [
    | inl last ↦ rw last (done (k.within, omega arith))
    | inr inside ↦ rw inside (elim (Bool-cases (ltb 16 s.njmp)) [
      | inl many ↦ rw many (done (k.within, omega arith))
      | inr few ↦ rw few (
          let (low, read) = byte_at-ok pkt (s.idx + 1) (ground arith) in
          let target = len % 64 * 2 ^ 8 + low in
          rw read (elim (Bool-cases (ltb target 12 || ltb (length pkt) target)) [
            | inl out ↦ rw out (done (landed few inside, omega arith))
            | inr at ↦ rw at (on (jumped target few (landed few inside)) (ground (arith, k.jumps)))
          ]))
    ])
  ]
    where
      moved : ℕ
      moved = if s.njmp == 0 then s.offset + 2 else s.offset

      landed : ltb 16 s.njmp ≡ false → (s.idx + 1 == length pkt) ≡ false → moved ≤ length pkt
      landed few inside = ground (arith, k.within, k.here)

      jumped :
          (target : ℕ)
          → ltb 16 s.njmp ≡ false
          → moved ≤ length pkt
          → Kept (record s { idx = target; njmp = s.njmp + 1; offset = moved })
      jumped target few le = record {
        space = k.space;
        within = le;
        here = λ z. absurd (omega (arith, z));
        jumps = ground arith;
      }

  name_copied-Goes :
      (s : NameState) (len offset : ℕ)
      → Kept s
      → len ≢ 0
      → len ≤ s.out_len
      → s.idx + 1 + len ≤ length pkt
      → offset ≤ length pkt
      → (s.njmp ≡ 0 → offset ≡ s.idx + 1 + len)
      → Goes s (name_copied nlen pkt s len (s.idx + 1) offset)
  unfolding name_copied put_bytes size_minus
  name_copied-Goes s len offset k ne le inside within here =
      rw (fits, exact)
        (elim (Bool-cases (s.out_len - len == 0)) [
          | inl full ↦ rw full (done (within, omega arith))
          | inr room ↦ rw room (elim (Bool-cases (label_follows pkt (s.idx + 1 + len))) [
            | inl dot ↦
                let dot_fits : ltb nlen (length longer + 1) ≡ false =
                  ground (arith, k.space, grown) in
                rw (dot, dot_fits)
                  (on
                    (record {
                      space = ground (arith, k.space, grown, length-append longer (b'.' ∷ []));
                      within = within;
                      here = here;
                      jumps = k.jumps;
                    })
                    (ground arith))
            | inr none_left ↦ rw none_left (
                on
                  (record {
                    space = ground (arith, k.space, grown);
                    within = within;
                    here = here;
                    jumps = k.jumps;
                  })
                  (ground arith))
          ])
        ])
    where
      longer : Bytes
      longer = s.name ++ range (s.idx + 1) (s.idx + 1 + len) pkt

      grown : length longer ≡ length s.name + len
      grown = omega (
        arith,
        length-append s.name (range (s.idx + 1) (s.idx + 1 + len) pkt),
        length-range (s.idx + 1) (s.idx + 1 + len) pkt (omega arith) inside,
      )

      fits : ltb nlen (length s.name + length (range (s.idx + 1) (s.idx + 1 + len) pkt)) ≡ false
      fits =
          ground
            (arith, k.space, length-range (s.idx + 1) (s.idx + 1 + len) pkt (omega arith) inside)

      exact : ltb s.out_len len ≡ false
      exact = ground arith

  name_label-Goes :
      (s : NameState) (len : ℕ)
      → Kept s
      → s.idx < length pkt
      → Goes s (name_label nlen pkt s len (s.idx + 1))
  unfolding name_label put_bytes
  name_label-Goes s len k h = elim (Bool-cases (ltb (length pkt - (s.idx + 1)) len)) [
    | inl long ↦ rw long (done (k.within, omega arith))
    | inr fits ↦ rw fits (elim (Bool-cases (ltb s.out_len len)) [
      | inl big ↦ rw big (done (k.within, omega arith))
      | inr small ↦ rw small (elim (Bool-cases (len == 0)) [
        | inl root ↦ rw root (elim (Bool-cases (s.out_len == 0)) [
          | inl full ↦ rw full (done (moves fits, omega arith))
          | inr room ↦
              let nul_fits : ltb nlen (length s.name + 1) ≡ false = ground (arith, k.space) in
              rw (room, nul_fits) (done (moves fits, ground (arith, k.space)))
        ])
        | inr label ↦ rw label (
            rw (small, name_copied) at
              (name_copied-Goes s len moved k (ground arith) (ground arith) (ground arith)
                (moves fits) (λ z. ground (arith, k.here z))))
      ])
    ])
  ]
    where
      moved : ℕ
      moved = if s.njmp == 0 then s.offset + (1 + len) else s.offset

      moves : ltb (length pkt - (s.idx + 1)) len ≡ false → moved ≤ length pkt
      moves fits = ground (arith, k.within, k.here)

  name_round-Goes : (s : NameState) → Kept s → Goes s (name_round nlen pkt s)
  unfolding name_round
  name_round-Goes s k = elim (Bool-cases (leb (length pkt) s.idx)) [
    | inl out ↦ rw out (done (k.within, omega arith))
    | inr inside ↦ rw inside (
        let (len, read) = byte_at-ok pkt s.idx (ground arith) in
        rw read (elim (Bool-cases (leb 0xc0 len)) [
          | inl pointer ↦ rw pointer (name_jump-Goes s len k (ground arith))
          | inr label ↦ rw label (name_label-Goes s len k (ground arith))
        ]))
  ]

  Result : Run (Decoded × ℕ) → Type 0
  Result r = (d : Decoded) × (offset : ℕ) × (r ≡ ok (d, offset)) × Ended d offset

  name_loop-Result :
      (rounds : ℕ) (s : NameState) → Kept s → left s < rounds → Result (name_loop rounds nlen pkt s)
  unfolding name_loop Result
  name_loop-Result zero s k h = absurd (omega arith)
  name_loop-Result (suc rounds) s k h =
      continue (name_round nlen pkt s) (name_round-Goes s k)
        (λ t kept less. name_loop-Result rounds t kept (omega arith))
    where
      continue :
          (r : Run Round)
          → Goes s r
          → ((t : NameState) → Kept t → left t < left s → Result (name_loop rounds nlen pkt t))
          → Result (
              r >>= λ e. elim e [
                | more t ↦ name_loop rounds nlen pkt t
                | ended d offset ↦ ok (d, offset)
              ])
      continue r (on {t} kept less) next = next t kept less
      continue r (done {d} {offset} e) next = (d, offset, refl, e)

pub decode_name-total :
    (pkt : Bytes) (offset nlen : ℕ)
    → offset ≤ length pkt
    → (d : Decoded) × (end : ℕ) × (decode_name pkt offset nlen ≡ ok (d, end))
      × (end ≤ length pkt)
      × (written d ≤ nlen)
unfolding decode_name Result
decode_name-total pkt offset nlen h =
    let start : Kept pkt nlen
        (record { idx = offset; njmp = 0; offset = offset; out_len = nlen; name = [] }) =
      record { space = omega arith; within = h; here = λ z. refl; jumps = omega arith } in
    let (d, end, e, inside) = name_loop-Result pkt nlen (nlen + 19) _ start (omega arith) in
    (d, end, e, inside.0, inside.1)
