-- ===== src/Db/Relink.antt =====
-- One write of a link, in the bucket or in a record, and the chain it leaves.
use c_db_k8s.Prelude.{
  ℕ, ◌≡◌, ◌≢◌, refl, sym, ap, ◌∙◌, true, false, Option, some, List, [], ◌∷◌, ◌++◌, append_assoc,
  ◌==◌, arith, ok,
}
use c_db_k8s.Db.{Rec, Db, Loc, bucket, next_of, set_link, update}
use c_db_k8s.Db.Chain.{Cell, has, All, rec_of, Chain, cons, frame, has-append}
use c_db_k8s.Db.Walk.{loc_after, deref-some}

-- no cell of `ys` is a cell of `ws`
abbrev pub Apart : List Cell → List Cell → Type 0
Apart ys ws = All (λ c. has c.at ws ≡ false) ys

record Holds (recs : ℕ → Option Rec) (d : Cell) : Type 0 where
  next : ℕ
  flags : ℕ
  holds : recs d.at ≡ some (rec_of d next flags)

Chain-at :
    {recs : ℕ → Option Rec} {p : ℕ} (ys : List Cell) (d : Cell) (xs : List Cell)
    → Chain recs p (ys ++ (d ∷ xs))
    → Holds recs d
Chain-at {recs} [] d xs (cons {next} {flags} ne at here out ch) = record {
  next = next;
  flags = flags;
  holds = ap recs (sym at) ∙ here;
}
Chain-at (c ∷ ys) d xs (cons ne at here out ch) = Chain-at ys d xs ch

relink :
    {recs : ℕ → Option Rec} {p : ℕ} (ys : List Cell) (d : Cell) (xs ws : List Cell) (v flags : ℕ)
    → Chain recs p (ys ++ (d ∷ xs))
    → Chain recs v ws
    → Apart (ys ++ (d ∷ [])) ws
    → Chain (update recs d.at (some (rec_of d v flags))) p (ys ++ (d ∷ ws))
relink [] d xs ws v flags (cons {p} ne at here out ch) new apart =
    cons {next = v} {flags = flags} ne at (ground arith) (ground (arith, apart.0))
      (frame new λ a i. ground (arith, apart.0))
relink (c ∷ ys) d xs ws v flags (cons {p} {next = n} {flags = f} ne at here out ch) new apart =
    cons {next = n} {flags = f} ne at (ground (arith, has-append p ys (d ∷ xs)))
      (ground (arith, has-append p ys (d ∷ xs), has-append p ys (d ∷ ws), apart.0))
      (relink ys d xs ws v flags ch new apart.1)

pub record Relinked (db : Db) (i : ℕ) (ys ws : List Cell) (db' : Db) : Type 0 where
  pub chain : Chain db'.recs (db'.buckets i) (ys ++ ws)
  pub others : (j : ℕ) → j ≢ i → db'.buckets j ≡ db.buckets j
  pub same : (a : ℕ) → has a ys ≡ false → db'.recs a ≡ db.recs a
  pub file_same : db'.file ≡ db.file
  pub size_same : db'.size ≡ db.size
  pub hdr_same : db'.hdr ≡ db.hdr

-- a list seen from its end
data Snoc : List Cell → Type 0 where
  empty : Snoc []
  last : (zs : List Cell) (d : Cell) → Snoc (zs ++ (d ∷ []))

Snoc-cons : (c : Cell) {ys : List Cell} → Snoc ys → Snoc (c ∷ ys)
Snoc-cons c empty = last [] c
Snoc-cons c (last zs d) = last (c ∷ zs) d

Snoc-view : (ys : List Cell) → Snoc ys
Snoc-view [] = empty
Snoc-view (c ∷ ys) = Snoc-cons c (Snoc-view ys)

loc_after-snoc :
    (pp : Loc) (zs : List Cell) (d : Cell) → loc_after pp (zs ++ (d ∷ [])) ≡ next_of d.at
loc_after-snoc pp [] d = refl
loc_after-snoc pp (c ∷ zs) d = loc_after-snoc (next_of c.at) zs d

module _ (db : Db) (i v : ℕ) (ws : List Cell) where
  relink_snoc :
      (zs : List Cell) (d : Cell) (xs : List Cell)
      → Chain db.recs (db.buckets i) (zs ++ (d ∷ xs))
      → Chain db.recs v ws
      → Apart (zs ++ (d ∷ [])) ws
      → (db' : Db) × (set_link db (next_of d.at) v ≡ ok db') × Relinked db i (zs ++ (d ∷ [])) ws db'
  unfolding set_link
  relink_snoc zs d xs ch new apart =
      let h = Chain-at zs d xs ch in
      (
        record db { recs = update db.recs d.at (some (rec_of d v h.flags)) },
        rw (deref-some db d.at h.holds),
        record {
          chain = rw (append_assoc zs (d ∷ []) ws) (relink zs d xs ws v h.flags ch new apart);
          others = λ j ne. refl;
          same = λ a out. ground (arith, has-append a zs (d ∷ []));
          file_same = refl;
          size_same = refl;
          hdr_same = refl;
        },
      )

  relink_view :
      {ys : List Cell} (xs : List Cell)
      → Snoc ys
      → Chain db.recs (db.buckets i) (ys ++ xs)
      → Chain db.recs v ws
      → Apart ys ws
      → (db' : Db) × (set_link db (loc_after (bucket i) ys) v ≡ ok db') × Relinked db i ys ws db'
  relink_view xs empty ch new apart = (
    record db { buckets = update db.buckets i v },
    unfold set_link in refl,
    record {
      chain = frame_bucket;
      others = λ j ne. ground arith;
      same = λ a out. refl;
      file_same = refl;
      size_same = refl;
      hdr_same = refl;
    },
  )
    where
      frame_bucket : Chain db.recs (update db.buckets i v i) ws
      frame_bucket = let e : (i == i) ≡ true = ground arith in rw e new
  relink_view xs (last zs d) ch new apart =
      rw (loc_after-snoc (bucket i) zs d)
        (relink_snoc zs d xs (rw (append_assoc zs (d ∷ []) xs) at ch) new apart)

  -- The write behind the cells `ys` makes `ws` follow them, and changes nothing else of note.
  pub set_link-Relinked :
      (ys xs : List Cell)
      → Chain db.recs (db.buckets i) (ys ++ xs)
      → Chain db.recs v ws
      → Apart ys ws
      → (db' : Db) × (set_link db (loc_after (bucket i) ys) v ≡ ok db') × Relinked db i ys ws db'
  set_link-Relinked ys xs ch new apart = relink_view xs (Snoc-view ys) ch new apart
