-- ===== src/Db/Delete.antt =====
-- `hash_del` and `db_del` of src/db.c against the map of a store.
use c_db_k8s.Prelude.{
  ℕ, ◌+◌, ◌<◌, ◌≡◌, ◌≢◌, refl, sym, ap, ◌∙◌, inl, inr, Bool, true, false, Option, none, some, List,
  [], ◌∷◌, ◌++◌, Bytes, ◌==◌, if◌then◌else◌, arith, ok, Bool-cases, subst,
}
use c_db_k8s.Str.Slice.{Slice, bytes}
use c_db_k8s.Db.{Rec, Db, bucket, calc_hash, update, del_rec}
use c_db_k8s.Db.Loops.{unchain, hash_del, db_del}
use c_db_k8s.Db.Chain.{
  Cell, has, All, rec_of, Chain, frame, has-append, lookup, same_key, same_key_iff, Clear,
}
use c_db_k8s.Db.Walk.{cells, Misses, Stop, walk-miss, walk-hit, loc_after, get_link-bucket}
use c_db_k8s.Db.Relink.{set_link-Relinked}
use c_db_k8s.Db.Store.{Layout, Home, Unique, IsStore, view}
use c_db_k8s.Db.Change.{
  Find, absent, found, Find-first, All-middle, Unique-remove, Unique-Misses, Chain-middle, Changes,
  Changes-IsStore,
}

pub cells-append : (ys zs : List Cell) → cells (ys ++ zs) ≡ cells ys + cells zs
cells-append [] zs = omega arith
cells-append (c ∷ ys) zs = omega (arith, cells-append ys zs)

pub has-not-middle :
    (a : ℕ) (ys : List Cell) (c : Cell) (zs : List Cell)
    → has a (ys ++ (c ∷ zs)) ≡ false
    → (has a (ys ++ zs) ≡ false) × (has a ys ≡ false) × (a ≢ c.at)
has-not-middle a ys c zs h = ground (arith, has-append a ys (c ∷ zs), has-append a ys zs)

del_rec-recs :
    (db : Db) (link : ℕ) (r : Rec) (a : ℕ) → a ≢ link → (del_rec db link r).recs a ≡ db.recs a
unfolding del_rec
del_rec-recs db link r a ne = ground arith

del_rec-buckets : (db : Db) (link : ℕ) (r : Rec) → (del_rec db link r).buckets ≡ db.buckets
unfolding del_rec
del_rec-buckets db link r = elim (Bool-cases db.file) [ inl e ↦ rw e | inr e ↦ rw e ]

-- a record that is off the chain is deleted
pub del_rec-Changes :
    (db : Db) (layout : Layout) (i link : ℕ) (ws : List Cell) (r : Rec) (db' : Db)
    → Changes db layout i ws db'
    → has link ws ≡ false
    → ((a : ℕ) → has a (layout i) ≡ false → a ≢ link)
    → Changes db layout i ws (del_rec db' link r)
del_rec-Changes db layout i link ws r db' ch out mem = record {
  chain =
      rw (del_rec-buckets db' link r)
        (frame ch.chain λ a there. del_rec-recs db' link r a (λ e. cc));
  others = λ j ne. rw (del_rec-buckets db' link r) (ch.others j ne);
  same = λ a off live. del_rec-recs db' link r a (mem a off) ∙ ch.same a off live;
}

-- lookups in a chain
pub lookup-Misses : (q : Bytes) (xs : List Cell) → All (Misses q) xs → lookup q xs ≡ none
unfolding lookup
lookup-Misses q [] h = refl
lookup-Misses q (c ∷ xs) h = rw h.0 (lookup-Misses q xs h.1)

pub lookup-found :
    (q : Bytes) (ys : List Cell) (c : Cell) (zs : List Cell)
    → All (Misses q) ys
    → same_key q c.key ≡ true
    → lookup q (ys ++ (c ∷ zs)) ≡ some c.val
unfolding lookup
lookup-found q [] c zs h hit = rw hit
lookup-found q (d ∷ ys) c zs h hit = rw h.0 (lookup-found q ys c zs h.1 hit)

pub lookup-middle :
    (q : Bytes) (ys : List Cell) (c : Cell) (zs : List Cell)
    → same_key q c.key ≡ false
    → lookup q (ys ++ (c ∷ zs)) ≡ lookup q (ys ++ zs)
unfolding lookup
lookup-middle q [] c zs miss = rw miss
lookup-middle q (d ∷ ys) c zs miss = ground (arith, lookup-middle q ys c zs miss)

pub All-append : (P : Cell → Type 0) (ys zs : List Cell) → All P ys → All P zs → All P (ys ++ zs)
All-append P [] zs h g = g
All-append P (c ∷ ys) zs h g = (h.0, All-append P ys zs h.1 g)

remove-lookup :
    (k : Bytes) (ys : List Cell) (c : Cell) (zs : List Cell)
    → k ≡ c.key
    → All (Misses k) (ys ++ zs)
    → (q : Bytes) → lookup q (ys ++ zs) ≡ (if same_key q k then none else lookup q (ys ++ (c ∷ zs)))
remove-lookup k ys c zs hit gone q = elim (Bool-cases (same_key q k)) [
  | inl e ↦
      rw e
        (ap (λ j. lookup j (ys ++ zs)) ((same_key_iff q k).0 e) ∙ lookup-Misses k (ys ++ zs) gone)
  | inr e ↦ rw e (sym (lookup-middle q ys c zs (ap (same_key q) (sym hit) ∙ e)))
]

-- A bucket that changes the map at one key changes the whole map at that key only.
pub view-update :
    (layout : Layout) (k : Bytes) (xs : List Cell) (w : Option Bytes)
    → ((q : Bytes) → lookup q xs ≡ (if same_key q k then w else lookup q (layout (calc_hash k))))
    → (q : Bytes)
    → view (update layout (calc_hash k) xs) q ≡ (if same_key q k then w else view layout q)
view-update layout k xs w h q = elim (Bool-cases (calc_hash q == calc_hash k)) [
  | inl e ↦
      let same : calc_hash q ≡ calc_hash k = ground arith in
      rw e (h q ∙ ap (λ n. if same_key q k then w else lookup q (layout n)) (sym same))
  | inr e ↦ elim (Bool-cases (same_key q k)) [
    | inr ne ↦ rw (e, ne)
    | inl eq ↦ absurd (ground (arith, ap calc_hash ((same_key_iff q k).0 eq)))
  ]
]

abbrev pub is_some : Option Bytes → Bool
is_some none = false
is_some (some v) = true

-- The map has lost the key, and the call has told whether it was there.
pub record Removes (layout : Layout) (k : Bytes) (out : Bool) (db' : Db) : Type 0 where
  pub after : Layout
  pub store : IsStore db' after
  pub reads : (q : Bytes) → view after q ≡ (if same_key q k then none else view layout q)
  pub reports : out ≡ is_some (view layout k)

module _ (beyond : ℕ → ℕ → ℕ) (db : Db) (layout : Layout) (k : Bytes) (s : IsStore db layout) where
  remove :
      (ys : List Cell) (c : Cell) (zs : List Cell)
      → layout (calc_hash k) ≡ ys ++ (c ∷ zs)
      → All (Misses k) ys
      → k ≡ c.key
      → (st : Stop db c zs)
      → (db' : Db) × (unchain beyond db
            (loc_after (bucket (calc_hash k)) ys)
            c.at
            (rec_of c st.next st.flags)
          ≡ ok (true, db'))
        × Removes layout k true db'
  unfolding unchain
  remove ys c zs e out hit st =
      let i = calc_hash k in
      let ch = subst (λ xs. Chain db.recs (db.buckets i) xs) e (s.chains i) in
      let homes = subst (All (Home i)) e (s.homes i) in
      let once = subst Unique e (s.unique i) in
      let (apart, off) = Chain-middle ys c zs ch in
      let (db1, set, rel) = set_link-Relinked db i st.next zs ys (c ∷ zs) ch st.rest apart in
      let parts = λ (a : ℕ) (o : has a (layout i) ≡ false). has-not-middle a ys c zs (rw e at o) in
      let first : Changes db layout i (ys ++ zs) db1 = record {
        chain = rel.chain;
        others = rel.others;
        same = λ a o _. rel.same a (parts a o).1;
      } in
      let r = rec_of c st.next st.flags in
      let change =
        del_rec-Changes db layout i c.at (ys ++ zs) r db1 first off (λ a o. (parts a o).2) in
      let gone = All-append (Misses k) ys zs out (Unique-Misses k ys c zs once hit) in
      (
        del_rec db1 c.at r,
        rw set,
        record {
          after = update layout i (ys ++ zs);
          store =
              Changes-IsStore s change (All-middle (Home i) ys c zs homes).3
                (Unique-remove ys c zs once);
          reads = view-update layout k (ys ++ zs) none λ q.
              remove-lookup k ys c zs hit gone q
              ∙ ap (λ xs. if same_key q k then none else lookup q xs) (sym e);
          reports = sym (
              ap (λ xs. is_some (lookup k xs)) e
              ∙ ap is_some (lookup-found k ys c zs out ((same_key_iff k c.key).1 hit)));
        },
      )

  keep : All (Misses k) (layout (calc_hash k)) → Removes layout k false db
  keep out = record {
    after = layout;
    store = s;
    reads = λ q. elim (Bool-cases (same_key q k)) [
      | inr e ↦ rw e
      | inl e ↦
          rw e
            (ap (view layout) ((same_key_iff q k).0 e) ∙ lookup-Misses k (layout (calc_hash k)) out)
    ];
    reports = sym (ap is_some (lookup-Misses k (layout (calc_hash k)) out));
  }

  delete_view :
      (rounds : ℕ) {xs : List Cell}
      → layout (calc_hash k) ≡ xs
      → Find k xs
      → All (Clear beyond k) xs
      → cells xs < rounds
      → (out : Bool) × (db' : Db) × (hash_del beyond rounds db k ≡ ok (out, db'))
        × Removes layout k out db'
  unfolding hash_del
  delete_view rounds {xs} e (absent out) clear h =
      let i = calc_hash k in
      let ch = subst (λ xs. Chain db.recs (db.buckets i) xs) e (s.chains i) in
      (
        false,
        db,
        walk-miss beyond db k _ _ rounds (bucket i) (get_link-bucket db i) ch clear out h,
        keep (rw e out),
      )
  delete_view rounds e (found ys c zs out hit) clear h =
      let i = calc_hash k in
      let ch = subst (λ xs. Chain db.recs (db.buckets i) xs) e (s.chains i) in
      let (st, run) =
        walk-hit beyond db k (ok (false, db)) (unchain beyond db) rounds (bucket i) ys c zs
          (get_link-bucket db i) ch clear out hit (omega (arith, cells-append ys (c ∷ zs))) in
      let (db', act, rem) = remove ys c zs e out ((same_key_iff k c.key).0 hit) st in
      (true, db', run ∙ act, rem)

-- On a valid store, where the code's comparison tells apart the records of the key's bucket and
-- the walk has a round more than there are, `db_del` ends, leaves a valid store whose map has lost
-- the key and is the old map at every other key, and returns 0 exactly where the key was there.
pub db_del-Removes :
    (beyond : ℕ → ℕ → ℕ) (rounds : ℕ) (db : Db) (layout : Layout) (key : Slice)
    → IsStore db layout
    → All (Clear beyond (bytes key)) (layout (calc_hash (bytes key)))
    → cells (layout (calc_hash (bytes key))) < rounds
    → (out : Bool) × (db' : Db) × (db_del beyond rounds db key ≡ ok (out, db'))
      × Removes layout (bytes key) out db'
unfolding db_del
db_del-Removes beyond rounds db layout key s clear h =
    delete_view beyond db layout (bytes key) s rounds refl (Find-first (bytes key) _) clear h
