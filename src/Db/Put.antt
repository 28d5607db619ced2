-- ===== src/Db/Put.antt =====
-- `hash_put` and `db_set` of src/db.c against the map of a store.
use c_db_k8s.Prelude.{
  ℕ, ◌<◌, ◌≡◌, refl, sym, ap, ◌∙◌, ◌⊎◌, inl, inr, true, false, none, some, List, [], ◌∷◌, ◌++◌,
  Bytes, if◌then◌else◌, arith, ok, Option-cases, subst,
}
use c_db_k8s.Str.Slice.{Slice, bytes}
use c_db_k8s.Db.{Rec, Db, Loc, bucket, next_of, calc_hash, update, del_rec, set_link, create_rec}
use c_db_k8s.Db.Loops.{replace_rec, prepend_rec, hash_put, db_set}
use c_db_k8s.Db.Chain.{
  Cell, has, All, rec_of, Chain, cons, has-append, lookup, same_key, same_key_iff, Clear,
}
use c_db_k8s.Db.Walk.{cells, Misses, Stop, walk-miss, walk-hit, loc_after, get_link-bucket}
use c_db_k8s.Db.Relink.{Relinked, set_link-Relinked}
use c_db_k8s.Db.Store.{Layout, Home, Unique, IsStore, unused-not-mem}
use c_db_k8s.Db.Change.{
  Find, absent, found, Find-first, All-middle, All-insert, Unique-replace, Chain-middle, Changes,
  Changes-IsStore,
}
use c_db_k8s.Db.Delete.{cells-append, has-not-middle, del_rec-Changes, view-update}
use c_db_k8s.Db.Create.{
  Unused, no_record, Created, create_rec-Created, cell, Linked, link_new, old-Chain, Apart-cons,
  Binds, insert-lookup, replace-lookup,
}

module _ (beyond : ℕ → ℕ → ℕ) (fresh : ℕ) (db : Db) (layout : Layout) (k v : Bytes)
    (s : IsStore db layout) where
  -- how a write to the bucket of `k` makes the new store
  bind :
      {new next : ℕ} {db2 db3 : Db} (ys ws : List Cell)
      → db.recs new ≡ none
      → Linked db k v new next db2
      → Relinked db2 (calc_hash k) ys ws db3
      → ((a : ℕ) → has a (layout (calc_hash k)) ≡ false → has a ys ≡ false)
      → Changes db layout (calc_hash k) (ys ++ ws) db3
  bind ys ws unused l rel part = record {
    chain = rel.chain;
    others = λ j ne. rel.others j ne ∙ ap (λ (f : ℕ → ℕ). f j) l.buckets;
    same = λ a out live. rel.same a (part a out) ∙ l.same a (λ e. live (ap db.recs e ∙ unused));
  }

  prepend_rec_run :
      {new : ℕ} {db1 db2 db3 : Db}
      → create_rec fresh db k v ≡ some (new, db1)
      → set_link db1 (next_of new) (db.buckets (calc_hash k)) ≡ ok db2
      → set_link db2 (bucket (calc_hash k)) new ≡ ok db3
      → prepend_rec beyond fresh db k v ≡ ok (true, db3)
  unfolding prepend_rec
  prepend_rec_run made first second = rw (made, prepend_rec, first, second)

  replace_rec_run :
      {new : ℕ} {db1 db2 db3 : Db} (pp : Loc) (link : ℕ) (r : Rec)
      → create_rec fresh db k v ≡ some (new, db1)
      → set_link db1 (next_of new) r.next ≡ ok db2
      → set_link db2 pp new ≡ ok db3
      → replace_rec beyond fresh db k v pp link r ≡ ok (true, del_rec db3 link r)
  unfolding replace_rec
  replace_rec_run pp link r made first second = rw (made, replace_rec, first, second)

  prepend :
      All (Misses k) (layout (calc_hash k))
      → {new : ℕ} {db1 : Db} → create_rec fresh db k v ≡ some (new, db1)
      → Created db k v new db1
      → (db' : Db) × (prepend_rec beyond fresh db k v ≡ ok (true, db')) × Binds layout k v db'
  prepend out {new} {db1} made c =
      let i = calc_hash k in
      let (db2, first, l) = link_new (db.buckets i) c in
      let old = old-Chain c.unused l (s.chains i) in
      let n = cell new k v in
      let off = unused-not-mem new (s.chains i) c.unused in
      let fresh_chain : Chain db2.recs new (n ∷ layout i) = cons c.live refl l.here off old in
      let (db3, second, rel) =
        set_link-Relinked db2 i new (n ∷ layout i) [] (layout i)
          (subst (λ (f : ℕ → ℕ). Chain db2.recs (f i) (layout i)) (sym l.buckets) old) fresh_chain
          tt in
      (
        db3,
        prepend_rec_run made first second,
        record {
          after = update layout i (n ∷ layout i);
          store =
              Changes-IsStore s (bind [] (n ∷ layout i) c.unused l rel (λ a o. refl))
                (refl, s.homes i) (out, s.unique i);
          reads = view-update layout k (n ∷ layout i) (some v) (insert-lookup k v new (layout i));
        },
      )

  replace :
      (ys : List Cell) (c : Cell) (zs : List Cell)
      → layout (calc_hash k) ≡ ys ++ (c ∷ zs)
      → All (Misses k) ys
      → k ≡ c.key
      → (st : Stop db c zs) → {new : ℕ} {db1 : Db} → create_rec fresh db k v ≡ some (new, db1)
      → Created db k v new db1
      → (db' : Db) × (replace_rec beyond fresh db k v
            (loc_after (bucket (calc_hash k)) ys)
            c.at
            (rec_of c st.next st.flags)
          ≡ ok (true, db'))
        × Binds layout k v db'
  replace ys c zs e out hit st {new} {db1} made m =
      let i = calc_hash k in
      let ch = subst (λ xs. Chain db.recs (db.buckets i) xs) e (s.chains i) in
      let homes = subst (All (Home i)) e (s.homes i) in
      let once = subst Unique e (s.unique i) in
      let (apart, off) = Chain-middle ys c zs ch in
      let n = cell new k v in
      let r = rec_of c st.next st.flags in
      let (db2, first, l) = link_new st.next m in
      let unseen = has-not-middle new ys c zs (unused-not-mem new ch m.unused) in
      let rest = old-Chain m.unused l st.rest in
      let new_chain : Chain db2.recs new (n ∷ zs) =
        cons m.live refl l.here (unused-not-mem new st.rest m.unused) rest in
      let old =
        subst (λ (f : ℕ → ℕ). Chain db2.recs (f i) (ys ++ (c ∷ zs))) (sym l.buckets)
          (old-Chain m.unused l ch) in
      let (db3, second, rel) =
        set_link-Relinked db2 i new (n ∷ zs) ys (c ∷ zs) old new_chain
          (Apart-cons ys n zs apart unseen.1) in
      let parts = λ (a : ℕ) (o : has a (layout i) ≡ false). has-not-middle a ys c zs (rw e at o) in
      let linked = bind ys (n ∷ zs) m.unused l rel (λ a o. (parts a o).1) in
      let gone : has c.at (ys ++ (n ∷ zs)) ≡ false =
        ground (arith, has-append c.at ys (n ∷ zs), has-append c.at ys zs, off, unseen.2) in
      (
        del_rec db3 c.at r,
        replace_rec_run (loc_after (bucket i) ys) c.at r made first second,
        record {
          after = update layout i (ys ++ (n ∷ zs));
          store =
              Changes-IsStore s
                (del_rec-Changes db layout i c.at (ys ++ (n ∷ zs)) r db3 linked gone
                  (λ a o. (parts a o).2))
                (All-insert (Home i) ys n zs (All-middle (Home i) ys c zs homes).3 refl)
                (Unique-replace ys c n zs hit once);
          reads = view-update layout k (ys ++ (n ∷ zs)) (some v) λ q.
              replace-lookup k v new ys c zs out hit q
              ∙ ap (λ xs. if same_key q k then some v else lookup q xs) (sym e);
        },
      )

  put_view :
      (rounds : ℕ) {xs : List Cell}
      → layout (calc_hash k) ≡ xs
      → Find k xs
      → All (Clear beyond k) xs
      → cells xs < rounds
      → {new : ℕ} {db1 : Db} → create_rec fresh db k v ≡ some (new, db1)
      → Created db k v new db1
      → (db' : Db) × (hash_put beyond rounds fresh db k v ≡ ok (true, db')) × Binds layout k v db'
  unfolding hash_put
  put_view rounds {xs} e (absent out) clear h made c =
      let i = calc_hash k in
      let ch = subst (λ xs. Chain db.recs (db.buckets i) xs) e (s.chains i) in
      let (db', act, b) = prepend (rw e out) made c in
      (
        db',
        walk-miss beyond db k _ _ rounds (bucket i) (get_link-bucket db i) ch clear out h ∙ act,
        b,
      )
  put_view rounds e (found ys c zs out hit) clear h made m =
      let i = calc_hash k in
      let ch = subst (λ xs. Chain db.recs (db.buckets i) xs) e (s.chains i) in
      let (st, run) =
        walk-hit beyond db k (prepend_rec beyond fresh db k v) (replace_rec beyond fresh db k v)
          rounds (bucket i) ys c zs (get_link-bucket db i) ch clear out hit
          (omega (arith, cells-append ys (c ∷ zs))) in
      let (db', act, b) = replace ys c zs e out ((same_key_iff k c.key).0 hit) st made m in
      (db', run ∙ act, b)

  prepend_rec-full :
      create_rec fresh db k v ≡ none → prepend_rec beyond fresh db k v ≡ ok (false, db)
  unfolding prepend_rec
  prepend_rec-full e = rw (e, prepend_rec)

  replace_rec-full :
      (pp : Loc) (link : ℕ) (r : Rec)
      → create_rec fresh db k v ≡ none
      → replace_rec beyond fresh db k v pp link r ≡ ok (false, db)
  unfolding replace_rec
  replace_rec-full pp link r e = rw (e, replace_rec)

  full_view :
      (rounds : ℕ) {xs : List Cell}
      → layout (calc_hash k) ≡ xs
      → Find k xs
      → All (Clear beyond k) xs
      → cells xs < rounds
      → create_rec fresh db k v ≡ none
      → hash_put beyond rounds fresh db k v ≡ ok (false, db)
  unfolding hash_put
  full_view rounds {xs} e (absent out) clear h full =
      let i = calc_hash k in
      let ch = subst (λ xs. Chain db.recs (db.buckets i) xs) e (s.chains i) in
      walk-miss beyond db k _ _ rounds (bucket i) (get_link-bucket db i) ch clear out h
      ∙ prepend_rec-full full
  full_view rounds e (found ys c zs out hit) clear h full =
      let i = calc_hash k in
      let ch = subst (λ xs. Chain db.recs (db.buckets i) xs) e (s.chains i) in
      let (st, run) =
        walk-hit beyond db k (prepend_rec beyond fresh db k v) (replace_rec beyond fresh db k v)
          rounds (bucket i) ys c zs (get_link-bucket db i) ch clear out hit
          (omega (arith, cells-append ys (c ∷ zs))) in
      run ∙ replace_rec-full _ _ _ full

module _ (beyond : ℕ → ℕ → ℕ) (rounds fresh : ℕ) (db : Db) (layout : Layout) (key val : Slice) where
  -- the two ways a call of `db_set` can end
  abbrev pub Sets : Type 0
  Sets =
      (db_set beyond rounds fresh db key val ≡ ok (false, db))
        × (create_rec fresh db (bytes key) (bytes val) ≡ none)
      ⊎ ((db' : Db) × (db_set beyond rounds fresh db key val ≡ ok (true, db'))
          × (no_record (create_rec fresh db (bytes key) (bytes val)) ≡ false)
          × Binds layout (bytes key) (bytes val) db')

  -- On a valid store, where the code's comparison tells apart the records of the key's bucket, the
  -- walk has a round more than there are, and the next record's memory is unused, `db_set` ends.
  -- Either no record could be made, and it fails and has changed nothing, or one was made, and it
  -- returns 0 and leaves a valid store whose map binds the key to the value and is the old map at every other
  -- key.
  pub db_set-Sets :
      IsStore db layout
      → All (Clear beyond (bytes key)) (layout (calc_hash (bytes key)))
      → cells (layout (calc_hash (bytes key))) < rounds
      → Unused fresh db
      → Sets
  unfolding db_set
  db_set-Sets s clear h unused =
      let k = bytes key in
      let v = bytes val in
      let find = Find-first k (layout (calc_hash k)) in
      elim (Option-cases (create_rec fresh db k v)) [
        | inl full ↦
            inl (full_view beyond fresh db layout k v s rounds refl find clear h full, full)
        | inr (made, e) ↦
            let (db', run, binds) =
              put_view beyond fresh db layout k v s rounds refl find clear h e
                (create_rec-Created fresh db k v unused e) in
            inr (db', run, ap no_record e, binds)
      ]
