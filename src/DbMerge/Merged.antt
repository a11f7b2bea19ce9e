-- ===== src/DbMerge/Merged.antt =====
-- The destination after the merge.
use xtest.Base.{
  ℕ, ◌+◌, ◌≤◌, ◌≡◌, Bool, true, false, ◌==◌, List, [], ◌∷◌, length, none, some, Bool-cases, inl,
  inr, ==_iff, arith, refl, ap, sym,
}
use xtest.DbMerge.{
  SrcRecord, Got, got, not_found, get_error, Db, db_lookup, LevelDb, Merge, start_merge, put_dst,
  check_old, merge_record, next_round, merge_loop, db_merge,
}

-- What LevelDB promises of `Get`: a value is the one that is stored, and a key that is not found is
-- not there.
pub record IsLevelDb (db : LevelDb) : Type 0 where
  pub got_stored : (d : Db) (k v : ℕ) → db.get d k ≡ got v → db_lookup k d ≡ some v
  pub not_stored : (d : Db) (k : ℕ) → db.get d k ≡ not_found → db_lookup k d ≡ none

-- Each record of the source is in the destination.
abbrev pub AllIn : List SrcRecord → Db → Type 0
AllIn [] d = Unit {0}
AllIn (e ∷ rest) d = (db_lookup e.key d ≡ some e.value) × AllIn rest d

pub record Merged (src : List SrcRecord) (s : Merge) (ok : Bool) (t : Merge) : Type 0 where
  pub kept : (k v : ℕ) → db_lookup k s.dst ≡ some v → db_lookup k t.dst ≡ some v
  pub all_in : ok ≡ true → AllIn src t.dst
  pub counted : t.n_records_src ≤ s.n_records_src + length src
  pub full : ok ≡ true → t.n_records_src ≡ s.n_records_src + length src

-- What is left where the loop ends early.
stopped-Merged :
    (src : List SrcRecord) (s t : Merge)
    → t.dst ≡ s.dst
    → t.n_records_src ≤ s.n_records_src + length src
    → Merged src s false t
stopped-Merged src s t same le = record {
  kept = λ k v h. cc (h, ap (db_lookup k) same);
  all_in = λ h. cc h;
  counted = le;
  full = λ h. cc h;
}

module _ (db : LevelDb) (law : IsLevelDb db) where
  put-Merged :
      (e : SrcRecord) (s t : Merge)
      → t.dst ≡ s.dst
      → t.n_records_src ≡ s.n_records_src + 1
      → ((v : ℕ) → db_lookup e.key s.dst ≡ some v → v ≡ e.value)
      → Merged (e ∷ []) s (put_dst db e t).0 (put_dst db e t).1
  put-Merged e s t same one agree = elim (Bool-cases (db.put t.dst e.key e.value)) [
    | inl p ↦ rw p record {
      kept = λ k v h. elim (Bool-cases (e.key == k)) [
        | inl q ↦ rw q (ap some (sym (agree v (cc (h, (==_iff e.key k).0 q)))))
        | inr q ↦ rw q (cc h)
      ];
      all_in = λ h. (ground arith, tt);
      counted = omega (arith, one);
      full = λ h. omega (arith, one);
    }
    | inr p ↦ rw p (stopped-Merged (e ∷ []) s t same (omega (arith, one)))
  ]

  check-Merged :
      (o : Got) (e : SrcRecord) (s t : Merge)
      → db.get s.dst e.key ≡ o
      → t.dst ≡ s.dst
      → t.n_records_src ≡ s.n_records_src + 1
      → Merged (e ∷ []) s (check_old db o e t).0 (check_old db o e t).1
  check-Merged (got v) e s t g same one = elim (Bool-cases (v == e.value)) [
    | inl q ↦ rw q (
        put-Merged e s t same one
          (λ w h. cc (law.got_stored s.dst e.key v g, h, (==_iff v e.value).0 q)))
    | inr q ↦ rw q (stopped-Merged (e ∷ []) s t same (omega (arith, one)))
  ]
  check-Merged not_found e s t g same one =
      put-Merged e s (record t { n_records_merged = t.n_records_merged + 1 }) same one
        (λ w h. cc (law.not_stored s.dst e.key g, h))
  check-Merged get_error e s t g same one = stopped-Merged (e ∷ []) s t same (omega (arith, one))

  step-Merged :
      (e : SrcRecord) (s : Merge)
      → Merged (e ∷ []) s (merge_record db e s).0 (merge_record db e s).1
  unfolding merge_record
  step-Merged e s = elim (Bool-cases e.status_ok) [
    | inl q ↦ simp q (
        check-Merged (db.get s.dst e.key) e s (record s { n_records_src = s.n_records_src + 1 })
          refl refl refl)
    | inr q ↦ simp q (stopped-Merged (e ∷ []) s s refl (omega arith))
  ]

  AllIn-kept :
      (src : List SrcRecord) (d u : Db)
      → ((k v : ℕ) → db_lookup k d ≡ some v → db_lookup k u ≡ some v)
      → AllIn src d
      → AllIn src u
  AllIn-kept [] d u keep all = tt
  AllIn-kept (e ∷ rest) d u keep (h, all) = (keep e.key e.value h, AllIn-kept rest d u keep all)

  round-Merged :
      (e : SrcRecord) (rest : List SrcRecord) (s t : Merge) (ok : Bool)
      → Merged (e ∷ []) s ok t
      → ((u : Merge) → Merged rest u (merge_loop db rest u).0 (merge_loop db rest u).1)
      → Merged
          (e ∷ rest)
          s
          (next_round db (merge_loop db rest) (ok, t)).0
          (next_round db (merge_loop db rest) (ok, t)).1
  round-Merged e rest s t false a more = record {
    kept = a.kept;
    all_in = λ h. cc h;
    counted = omega (arith, a.counted);
    full = λ h. cc h;
  }
  round-Merged e rest s t true a more =
      let b = more t in
      let (there, none_left) = a.all_in refl in
      record {
        kept = λ k v h. b.kept k v (a.kept k v h);
        all_in = λ h. (b.kept e.key e.value there, b.all_in h);
        counted = omega (arith, a.counted, b.counted);
        full = λ h. omega (arith, a.full refl, b.full h);
      }

  loop-Merged :
      (src : List SrcRecord) (s : Merge)
      → Merged src s (merge_loop db src s).0 (merge_loop db src s).1
  unfolding merge_loop
  loop-Merged [] s = record {
    kept = λ k v h. h;
    all_in = λ h. tt;
    counted = omega arith;
    full = λ h. omega arith;
  }
  loop-Merged (e ∷ rest) s =
      round-Merged e rest s (merge_record db e s).1 (merge_record db e s).0 (step-Merged e s)
        (loop-Merged rest)

-- For a LevelDB whose `Get` keeps its promises, whether or not an error ends the loop: every record
-- that the destination had is there after the merge with the same value, and no more records are
-- counted than the source has. When the loop comes to the end, every record of the source is in the
-- destination and counted.
pub db_merge_lem :
    (db : LevelDb) (src : List SrcRecord) (dst : Db)
    → IsLevelDb db
    → Merged src (start_merge dst) (db_merge db src dst).0 (db_merge db src dst).1
unfolding db_merge
db_merge_lem db src dst law = loop-Merged db law src (start_merge dst)
