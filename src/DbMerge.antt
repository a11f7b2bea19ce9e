-- ===== src/DbMerge.antt =====
-- dbmerge.cc: merges a source database into a destination. LevelDB is a parameter: what `Get` and `Put`
-- give. A database is the list of its records, the newest first.
pub mod Merged
pub mod Tests
use xtest.Base.{ℕ, ◌+◌, Bool, true, false, ◌==◌, if◌then◌else◌, List, [], ◌∷◌, Option, none, some}

-- A record as the iterator of the source shows it.
pub record SrcRecord : Type 0 where
  pub status_ok : Bool
  pub key : ℕ
  pub value : ℕ

-- The status of `Get`.
pub data Got : Type 0 where
  got : ℕ → Got
  not_found : Got
  get_error : Got

abbrev pub Db : Type 0
Db = List (ℕ × ℕ)

abbrev pub db_lookup : ℕ → Db → Option ℕ
db_lookup k [] = none
db_lookup k ((j, v) ∷ rest) = if j == k then some v else db_lookup k rest

-- The calls; `put` tells whether it succeeds.
pub record LevelDb : Type 0 where
  pub get : Db → ℕ → Got
  pub put : Db → ℕ → ℕ → Bool

-- The counters and the destination.
pub record Merge : Type 0 where
  pub n_records_src : ℕ
  pub n_records_merged : ℕ
  pub dst : Db

abbrev pub start_merge : Db → Merge
start_merge dst = record { n_records_src = 0; n_records_merged = 0; dst = dst }

module _ (db : LevelDb) where
  abbrev pub put_dst : SrcRecord → Merge → Bool × Merge
  put_dst e s =
      if db.put s.dst e.key e.value
      then (true, record s { dst = (e.key, e.value) ∷ s.dst })
      else (false, s)

  -- What `Get` found decides whether the loop goes on to `Put`.
  abbrev pub check_old : Got → SrcRecord → Merge → Bool × Merge
  check_old (got v) e s = if v == e.value then put_dst e s else (false, s)
  check_old not_found e s = put_dst e (record s { n_records_merged = s.n_records_merged + 1 })
  check_old get_error e s = (false, s)

  -- One round: whether the loop goes on.
  unfoldable pub merge_record : SrcRecord → Merge → Bool × Merge
  merge_record e s =
      let counted = record s { n_records_src = s.n_records_src + 1 } in
      if e.status_ok then check_old (db.get s.dst e.key) e counted else (false, s)

  abbrev pub next_round : (Merge → Bool × Merge) → Bool × Merge → Bool × Merge
  next_round rest (true, s) = rest s
  next_round rest (false, s) = (false, s)

  -- Whether the loop came to the end of the source, and what it left.
  unfoldable pub merge_loop : List SrcRecord → Merge → Bool × Merge
  merge_loop [] s = (true, s)
  merge_loop (e ∷ rest) s = next_round (merge_loop rest) (merge_record e s)

  unfoldable pub db_merge : List SrcRecord → Db → Bool × Merge
  db_merge src dst = merge_loop src (start_merge dst)
