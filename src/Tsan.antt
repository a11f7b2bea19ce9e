-- ===== src/Tsan.antt =====
-- san/tsan.c: a data-race detector. Each cpu has a vector of sequence numbers, and each location the
-- cpu and the number of its last write. The lock makes each hook one step; the numbers are taken to
-- stay in the range of `int`.
pub mod Races
pub mod Tests
use xtest.Base.{ℕ, zero, suc, ◌+◌, ◌%◌, ◌==◌, ltb, if◌then◌else◌, Bool, Option, none, some}
use xtest.Base.Family.{change}

abbrev pub table_size : ℕ
table_size = 10000

-- `g_vectortab`, and the fields of `g_locations` each by itself.
pub record Detector : Type 0 where
  pub seqno : ℕ → ℕ → ℕ
  pub addr : ℕ → ℕ
  pub cpu : ℕ → ℕ
  pub seq : ℕ → ℕ
  pub rotor : ℕ

-- The first of `left` entries from `i` on that has the address.
unfoldable pub lookup : (ℕ → ℕ) → ℕ → ℕ → ℕ → Option ℕ
lookup addr a zero i = none
lookup addr a (suc left) i = if addr i == a then some i else lookup addr a left (i + 1)

-- The index of the entry for an address. An entry is reclaimed when there is none.
unfoldable pub find : ℕ → Detector → ℕ × Detector
find a s = elim (lookup s.addr a table_size 0) [
  | some i ↦ (i, s)
  | none ↦
      let i = s.rotor % table_size in
      (
        i,
        record s {
          addr = change s.addr i a;
          cpu = change s.cpu i 0;
          seq = change s.seq i 0;
          rotor = s.rotor + 1;
        },
      )
]

-- `vec->seqno[g_mycpu]++`
abbrev pub advance : ℕ → Detector → Detector
advance me s = record s { seqno = change s.seqno me (change (s.seqno me) me (s.seqno me me + 1)) }

abbrev pub mark_entry : ℕ → ℕ → ℕ × Detector → Detector
mark_entry me nseq (i, s) = record s { cpu = change s.cpu i me; seq = change s.seq i nseq }

-- `__tsan_write1`, and `__tsan_atomic8_store` with an order that releases.
unfoldable pub tsan_write1 : ℕ → ℕ → Detector → Detector
tsan_write1 me a s = mark_entry me (s.seqno me me) (find a (advance me s))

abbrev pub tsan_atomic8_store : ℕ → ℕ → Detector → Detector
tsan_atomic8_store me a s = tsan_write1 me a s

abbrev pub check_entry : ℕ → ℕ × Detector → Bool × Detector
check_entry me (i, s) = (ltb (s.seqno me (s.cpu i)) (s.seq i), s)

-- Whether a race is reported.
unfoldable pub tsan_read1 : ℕ → ℕ → Detector → Bool × Detector
tsan_read1 me a s = check_entry me (find a s)

abbrev pub adopt : ℕ → ℕ × Detector → Detector
adopt me (i, s) =
    if s.seq i == 0
    then s
    else record s { seqno = change s.seqno me (change (s.seqno me) (s.cpu i) (s.seq i)) }

-- With an order that acquires.
unfoldable pub tsan_atomic8_load : ℕ → ℕ → Detector → Detector
tsan_atomic8_load me a s = adopt me (find a s)
