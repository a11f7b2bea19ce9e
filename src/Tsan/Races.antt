-- ===== src/Tsan/Races.antt =====
-- Which reads are reported.
use xtest.Base.{
  ℕ, zero, suc, ◌+◌, ◌<◌, ◌≡◌, ◌≢◌, ◌==◌, ltb, true, false, some, arith, refl, ap, ◌∙◌, sym,
}
use mathlib.Core.Path.{ap₂}
use xtest.Base.Family.{change, change-same, change-other}
use xtest.Tsan.{
  table_size, Detector, lookup, find, tsan_write1, tsan_atomic8_store, tsan_read1,
  tsan_atomic8_load, advance, mark_entry, check_entry, adopt,
}

lookup-addr : (addr : ℕ → ℕ) (a left i j : ℕ) → lookup addr a left i ≡ some j → addr j ≡ a
unfolding lookup
lookup-addr addr a zero i j e = absurd (ground arith)
lookup-addr addr a (suc left) i j e = ground (arith, lookup-addr addr a left (i + 1) j, e)

find-found : (a i : ℕ) (s : Detector) → lookup s.addr a table_size 0 ≡ some i → find a s ≡ (i, s)
unfolding find
find-found a i s e = rw (find, e) refl

-- A location that has an entry at `i`.
abbrev pub Found : ℕ → ℕ → Detector → Type 0
Found a i s = lookup s.addr a table_size 0 ≡ some i

after_write : ℕ → ℕ → Detector → Detector
after_write me i s = mark_entry me (s.seqno me me) (i, advance me s)

write-Found : (me a i : ℕ) (s : Detector) → Found a i s → tsan_write1 me a s ≡ after_write me i s
unfolding tsan_write1 after_write
write-Found me a i s e = ap (mark_entry me (s.seqno me me)) (find-found a i (advance me s) e)

read-Found :
    (me a i : ℕ) (s : Detector)
    → Found a i s
    → (tsan_read1 me a s).0 ≡ ltb (s.seqno me (s.cpu i)) (s.seq i)
unfolding tsan_read1
read-Found me a i s e = ap (λ t. (check_entry me t).0) (find-found a i s e)

load-Found : (me a i : ℕ) (s : Detector) → Found a i s → tsan_atomic8_load me a s ≡ adopt me (i, s)
unfolding tsan_atomic8_load
load-Found me a i s e = ap (adopt me) (find-found a i s e)

-- A write and then a read of one location that has an entry: the read is reported exactly when the
-- reader's number for the writer was behind the writer's own number, for any two different cpus.
pub write-read :
    (s : Detector) (x i me other : ℕ)
    → Found x i s
    → me ≢ other
    → (tsan_read1 other x (tsan_write1 me x s)).0 ≡ ltb (s.seqno other me) (s.seqno me me)
unfolding after_write
write-read s x i me other e off = rw (write-Found me x i s e) (
    read-Found other x i (after_write me i s) e
    ∙ ap₂ ltb
        (ap₂ (λ (f : ℕ → ℕ) c. f c)
          (change-other s.seqno me (change (s.seqno me) me (s.seqno me me + 1)) other
            (λ e. off (sym e)))
          (change-same s.cpu i me))
        (change-same s.seq i (s.seqno me me)))

module _ (me i : ℕ) (s : Detector) where
  written_cpu : (after_write me i s).cpu i ≡ me
  unfolding after_write
  written_cpu = change-same s.cpu i me

  written_seq : (after_write me i s).seq i ≡ s.seqno me me
  unfolding after_write
  written_seq = change-same s.seq i (s.seqno me me)

  written_seqno : (after_write me i s).seqno me me ≡ s.seqno me me + 1
  unfolding after_write
  written_seqno =
      ap (λ (f : ℕ → ℕ). f me) (change-same s.seqno me (change (s.seqno me) me (s.seqno me me + 1)))
      ∙ change-same (s.seqno me) me (s.seqno me me + 1)

  kept_cpu : (j : ℕ) → j ≢ i → (after_write me i s).cpu j ≡ s.cpu j
  unfolding after_write
  kept_cpu j off = change-other s.cpu i me j off

  kept_seq : (j : ℕ) → j ≢ i → (after_write me i s).seq j ≡ s.seq j
  unfolding after_write
  kept_seq j off = change-other s.seq i (s.seqno me me) j off

-- What `adopt` leaves when the number of the entry is not 0.
abbrev adopted : ℕ → ℕ → Detector → Detector
adopted me i s = record s { seqno = change s.seqno me (change (s.seqno me) (s.cpu i) (s.seq i)) }

adopt_step : (me i : ℕ) (s : Detector) → 0 < s.seq i → adopt me (i, s) ≡ adopted me i s
adopt_step me i s pos = let e : (s.seq i == 0) ≡ false = ground arith in rw e refl

adopted-seqno : (me i : ℕ) (s : Detector) → (adopted me i s).seqno me (s.cpu i) ≡ s.seq i
adopted-seqno me i s =
    ap (λ (f : ℕ → ℕ). f (s.cpu i))
      (change-same s.seqno me (change (s.seqno me) (s.cpu i) (s.seq i)))
    ∙ change-same (s.seqno me) (s.cpu i) (s.seq i)

-- After the load through entry `i`, the read through entry `j` compares their numbers when one cpu
-- wrote both.
load-read :
    (s : Detector) (x y i j me : ℕ)
    → Found x i s
    → Found y j s
    → 0 < s.seq i
    → s.cpu j ≡ s.cpu i
    → (tsan_read1 me y (tsan_atomic8_load me x s)).0 ≡ ltb (s.seq i) (s.seq j)
load-read s x y i j me ex ey pos same =
    ap (λ t. (tsan_read1 me y t).0) (load-Found me x i s ex ∙ adopt_step me i s pos)
    ∙ read-Found me y j (adopted me i s) ey
    ∙ ap (λ t. ltb t (s.seq j)) (ap (λ d. (adopted me i s).seqno me d) same ∙ adopted-seqno me i s)

apart : (s : Detector) (x y i j : ℕ) → Found x i s → Found y j s → x ≢ y → i ≢ j
apart s x y i j ex ey away e = away (
    sym (lookup-addr s.addr x table_size 0 i ex)
    ∙ ap s.addr e
    ∙ lookup-addr s.addr y table_size 0 j ey)

still-Found : (me a i j : ℕ) (s : Detector) → Found a i s → Found a i (after_write me j s)
unfolding after_write
still-Found me a i j s e = e

-- Two different locations that have entries: a write of the second and then a releasing store of the
-- first by one cpu, then an acquiring load of the first and a read of the second by a cpu, and the read
-- is not reported.
pub message_passing :
    (s : Detector) (x y i j me other : ℕ)
    → Found x i s
    → Found y j s
    → x ≢ y
    → (tsan_read1 other y
        (tsan_atomic8_load other x (tsan_atomic8_store me x (tsan_write1 me y s)))).0
      ≡ false
message_passing s x y i j me other ex ey away =
    let t = after_write me j s in
    let u = after_write me i t in
    let off = apart s x y i j ex ey away in
    let number : u.seq i ≡ s.seqno me me + 1 = written_seq me i t ∙ written_seqno me j s in
    let older : u.seq j ≡ s.seqno me me =
      kept_seq me i t j (λ e. off (sym e)) ∙ written_seq me j s in
    let one_cpu : u.cpu j ≡ u.cpu i =
      kept_cpu me i t j (λ e. off (sym e)) ∙ written_cpu me j s ∙ sym (written_cpu me i t) in
    ap (λ t. (tsan_read1 other y (tsan_atomic8_load other x (tsan_atomic8_store me x t))).0)
      (write-Found me y j s ey)
    ∙ ap (λ t. (tsan_read1 other y (tsan_atomic8_load other x t)).0)
        (write-Found me x i t (still-Found me x i j s ex))
    ∙ load-read u x y i j other (still-Found me x i i t (still-Found me x i j s ex))
        (still-Found me y j i t (still-Found me y j j s ey)) (omega arith) one_cpu
    ∙ ground arith

-- Two different locations that have entries, and a cpu with a number above 0: it stores to the first
-- and releases, writes the second, and loads the first again; then its own read of the second is
-- reported as a race, although no other cpu took part.
pub false_race :
    (s : Detector) (x y i j me : ℕ)
    → Found x i s
    → Found y j s
    → x ≢ y
    → 0 < s.seqno me me
    → (tsan_read1 me y (tsan_atomic8_load me x (tsan_write1 me y (tsan_atomic8_store me x s)))).0
      ≡ true
false_race s x y i j me ex ey away pos =
    let t = after_write me i s in
    let u = after_write me j t in
    let off = apart s x y i j ex ey away in
    let number : u.seq j ≡ s.seqno me me + 1 = written_seq me j t ∙ written_seqno me i s in
    let older : u.seq i ≡ s.seqno me me = kept_seq me j t i off ∙ written_seq me i s in
    let one_cpu : u.cpu j ≡ u.cpu i =
      written_cpu me j t ∙ sym (kept_cpu me j t i off ∙ written_cpu me i s) in
    ap (λ t. (tsan_read1 me y (tsan_atomic8_load me x (tsan_write1 me y t))).0)
      (write-Found me x i s ex)
    ∙ ap (λ t. (tsan_read1 me y (tsan_atomic8_load me x t)).0)
        (write-Found me y j t (still-Found me y j i s ey))
    ∙ load-read u x y i j me (still-Found me x i j t (still-Found me x i i s ex))
        (still-Found me y j j t (still-Found me y j i s ey)) (omega arith) one_cpu
    ∙ ground arith
