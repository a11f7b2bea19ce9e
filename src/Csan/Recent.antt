-- ===== src/Csan/Recent.antt =====
-- What the arrays remember, against all the writes since each cpu's last release.
use xtest.Base.{
  ℕ, ◌<◌, ◌≡◌, ◌≢◌, Bool, not, ◌||◌, ◌==◌, if◌then◌else◌, List, [], ◌∷◌, get_or, Bool-cases, inl,
  inr, ==_iff, arith, refl, ap, ◌∙◌, sym, subst,
}
use xtest.Csan.{
  Order, Csan, fresh_csan, set_cpu, match_cpu, match_addr, arm, disarm, clear, is_releasing,
  csan_read1, csan_write1_begin, csan_write1_end, csan_atomic,
}

-- A cpu outside a write or in one, and the addresses that it wrote since its last release, the latest
-- first.
pub data Writer : Type 0 where
  idle : List ℕ → Writer
  busy : List ℕ → Writer

-- The cpus' steps, and what the hooks do with the arrays. A cpu ends a write before it begins another
-- or releases.
pub data Trace : (ℕ → Writer) → Csan → Type 0 where
  boot : (w : ℕ → Writer) → ((i : ℕ) → w i ≡ idle []) → Trace w fresh_csan
  begins :
      (w : ℕ → Writer) (s : Csan) (i addr : ℕ) (ws : List ℕ)
      → Trace w s
      → i < 4
      → w i ≡ idle ws
      → Trace (set_cpu i (busy (addr ∷ ws)) w) (csan_write1_begin i addr s)
  ends :
      (w : ℕ → Writer) (s : Csan) (i : ℕ) (ws : List ℕ)
      → Trace w s
      → i < 4
      → w i ≡ busy ws
      → Trace (set_cpu i (idle ws) w) (csan_write1_end i s)
  syncs :
      (w : ℕ → Writer) (s : Csan) (i : ℕ) (order : Order) (ws : List ℕ)
      → Trace w s
      → i < 4
      → w i ≡ idle ws
      → Trace (set_cpu i (idle (if is_releasing order then [] else ws)) w) (csan_atomic i order s)

abbrev pub Represents : Writer → ℕ → ℕ → ℕ → ℕ → Type 0
Represents (idle ws) cur old1 old2 old3 =
    (cur ≡ 0) × (old1 ≡ get_or ws 0 0) × (old2 ≡ 0) × (old3 ≡ get_or ws 1 0)
Represents (busy ws) cur old1 old2 old3 =
    (cur ≡ get_or ws 0 0) × (old1 ≡ 0) × (old2 ≡ get_or ws 1 0) × (old3 ≡ 0)

abbrev Holds : Writer → Csan → ℕ → Type 0
Holds w s i = Represents w (s.cur i) (s.old1 i) (s.old2 i) (s.old3 i)

-- Among the last two writes.
abbrev pub wrote_lately : ℕ → Writer → Bool
wrote_lately addr (idle ws) = (addr == get_or ws 0 0) || (addr == get_or ws 1 0)
wrote_lately addr (busy ws) = (addr == get_or ws 0 0) || (addr == get_or ws 1 0)

Holds-match :
    (addr : ℕ) (w : Writer) (s : Csan) (i : ℕ)
    → addr ≢ 0
    → Holds w s i
    → match_cpu addr s i ≡ wrote_lately addr w
Holds-match addr (idle ws) s i n (a, b, c, d) = ground (arith, n, a, b, c, d)
Holds-match addr (busy ws) s i n (a, b, c, d) = ground (arith, n, a, b, c, d)

Trace-Holds : {w : ℕ → Writer} {s : Csan} → Trace w s → (j : ℕ) → Holds (w j) s j
unfolding csan_write1_begin csan_write1_end csan_atomic arm disarm clear
Trace-Holds (boot w e) j = subst (λ v. Represents v 0 0 0 0) (sym (e j)) (refl, refl, refl, refl)
Trace-Holds (begins w s i addr ws t lt e) j = elim (Bool-cases (i == j)) [
  | inl q ↦ let (a, b, c, d) = subst (λ v. Holds v s i) e (Trace-Holds t i) in rw q (refl, a, b, c)
  | inr q ↦ rw q (Trace-Holds t j)
]
Trace-Holds (ends w s i ws t lt e) j = elim (Bool-cases (i == j)) [
  | inl q ↦ let (a, b, c, d) = subst (λ v. Holds v s i) e (Trace-Holds t i) in rw q (refl, a, b, c)
  | inr q ↦ rw q (Trace-Holds t j)
]
Trace-Holds (syncs w s i order ws t lt e) j = elim (Bool-cases (i == j)) [
  | inl q ↦ elim (Bool-cases (is_releasing order)) [
    | inl r ↦ rw (r, q) (refl, refl, refl, refl)
    | inr r ↦
        rw (r, q) (subst (λ v. Holds v s j) (ap w (sym ((==_iff i j).0 q)) ∙ e) (Trace-Holds t j))
  ]
  | inr q ↦ elim (Bool-cases (is_releasing order)) [
    | inl r ↦ rw (r, q) (Trace-Holds t j)
    | inr r ↦ rw (r, q) (Trace-Holds t j)
  ]
]

-- After any steps of the four cpus, each ending its writes before it goes on, a read of an address other
-- than NULL traps exactly when the address is among the last two that some cpu (the reader too) wrote
-- since its last release, or the byte changed during the wait.
pub csan_read1_lem :
    (w : ℕ → Writer) (s : Csan) (addr t0 t1 : ℕ)
    → Trace w s
    → addr ≢ 0
    → csan_read1 addr t0 t1 s ≡ (
        wrote_lately addr (w 0)
        || (wrote_lately addr (w 1) || (wrote_lately addr (w 2) || wrote_lately addr (w 3)))
        || not (t0 == t1))
unfolding csan_read1 match_addr
csan_read1_lem w s addr t0 t1 t n =
    let m = λ (i : ℕ). Holds-match addr (w i) s i n (Trace-Holds t i) in
    ground (arith, m 0, m 1, m 2, m 3)
