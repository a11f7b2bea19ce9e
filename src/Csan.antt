-- ===== src/Csan.antt =====
-- san/csan.c: a race detector that reports a read of an address that some cpu wrote lately. An address
-- is a number, and NULL is 0.
pub mod Recent
pub mod Tests
use xtest.Base.{ℕ, zero, suc, ◌+◌, Bool, true, false, not, ◌||◌, ◌==◌, if◌then◌else◌}

pub data Order : Type 0 where
  relaxed : Order
  consume : Order
  acquire : Order
  release : Order
  acq_rel : Order
  seq_cst : Order

-- The arrays `g_in_flight_writes_*`, by cpu.
pub record Csan : Type 0 where
  pub cur : ℕ → ℕ
  pub old1 : ℕ → ℕ
  pub old2 : ℕ → ℕ
  pub old3 : ℕ → ℕ

abbrev pub n_cpus : ℕ
n_cpus = 4

-- Static variables are zeroed.
abbrev pub fresh_csan : Csan
fresh_csan = record { cur = λ i. 0; old1 = λ i. 0; old2 = λ i. 0; old3 = λ i. 0 }

abbrev pub set_cpu {ℓ} : {A : Type ℓ} → ℕ → A → (ℕ → A) → ℕ → A
set_cpu i v f j = if i == j then v else f j

abbrev pub match_cpu : ℕ → Csan → ℕ → Bool
match_cpu addr s i =
    (addr == s.cur i) || ((addr == s.old1 i) || ((addr == s.old2 i) || (addr == s.old3 i)))

-- The loop from the cpu `i` on, with `n` cpus to go.
abbrev pub match_loop : ℕ → Csan → ℕ → ℕ → Bool
match_loop addr s i zero = false
match_loop addr s i (suc n) = match_cpu addr s i || match_loop addr s (i + 1) n

unfoldable pub match_addr : ℕ → Csan → Bool
match_addr addr s = match_loop addr s 0 n_cpus

unfoldable pub arm : ℕ → ℕ → Csan → Csan
arm cpu addr s = record {
  old3 = set_cpu cpu (s.old2 cpu) s.old3;
  old2 = set_cpu cpu (s.old1 cpu) s.old2;
  old1 = set_cpu cpu (s.cur cpu) s.old1;
  cur = set_cpu cpu addr s.cur;
}

unfoldable pub disarm : ℕ → Csan → Csan
disarm cpu s = arm cpu 0 s

unfoldable pub clear : ℕ → Csan → Csan
clear cpu s = record {
  old3 = set_cpu cpu 0 s.old3;
  old2 = set_cpu cpu 0 s.old2;
  old1 = set_cpu cpu 0 s.old1;
  cur = set_cpu cpu 0 s.cur;
}

-- Whether a read traps, where the byte is `t0` before and `t1` after the wait.
unfoldable pub csan_read1 : ℕ → ℕ → ℕ → Csan → Bool
csan_read1 addr t0 t1 s = match_addr addr s || not (t0 == t1)

-- A write, before and after its wait. The write itself comes after the hook.
unfoldable pub csan_write1_begin : ℕ → ℕ → Csan → Csan
csan_write1_begin cpu addr s = arm cpu addr s

unfoldable pub csan_write1_end : ℕ → Csan → Csan
csan_write1_end cpu s = disarm cpu s

abbrev pub is_releasing : Order → Bool
is_releasing relaxed = false
is_releasing consume = false
is_releasing acquire = false
is_releasing release = true
is_releasing acq_rel = true
is_releasing seq_cst = true

-- `__tsan_atomic8_store`, `__tsan_atomic8_fetch_add` and `__tsan_atomic_thread_fence`: after the
-- operation itself, whose value the detector does not look at.
unfoldable pub csan_atomic : ℕ → Order → Csan → Csan
csan_atomic cpu order s = if is_releasing order then clear cpu s else s
