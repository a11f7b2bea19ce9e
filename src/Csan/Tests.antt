-- ===== src/Csan/Tests.antt =====
-- cpu 1 writes one byte and reads it back.
use xtest.Base.{ℕ, ◌≡◌, true, not, ◌||◌, ◌==◌, [], ◌∷◌, refl, arith}
use xtest.Csan.{
  Csan, fresh_csan, set_cpu, csan_read1, match_addr, csan_write1_begin, csan_write1_end,
}
use xtest.Csan.Recent.{Writer, idle, busy, Trace, boot, begins, ends, wrote_lately, csan_read1_lem}

abbrev all_idle : ℕ → Writer
all_idle i = idle []

abbrev in_write : ℕ → Writer
in_write = set_cpu 1 (busy (5 ∷ [])) all_idle

abbrev written : ℕ → Writer
written = set_cpu 1 (idle (5 ∷ [])) in_write

abbrev after_write : Csan
after_write = csan_write1_end 1 (csan_write1_begin 1 5 fresh_csan)

one_write : Trace written after_write
one_write =
    ends in_write (csan_write1_begin 1 5 fresh_csan) 1 (5 ∷ [])
      (begins all_idle fresh_csan 1 5 [] (boot all_idle (λ i. refl)) (omega arith) refl)
      (omega arith) refl

csan_read1_lem_example : csan_read1 5 0 0 after_write ≡ (
    wrote_lately 5 (written 0)
    || (wrote_lately 5 (written 1) || (wrote_lately 5 (written 2) || wrote_lately 5 (written 3)))
    || not (◌==◌ 0 0))
csan_read1_lem_example = csan_read1_lem written after_write 5 0 0 one_write (omega arith)

own_write : csan_read1 5 0 0 after_write ≡ true
unfolding csan_read1 match_addr
own_write = csan_read1_lem_example
