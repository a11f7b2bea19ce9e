-- ===== src/Factorials/Tests.antt =====
-- 4! + 3! + 2! + 1! + 0! = 34, and 34 % 5 = 4.
use xtest.Base.{◌%◌, ◌≡◌, done, arith, refl}
use xtest.Factorials.{fact_loop, fact_mod, t_loop, t}
use xtest.Factorials.Correct.{factorial_sum, t_lem}

t_runs : t 5 ≡ done 4
unfolding t t_loop fact_mod fact_loop
t_runs = refl

t_lem_example : t 7 ≡ done (factorial_sum 5 1 7 % 7)
t_lem_example = t_lem 7 (omega arith) (omega arith) (omega arith)
