-- ===== src/StrongHarshad/Memo.antt =====
-- The memo of 387b.c does not change what 387.c computes.
use xtest.Base.{ℕ, ◌^◌, ◌<◌, ◌≡◌, ◌↔◌, Bool, true, false, done, arith, ap, refl, ◌∙◌, sym}
use xtest.Truncatable.{Memo, truncate_loop}
use xtest.Truncatable.Correct.{IsValid, truncate_loop_lem, is_right_truncatable_lem}
use xtest.StrongHarshad.{is_right_truncatable}

same_test : (a b : Bool) {P : Type 0} → ((a ≡ true) ↔ P) → ((b ≡ true) ↔ P) → a ≡ b
same_test true b p q = sym (q.1 (p.0 refl))
same_test false true p q = p.1 (q.0 refl)
same_test false false p q = refl

-- With any valid memo, for any 64-bit number, the search of 387b.c gives the answer of the search of
-- 387.c, which has none, and leaves a valid memo.
pub is_right_truncatable-memo :
    (m : Memo) (n : ℕ)
    → n < 2 ^ 64
    → IsValid m
    → (answer : Bool) × (after : Memo) × (is_right_truncatable n ≡ done answer)
      × (xtest.Truncatable.is_right_truncatable m n ≡ done (answer, after))
      × IsValid after
unfolding is_right_truncatable
is_right_truncatable-memo m n lt v =
    let (a, after, e, p, v') = is_right_truncatable_lem m n lt v in
    let (b, e', q) = truncate_loop_lem 20 n (omega arith) lt in
    (a, after, e' ∙ ap done (same_test b a q p), e, v')
