-- ===== src/Gcd/Tests.antt =====
-- The gcd and the sequence at concrete arguments.
use xtest.Base.{◌≡◌, done, inl, arith, refl}
use xtest.Gcd.{gcd, gcdfast, g, Memo, no_memo, gfast}
use xtest.Gcd.Correct.{IsGcd, gcd-gcdfast}
use xtest.Gcd.Sequence.{rowland, IsValid, gfast-g}

ten_and_eight : IsGcd (gcd 10 8) 10 8 × (gcdfast 10 8 ≡ done (gcd 10 8))
ten_and_eight = gcd-gcdfast 10 8 (omega arith) (omega arith)

gfast-g_example :
    (after : Memo) × (g 3 6 ≡ done (rowland 2))
    × (gfast 3 no_memo 6 ≡ done (rowland 2, after))
    × IsValid after
gfast-g_example = gfast-g 3 2 no_memo (omega arith) (omega arith) (inl refl)
