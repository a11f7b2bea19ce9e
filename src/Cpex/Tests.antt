-- ===== src/Cpex/Tests.antt =====
-- A walk of one new file, from a state in which A has nothing.
use xtest.Base.{◌≡◌, Bool, [], ◌∷◌, done, refl, arith}
use xtest.CpHash.Sample.{linux, linux-IsOs, sum, file, tree}
use xtest.CpHash.Copy.{SourceFile}
use xtest.CpHash.Nftw.{nftw}
use xtest.Cpex.{Copier, cb1, no_files}
use xtest.Cpex.Placed.{Visited, cpex_places}

abbrev new : SourceFile
new = file (3 ∷ 2 ∷ []) (7 ∷ [])

cpex_places_example :
    (ok : Bool) × (t : Copier) × (nftw (cb1 linux sum) (new ∷ []) (no_files tree) ≡ done (ok, t))
    × Visited sum (new ∷ []) (no_files tree) t ok
cpex_places_example =
    cpex_places linux sum (new ∷ []) (no_files tree) linux-IsOs (λ p c. (c, refl)) (omega arith, tt)
      (refl, tt)
