-- ===== src/CmpDir/Verdict.antt =====
-- What the comparison does with an entry that is not counted.
use xtest.Base.{◌≡◌, true, false, ◌==◌, List, [], ◌∷◌}
use xtest.CpHash.Copy.{SourceFile}
use xtest.CpHash.Walk.{is_wanted}
use xtest.CmpDir.{Side, fnv_path, counted_in, hashed_in}

-- A regular file that is not empty and whose hash is not 0.
abbrev pub IsHashed : SourceFile → Type 0
IsHashed f = (is_wanted f ≡ true) × ((fnv_path f == 0) ≡ false)

after : SourceFile → Side → Side
after f s = hashed_in (fnv_path f) (counted_in f s)

afters : List SourceFile → Side → Side
afters [] s = s
afters (f ∷ rest) s = afters rest (after f s)
