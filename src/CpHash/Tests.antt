-- ===== src/CpHash/Tests.antt =====
-- A destination with one file, a source with a copy of it and a new file, and a sum for MD5.
use xtest.Base.{◌≡◌, Bool, false, [], ◌∷◌, Ensures, done, ◌⊎◌, arith, refl}
use xtest.CpHash.Copy.{SourceFile, copy}
use xtest.CpHash.Walk.{State, cb, run, fresh}
use xtest.CpHash.Keeps.{Kept, Copied, copy-Copied}
use xtest.CpHash.Sample.{linux, linux-IsOs, sum, file, tree}
use xtest.CpHash.Nftw.{nftw}
use xtest.CpHash.Backup.{AllBacked}
use xtest.CpHash.Main.{backup}
use xtest.CpHash.Counts.{IsCounted, counts_agree}

abbrev old : SourceFile
old = file (1 ∷ []) (5 ∷ 6 ∷ [])

abbrev new : SourceFile
new = file (3 ∷ 2 ∷ []) (7 ∷ [])

copy-Copied_example : Ensures (copy linux sum new 7 tree) (λ (ok, w). Copied sum new 7 tree w ok)
copy-Copied_example = copy-Copied linux linux-IsOs sum new 7 tree (omega arith)

backup_example :
    (ok : Bool) × (u : State) × (run linux sum (old ∷ []) (old ∷ new ∷ []) (fresh tree)
      ≡ done (ok, u))
    × Kept tree u.tree
    × ((ok ≡ false) ⊎ AllBacked sum u.tree (old ∷ new ∷ []))
backup_example =
    backup linux sum tree (old ∷ []) (old ∷ new ∷ []) linux-IsOs (λ p c. (c, refl)) (refl, tt)
      (refl, tt) (omega arith, (omega arith, tt)) (refl, (refl, tt))

counts_agree_example :
    (ok : Bool) × (t : State) × (nftw (cb linux sum) (new ∷ []) (fresh tree) ≡ done (ok, t))
    × IsCounted 0 t
counts_agree_example =
    counts_agree linux sum 0 (new ∷ []) (fresh tree) (λ p c. (c, refl)) (refl, tt) (omega arith)
