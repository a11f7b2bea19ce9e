-- ===== src/CmpDir/Tests.antt =====
-- A walk that comes to a directory after one file.
use xtest.Base.{false, [], ◌∷◌}
use xtest.CpHash.Copy.{SourceFile}
use xtest.CpHash.Sample.{file}

abbrev photo : SourceFile
photo = file (1 ∷ []) (5 ∷ 6 ∷ [])

abbrev directory : SourceFile
directory = record (file [] []) { is_file = false }
