-- ===== src/Files/Tests.antt =====
-- A file of four bytes and a `pread` that reads all it is asked for.
use xtest.Base.{
  ◌<◌, undefined, get_or, ◌==◌, if◌then◌else◌, ◌/◌, ◌++◌, ◌↔◌, true, replicate, ℕ, ◌-◌, ◌≡◌, inl,
  inr, refl, List, [], ◌∷◌, Option, none, some, ℕ_discrete, length, take, drop, length-take,
  length-drop, min, done, arith, ap, zero, suc, subst,
}
use xtest.Files.Reading.{Pread, IsPread}
use xtest.Files.Out.{out}
use xtest.Files.Out.Correct.{out_lem}
use xtest.Files.Append0.{Pwrite, append0, append_loop}
use xtest.Files.Append0.Shifted.{append0_lem}
use xtest.Files.Xscan.{buf_a_size, xscan}
use xtest.Files.Xscan.Beyond.{xscan_lem}
use xtest.Files.Zerorun.{zerorun}
use xtest.Files.Zerorun.Runs.{member, IsRun}
use xtest.Files.Zerorun.Correct.{blank, zerorun_lem}

abbrev passwd : List ℕ
passwd = 114 ∷ 111 ∷ 111 ∷ 116 ∷ []

abbrev whole : Pread
whole count offset = some (take count (drop offset passwd))

take-length : (n : ℕ) (xs : List ℕ) → take n xs ≡ take (length (take n xs)) xs
take-length zero xs = refl
take-length (suc n) [] = refl
take-length (suc n) (x ∷ xs) = ap (λ t. x ∷ t) (take-length n xs)

abbrev read : Option (List ℕ) → List ℕ
read none = []
read (some bytes) = bytes

whole-length :
    (count offset : ℕ) → length (take count (drop offset passwd)) ≡ min count (4 - offset)
whole-length count offset =
    omega (arith, length-take count (drop offset passwd), length-drop offset passwd)

whole-IsPread : IsPread passwd whole
whole-IsPread = record {
  bounded =
      λ count offset bytes e. omega (arith, ap (λ t. length (read t)) e, whole-length count offset);
  faithful = λ count offset bytes e.
      subst (λ t. t ≡ take (length t) (drop offset passwd)) (ap read e)
        (take-length count (drop offset passwd));
  progress = λ count offset e. elim (ℕ_discrete count 0) [
    | yes z ↦ inl z
    | no more ↦ inr (omega (arith, ap (λ t. length (read t)) e, whole-length count offset))
  ];
}

out_lem_example : out whole 1 4 ≡ done (111 ∷ 111 ∷ 116 ∷ [])
out_lem_example =
    out_lem passwd whole whole-IsPread 1 4 (omega arith) (omega arith) (λ count offset. (_, refl))

-- A block of zeros and a block of ones.
abbrev disk : List ℕ
disk = replicate 512 0 ++ replicate 512 1

abbrev disk_read : Pread
disk_read count offset = some (take count (drop offset disk))

zerorun_lem_example :
    (printed : List (ℕ × ℕ)) × (zerorun disk_read (length disk) ≡ (0, printed))
    × ((a b : ℕ) → (member a b printed ≡ true) ↔ IsRun (blank disk) (length disk / 512) a b)
zerorun_lem_example = zerorun_lem disk disk_read (λ k h. refl) (omega arith)

abbrev all_written : Pwrite
all_written file offset bytes = some (length bytes)

append0_runs :
    append0 whole all_written true 5 (7 ∷ 8 ∷ []) passwd
    ≡ done (true, 7 ∷ 8 ∷ 0 ∷ 0 ∷ 0 ∷ 0 ∷ 114 ∷ 111 ∷ 111 ∷ 116 ∷ [])
unfolding append0 append_loop
append0_runs = refl

append0_lem_example :
    (out : List ℕ) × (append0 whole all_written true 5 (7 ∷ 8 ∷ []) passwd ≡ done (true, out))
    × (take 7 out ≡ 7 ∷ 8 ∷ ((replicate 4 0) ++ 114 ∷ []))
    × (6 < length out)
append0_lem_example =
    append0_lem whole all_written passwd whole-IsPread (λ count off e. absurd (cc))
      (λ file off bytes. refl) (7 ∷ 8 ∷ []) 114 (111 ∷ 111 ∷ 116 ∷ []) refl (omega arith)

-- A buffer of zeros, which is not computed.
zero_buffer : (n : ℕ) → (xs : List ℕ) × (length xs ≡ n) × ((k : ℕ) → get_or xs k 0 ≡ 0)
zero_buffer zero = ([], refl, λ k. refl)
zero_buffer (suc n) =
    let (xs, len, zeros) = zero_buffer n in (0 ∷ xs, ap suc len, after_zero xs zeros)
  where
    after_zero : (xs : List ℕ) → ((k : ℕ) → get_or xs k 0 ≡ 0) → (k : ℕ) → get_or (0 ∷ xs) k 0 ≡ 0
    after_zero xs zeros zero = refl
    after_zero xs zeros (suc k) = zeros k

abbrev blank_disk : Pread
blank_disk count offset =
    if offset == 0
    then some (zero_buffer buf_a_size).0
    else if offset == buf_a_size
    then some (1 ∷ [])
    else some []

xscan_lem_example : xscan blank_disk 1048577 ≡ undefined
xscan_lem_example =
    xscan_lem blank_disk 1048577 1 (zero_buffer buf_a_size).0 [] (omega arith) refl
      (zero_buffer buf_a_size).1 (zero_buffer buf_a_size).2
      (ap (blank_disk buf_a_size) (zero_buffer buf_a_size).1)
