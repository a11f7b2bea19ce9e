-- ===== src/Cpuid/Main.antt =====
-- `main`, as the list of what it prints.
use Prim.Native.String.{String}
use xtest.Base.{
  ℕ, ◌/◌, ◌%◌, ◌^◌, ltb, leb, ◌==◌, ◌&&◌, ◌||◌, if◌then◌else◌, Bool, true, false, List, [], ◌∷◌,
  ◌++◌, Option, none, some, bit_and, bit_or,
}
use xtest.Cpuid.Flag.{Regs, print_flags}
use xtest.Cpuid.Basic.{leaf_1, leaf_7_0, leaf_7_1, leaf_7_2}
use xtest.Cpuid.Extended.{
  leaf_80000001, leaf_80000008, leaf_8000000a, leaf_8000001a, leaf_80000021, leaf_80000022,
}

-- The instruction at a leaf and a subleaf, and `__get_cpuid`, which fails on a leaf that is not there.
pub record Cpu : Type 0 where
  pub cpuid_count : ℕ → ℕ → Regs
  pub get_cpuid : ℕ → Option Regs

-- One `printf`. A text is printed up to its first zero byte.
pub data Item : Type 0 where
  leaf : ℕ → ℕ → Regs → Item
  bytes : List ℕ → Item
  words : List String → Item
  family_model_stepping : ℕ → ℕ → ℕ → Item
  cpu_type : ℕ → Item
  svm_rev : ℕ → Item
  nasid : ℕ → Item

abbrev pub word_bytes : ℕ → List ℕ
word_bytes w = w % 256 ∷ w / 256 % 256 ∷ w / 2 ^ 16 % 256 ∷ w / 2 ^ 24 % 256 ∷ []

-- `mfg`
abbrev pub vendor : Regs → List ℕ
vendor r = word_bytes r.b ++ (word_bytes r.d ++ word_bytes r.c)

abbrev pub same_bytes : List ℕ → List ℕ → Bool
same_bytes [] [] = true
same_bytes [] (y ∷ ys) = false
same_bytes (x ∷ xs) [] = false
same_bytes (x ∷ xs) (y ∷ ys) = (x == y) && same_bytes xs ys

-- "AuthenticAMD"
abbrev pub authentic_amd : List ℕ
authentic_amd = 65 ∷ 117 ∷ 116 ∷ 104 ∷ 101 ∷ 110 ∷ 116 ∷ 105 ∷ 99 ∷ 65 ∷ 77 ∷ 68 ∷ []

-- Four of the words of `brand`, which is zeroed.
abbrev pub brand_part : Option Regs → List ℕ
brand_part none = word_bytes 0 ++ (word_bytes 0 ++ (word_bytes 0 ++ word_bytes 0))
brand_part (some r) = word_bytes r.a ++ (word_bytes r.b ++ (word_bytes r.c ++ word_bytes r.d))

abbrev pub brand : Cpu → List ℕ
brand cpu =
    brand_part (cpu.get_cpuid 0x80000002)
    ++ (brand_part (cpu.get_cpuid 0x80000003) ++ brand_part (cpu.get_cpuid 0x80000004))

unfoldable pub family : ℕ → ℕ
family a = bit_or (a / 2 ^ 8 % 16) (bit_and (a / 2 ^ 16) 0xff0)

unfoldable pub model : ℕ → ℕ
model a = bit_or (a / 2 ^ 4 % 16) (bit_and (a / 2 ^ 12) 0xf0)

unfoldable pub stepping : ℕ → ℕ
stepping a = a % 16

-- `highest < n`, where `highest` is an `int` that was given an unsigned number below 2 ^ 32.
abbrev pub int_below : ℕ → ℕ → Bool
int_below highest n = leb (2 ^ 31) highest || ltb highest n

abbrev pub section : Cpu → ℕ → ℕ → (Regs → List Item) → List Item
section cpu l s rest = let r = cpu.cpuid_count l s in leaf l s r ∷ rest r

unfoldable pub svm_features : Cpu → List Item
svm_features cpu =
    section cpu 0x8000000a 0
      λ r. svm_rev (r.a % 16) ∷ nasid r.b ∷ words (print_flags leaf_8000000a r) ∷ []

-- From the leaf 0x80000008 on.
unfoldable pub late_leaves : Cpu → Bool → List Item
late_leaves cpu amd =
    section cpu 0x80000008 0 (λ r. words (print_flags leaf_80000008 r) ∷ [])
    ++ ((if amd then svm_features cpu else [])
        ++ (section cpu 0x8000001a 0 (λ r. words (print_flags leaf_8000001a r) ∷ [])
            ++ (section cpu 0x80000021 0 (λ r. words (print_flags leaf_80000021 r) ∷ [])
                ++ section cpu 0x80000022 0 (λ r. words (print_flags leaf_80000022 r) ∷ []))))

-- From the leaf 5 on. The leaf that `highest` is taken from is 0x8000000, as in the code.
unfoldable pub middle_leaves : Cpu → Bool → List Item
middle_leaves cpu amd =
    section cpu 5 0 (λ r. [])
    ++ (section cpu 7 0 (λ r. words (print_flags leaf_7_0 r) ∷ [])
        ++ (section cpu 7 1 (λ r. words (print_flags leaf_7_1 r) ∷ [])
            ++ (section cpu 7 2 (λ r. words (print_flags leaf_7_2 r) ∷ [])
                ++ (section cpu 0x8000000 0 (λ r. [])
                    ++ (section cpu 0x80000001 0 (λ r. words (print_flags leaf_80000001 r) ∷ [])
                        ++ (if int_below (cpu.cpuid_count 0x8000000 0).a 8
                            then []
                            else late_leaves cpu amd))))))

unfoldable pub cpuid_main : Cpu → List Item
cpuid_main cpu =
    let zeroth = cpu.cpuid_count 0 0 in
    leaf 0 0 zeroth
      ∷ bytes (vendor zeroth)
      ∷ bytes (brand cpu)
      ∷ (section cpu 1 0 λ r.
          family_model_stepping (family r.a) (model r.a) (stepping r.a)
          ∷ cpu_type (bit_and r.a 0xf0ff0)
          ∷ words (print_flags leaf_1 r)
          ∷ [])
    ++ (if int_below zeroth.a 5
        then []
        else middle_leaves cpu (same_bytes (vendor zeroth) authentic_amd))
