-- ===== src/Cpuid/Reach.antt =====
-- Which leaves are printed.
use xtest.Base.{
  ℕ, ◌==◌, ◌≡◌, not, ◌&&◌, ◌||◌, if◌then◌else◌, Bool, true, false, List, [], ◌∷◌, refl,
}
use xtest.Cpuid.Main.{
  Cpu, Item, leaf, bytes, words, family_model_stepping, cpu_type, svm_rev, nasid, vendor,
  same_bytes, authentic_amd, int_below, svm_features, late_leaves, middle_leaves, cpuid_main,
}

-- Whether a leaf's registers are among what is printed.
abbrev pub prints_leaf : ℕ → List Item → Bool
prints_leaf l [] = false
prints_leaf l (leaf k s r ∷ rest) = (k == l) || prints_leaf l rest
prints_leaf l (bytes b ∷ rest) = prints_leaf l rest
prints_leaf l (words w ∷ rest) = prints_leaf l rest
prints_leaf l (family_model_stepping f m s ∷ rest) = prints_leaf l rest
prints_leaf l (cpu_type t ∷ rest) = prints_leaf l rest
prints_leaf l (svm_rev v ∷ rest) = prints_leaf l rest
prints_leaf l (nasid n ∷ rest) = prints_leaf l rest

prints-if :
    (c : Bool) (items : List Item) (b : Bool)
    → prints_leaf 0x8000000a items ≡ b
    → prints_leaf 0x8000000a (if c then [] else items) ≡ (not c && b)
prints-if true items b h = refl
prints-if false items b h = h

prints_svm-late : (cpu : Cpu) (amd : Bool) → prints_leaf 0x8000000a (late_leaves cpu amd) ≡ amd
unfolding late_leaves svm_features
prints_svm-late cpu true = refl
prints_svm-late cpu false = refl

prints_svm-middle :
    (cpu : Cpu) (amd : Bool)
    → prints_leaf 0x8000000a (middle_leaves cpu amd)
      ≡ (not (int_below (cpu.cpuid_count 0x8000000 0).a 8) && amd)
unfolding middle_leaves
prints_svm-middle cpu amd =
    prints-if (int_below (cpu.cpuid_count 0x8000000 0).a 8) (late_leaves cpu amd) amd
      (prints_svm-late cpu amd)

-- The SVM features are printed exactly when eax of leaf 0 is at least 5, eax of the leaf 0x8000000
-- (not of 0x80000000) is at least 8, both as signed ints, and the vendor is AuthenticAMD.
pub svm_lem :
    (cpu : Cpu)
    → prints_leaf 0x8000000a (cpuid_main cpu) ≡ (
        not (int_below (cpu.cpuid_count 0 0).a 5)
        && (not (int_below (cpu.cpuid_count 0x8000000 0).a 8)
            && same_bytes (vendor (cpu.cpuid_count 0 0)) authentic_amd))
unfolding cpuid_main
svm_lem cpu =
    let amd = same_bytes (vendor (cpu.cpuid_count 0 0)) authentic_amd in
    prints-if (int_below (cpu.cpuid_count 0 0).a 5) (middle_leaves cpu amd) _
      (prints_svm-middle cpu amd)
