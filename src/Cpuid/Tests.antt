-- ===== src/Cpuid/Tests.antt =====
-- A processor of the vendor AuthenticAMD.
use xtest.Base.{
  ℕ, ◌+◌, ◌*◌, ◌/◌, ◌%◌, ◌^◌, ◌≡◌, true, false, none, arith, refl, ◌==◌, if◌then◌else◌,
}
use xtest.Cpuid.Flag.{Regs}
use xtest.Cpuid.Main.{Cpu, vendor, same_bytes, authentic_amd, cpuid_main, family, model, stepping}
use xtest.Cpuid.Family.{signature_round_trip}
use xtest.Cpuid.Reach.{prints_leaf, svm_lem}

abbrev some_regs : Regs
some_regs = record { a = 0; b = 0x20020028; c = 0; d = 0 }

-- Leaf 0 of a processor of the family 17h; every other leaf is zero.
abbrev zen_leaves : ℕ → ℕ → Regs
zen_leaves l s =
    if l == 0
    then record { a = 0xd; b = 0x68747541; c = 0x444d4163; d = 0x69746e65 }
    else record { a = 0; b = 0; c = 0; d = 0 }

abbrev zen : Cpu
zen = record { cpuid_count = zen_leaves; get_cpuid = λ l. none }

signature_round_trip_example :
    0x00870f10
    ≡ stepping 0x00870f10
      + 2 ^ 4 * (model 0x00870f10 % 16)
      + 2 ^ 8 * (family 0x00870f10 % 16)
      + 2 ^ 12 * (0x00870f10 / 2 ^ 12 % 16)
      + 2 ^ 16 * (model 0x00870f10 / 16)
      + 2 ^ 20 * (family 0x00870f10 / 16)
signature_round_trip_example = signature_round_trip 0x00870f10 (omega arith)

zen_is_amd : same_bytes (vendor (zen.cpuid_count 0 0)) authentic_amd ≡ true
zen_is_amd = refl

zen_svm : prints_leaf 0x8000000a (cpuid_main zen) ≡ false
unfolding cpuid_main
zen_svm = svm_lem zen
