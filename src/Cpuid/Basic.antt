-- ===== src/Cpuid/Basic.antt =====
-- The feature bits that cpuid.c prints, leaves 1 and 7. Each row is an `if` and the `printf` under it.
use xtest.Base.{List, [], ◌∷◌}
use xtest.Cpuid.Flag.{eax, ebx, ecx, edx, Flag, flag}

abbrev pub leaf_1 : List Flag
leaf_1 =
    flag edx 11 "sep"
    ∷ flag edx 25 "sse"
    ∷ flag edx 26 "sse2"
    ∷ flag ecx 0 "sse3"
    ∷ flag ecx 3 "monitor"
    ∷ flag edx 27 "ss"
    ∷ flag ecx 0 "sse3"
    ∷ flag ecx 1 "pclmulqdq"
    ∷ flag ecx 9 "ssse3"
    ∷ flag ecx 13 "cx16"
    ∷ flag ecx 19 "sse4.1"
    ∷ flag ecx 20 "sse4.2"
    ∷ flag ecx 22 "movbe"
    ∷ flag ecx 23 "popcnt"
    ∷ flag ecx 25 "aesni"
    ∷ flag ecx 26 "xsave"
    ∷ flag ecx 27 "osxsave"
    ∷ flag ecx 28 "avx"
    ∷ flag ecx 31 "hypervisor"
    ∷ []

abbrev pub leaf_7_0 : List Flag
leaf_7_0 =
    flag ebx 3 "bmi1"
    ∷ flag ebx 5 "avx2"
    ∷ flag ebx 7 "smep"
    ∷ flag ebx 9 "erms"
    ∷ flag ebx 16 "avx512f"
    ∷ flag ebx 17 "avx512-dq"
    ∷ flag ebx 20 "smap"
    ∷ flag ebx 21 "avx512-ifma"
    ∷ flag ecx 5 "waitpkg"
    ∷ flag ecx 11 "avx512-vnni"
    ∷ flag edx 4 "fsrm"
    ∷ flag edx 9 "ia32_mcu_opt_ctrl"
    ∷ flag edx 10 "md_clear"
    ∷ flag edx 22 "amx-bf16"
    ∷ flag edx 24 "amx-tile"
    ∷ flag edx 25 "amx-int8"
    ∷ flag edx 26 "ibrs"
    ∷ flag edx 27 "stibp"
    ∷ flag edx 28 "l1d_flush"
    ∷ flag edx 29 "ia32_arch_capabilities"
    ∷ flag edx 30 "ia32_core_capabilities"
    ∷ flag edx 31 "ssbd"
    ∷ []

abbrev pub leaf_7_1 : List Flag
leaf_7_1 =
    flag eax 6 "lass"
    ∷ flag eax 10 "fast_zero_rep_movsb"
    ∷ flag eax 11 "fast_short_rep_stosb"
    ∷ flag eax 12 "fast_short_rep_cmpsb_scasb"
    ∷ flag eax 21 "amx-fp16"
    ∷ flag eax 22 "hreset"
    ∷ flag eax 23 "avx-ifma"
    ∷ flag eax 26 "lam"
    ∷ flag eax 27 "msrlist"
    ∷ flag eax 30 "invd_disable_post_bios_done"
    ∷ flag edx 13 "utmr"
    ∷ flag edx 14 "prefetchi"
    ∷ flag edx 15 "user_msr"
    ∷ []

abbrev pub leaf_7_2 : List Flag
leaf_7_2 =
    flag edx 0 "psfd"
    ∷ flag edx 1 "ipred_ctrl"
    ∷ flag edx 2 "rrsba_ctrl"
    ∷ flag edx 3 "ddpd_u"
    ∷ flag edx 4 "bhi_ctrl"
    ∷ flag edx 5 "mcdt_no"
    ∷ flag edx 7 "monitor_mitg_no"
    ∷ []
