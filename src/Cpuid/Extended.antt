-- ===== src/Cpuid/Extended.antt =====
-- The feature bits that cpuid.c prints, the leaves from 0x80000001 on. Each row is an `if` and the `printf` under it.
use xtest.Base.{List, [], ◌∷◌}
use xtest.Cpuid.Flag.{eax, ebx, ecx, edx, Flag, flag}

abbrev pub leaf_80000001 : List Flag
leaf_80000001 =
    flag ecx 2 "SVM"
    ∷ flag ecx 5 "ABM"
    ∷ flag ecx 6 "SSE4A"
    ∷ flag ecx 7 "MisAlignSse"
    ∷ flag ecx 8 "3DNowPrefetch"
    ∷ flag ecx 10 "IBS"
    ∷ flag ecx 15 "lwp"
    ∷ flag ecx 16 "fma4"
    ∷ flag ecx 17 "tce"
    ∷ flag ecx 21 "tbm"
    ∷ flag ecx 23 "PerfCtrExtCore"
    ∷ flag ecx 29 "monitorx"
    ∷ []

abbrev pub leaf_80000008 : List Flag
leaf_80000008 =
    flag ebx 12 "ibpb"
    ∷ flag ebx 13 "wbinvd_int"
    ∷ flag ebx 14 "ibrs"
    ∷ flag ebx 15 "stibp"
    ∷ flag ebx 16 "ibrs_always_on"
    ∷ flag ebx 17 "stibp_always_on"
    ∷ flag ebx 18 "ibrs_preferred"
    ∷ flag ebx 19 "IbrsSameMode"
    ∷ flag ebx 20 "EferLmsleUnsupported"
    ∷ flag ebx 24 "ssbd"
    ∷ flag ebx 25 "virt_spec_ctrl"
    ∷ flag ebx 26 "SsbdNotRequired"
    ∷ flag ebx 28 "psfd"
    ∷ flag ebx 29 "BTC_NO"
    ∷ flag ebx 30 "IBPB_RET"
    ∷ []

abbrev pub leaf_8000000a : List Flag
leaf_8000000a =
    flag edx 0 "NP"
    ∷ flag edx 1 "LbrVirt"
    ∷ flag edx 2 "SVML"
    ∷ flag edx 3 "NRIPS"
    ∷ flag edx 4 "TscRateMsr"
    ∷ flag edx 5 "VmcbClean"
    ∷ flag edx 6 "FlushByAsid"
    ∷ flag edx 7 "DecodeAssists"
    ∷ flag edx 8 "PmcVirt"
    ∷ flag edx 10 "PauseFilter"
    ∷ flag edx 12 "PauseFilterThreshold"
    ∷ flag edx 13 "AVIC"
    ∷ flag edx 15 "VMSAVEvirt"
    ∷ flag edx 16 "VGIF"
    ∷ flag edx 20 "SpecCtrl"
    ∷ flag edx 21 "ROGPT"
    ∷ flag edx 23 "HOST_MCE_OVERRIDE"
    ∷ flag edx 24 "TlbiCtl"
    ∷ flag edx 25 "VNMI"
    ∷ flag edx 26 "IbsVirt"
    ∷ flag edx 27 "ExtLvtAvicAccessChg"
    ∷ flag edx 28 "NestedVirtVmcbAddrChk"
    ∷ flag edx 29 "BusLockThreshold"
    ∷ flag edx 30 "IdleHltIntercept"
    ∷ []

abbrev pub leaf_8000001a : List Flag
leaf_8000001a = flag eax 0 "FP128" ∷ flag eax 1 "MOVU" ∷ flag eax 2 "FP256" ∷ []

abbrev pub leaf_80000021 : List Flag
leaf_80000021 =
    flag eax 0 "NoNestedDataBp"
    ∷ flag eax 2 "LFenceAlwaysSerializing"
    ∷ flag eax 5 "VERW_CLEAR"
    ∷ flag eax 6 "NullSelectClearsBase"
    ∷ flag eax 7 "UpperAddressIgnore"
    ∷ flag eax 8 "AutomaticIBRS"
    ∷ flag eax 10 "FastShortRepStosb"
    ∷ flag eax 11 "FastShortRepeCmpsb"
    ∷ flag eax 13 "PrefetchCtlMsr"
    ∷ flag eax 15 "AMD_ERMSB"
    ∷ flag eax 16 "OPCODE_0F017_RECLAIM"
    ∷ flag eax 17 "CpuidUserDis"
    ∷ flag eax 18 "EPSF"
    ∷ flag eax 19 "FAST_REP_SCASB"
    ∷ flag eax 20 "PREFETCHI"
    ∷ flag eax 21 "FP512_DOWNGRADE"
    ∷ flag eax 24 "ERAPS"
    ∷ flag eax 27 "SBPB"
    ∷ flag eax 28 "IBPB_BRTYPE"
    ∷ flag eax 29 "SRSO_NO"
    ∷ flag eax 30 "SRSO_USER_KERNEL_NO"
    ∷ flag eax 31 "SRSO_MSR_FIX"
    ∷ flag ecx 1 "TSA_SQ_NO"
    ∷ flag ecx 2 "TSA_L1_NO"
    ∷ []

abbrev pub leaf_80000022 : List Flag
leaf_80000022 = flag eax 0 "PerfMonV2" ∷ flag eax 1 "LbrStack" ∷ flag eax 2 "LbrAndPmcFreeze" ∷ []
