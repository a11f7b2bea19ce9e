-- ===== src/CpHash/Fnv.antt =====
-- `FNV32`, on characters that are signed.
use xtest.Base.{ℕ, ◌+◌, ◌*◌, ◌-◌, ◌^◌, List, [], ◌∷◌, ltb, if◌then◌else◌, bit_xor, u32}

abbrev pub fnv_prime_32 : ℕ
fnv_prime_32 = 16777619

abbrev pub fnv_offset_32 : ℕ
fnv_offset_32 = 2166136261

-- A `char` where it is widened to 32 bits.
abbrev pub widened : ℕ → ℕ
widened c = if ltb c 128 then c else c + 2 ^ 32 - 256

unfoldable pub fnv_loop : ℕ → List ℕ → ℕ
fnv_loop hash [] = hash
fnv_loop hash (c ∷ s) = fnv_loop (u32 (bit_xor hash (widened c) * fnv_prime_32)) s

unfoldable pub fnv32 : List ℕ → ℕ
fnv32 s = fnv_loop fnv_offset_32 s
