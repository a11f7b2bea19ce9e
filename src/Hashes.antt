-- ===== src/Hashes.antt =====
-- hashes.c: `FNV1A_32`, on characters that are signed.
use xtest.Base.{ℕ, ◌+◌, ◌*◌, ◌-◌, ◌^◌, List, [], ◌∷◌, ltb, if◌then◌else◌, bit_xor, u32}

-- A `char` where it is widened to 32 bits.
abbrev pub widened32 : ℕ → ℕ
widened32 c = if ltb c 128 then c else c + 2 ^ 32 - 256

unfoldable pub fnv1a_loop : ℕ → List ℕ → ℕ
fnv1a_loop hash [] = hash
fnv1a_loop hash (c ∷ s) = fnv1a_loop (u32 (bit_xor hash (widened32 c) * 16777619)) s

unfoldable pub fnv1a_32 : List ℕ → ℕ
fnv1a_32 s = fnv1a_loop 2166136261 s
