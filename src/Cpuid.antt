-- ===== src/Cpuid.antt =====
-- cpuid.c: what the program prints of the processor, for any `cpuid` instruction.
pub mod Flag
pub mod Basic
pub mod Extended
pub mod Main
pub mod Family
pub mod Reach
pub mod Tests
