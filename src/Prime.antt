-- ===== src/Prime.antt =====
-- The number theory that the Euler programs share (test_prime.c, 387b.c and others).
pub mod Modexp
pub mod Bitmap
pub mod Sieve
pub mod Wheel
pub mod MillerRabin
pub mod Trial
pub mod Search
mod Tests
