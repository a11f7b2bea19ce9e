-- ===== src/Pwc.antt =====
-- pwc.c: files pass through a ring of 512 slots to a thread that counts their newlines, and back
-- through a second ring to be printed.
pub mod Lines
pub mod Ring
pub mod System
mod Tests
