-- ===== src/Files.antt =====
-- The tools that read files. A file is the list of its bytes, and `pread` a parameter.
pub mod Reading
pub mod Out
pub mod Append0
pub mod Zerorun
pub mod Xscan
pub mod Tests
