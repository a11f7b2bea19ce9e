-- ===== src/CpHash.antt =====
-- cphash.cc: copies the files of a source tree that a destination does not have yet, told by their MD5
-- sums; each copy is read back and compared. MD5, which the file has from a library, and the system's
-- calls are parameters.
pub mod Fnv
pub mod Os
pub mod Copy
pub mod Nftw
pub mod Walk
pub mod Counts
pub mod Backup
pub mod Main
pub mod Keeps
pub mod Sample
pub mod Tests
