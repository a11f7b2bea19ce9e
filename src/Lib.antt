-- ===== src/Lib.antt =====
-- xtest, a collection of small C and C++ programs: number-theory programs (the Euler problems), and systems
-- tools. Each is modelled by itself; they share no state, and meet where workqueue.c calls
-- barrier.c, and cpcr2.cc calls cp.c.
--
-- Which module models which file:
--   Prime       test_prime.c: `modexp`, the bitmap (`bit`, `setbit`, `bits`), `sieve`,
--               `sieve2`, `miller_rabin_test` and `isprime`. 216.c, 35.c, 37.c, 381.c, 387.c
--               and 387b.c have copies of most of these, some of them changed.
--   Rotations   35.c: `rotate` and `main`, over Prime's `sieve2` and `isprime`. The arithmetic in
--               `double` is the record `FloatMath`, with its documented precision `IsFloatMath`.
--   TwoSided    37.c: `main`, over the same `sieve2` and `isprime`. Decimal has the powers of ten that
--               both use, Prime/Search what their searches through a table share.
--   StrongHarshad  387.c: `main` and `is_right_truncatable`, over Prime and Truncatable.
--   Squares     jacobi.c: `jacobi` and `issquare`, with the square root as a parameter.
--   Phash       phash.cc: `thr` and `main` as a relation with one step for each stretch under the
--               mutex.
--   Factorials  381.c: `fact_mod` and `t`.
--   Pwc         pwc.c: `lines`, the two FIFOs (`push`, `wpush`, the readers' loops) and the threads
--               (`file_cb`, `reap_done`, `main` on one side, `iothread` on the other) as a relation
--               with one step for each access to a shared counter or slot.
--   Workqueue   workqueue.c and barrier.c: the queues with their threads, clients inside `workqueue()`,
--               and the barriers' counts. What a mutex guards is one step.
--   Gcd         443.c: `gcd`, `gcdfast`, `g` and `gfast` with its one-entry memo.
--   Truncatable 387b.c: `sum_digs`, `is_harshad`, and `is_right_truncatable` with its memo.
--   Files       out.c, append0.c, xscan.c and zerorun.c (`sum`, and the scan of `main`), with `pread` as a
--               parameter; its manual's promises are the record `IsPread`.
--   Tsan        san/tsan.c: the hooks for reads, writes, stores that release and loads that acquire,
--               and the table of locations.
--   CpHash      cphash.cc: `mkpath`, `copy`, `FNV32`, `cb`, `prefill` and the walks of `main`. The
--               system's calls are the record `Os` with their documented behaviour `IsOs`, MD5 is a
--               parameter, and `nftw` calls a callback on each file until one does not return 0.
--   Cpex        cpex.cc: `cb1`, `prefill_dstA` and `main`, with CpHash's `copy`, which both files have.
--   CountCpHash countcphash.cc: `fnvpath`, `cb` and the walk. Hashes has hashes.c's `FNV1A_32`.
--   CmpDir      cmpdir.cc: `cbA`, `cbB` and `main`.
--   Cp          cp.c: `copy_file` and `copy_file_hash`, with the result of each call as a parameter.
--   Cpcr2       cpcr2.cc: `processfile`, its work item and `main`, which call cp.c's two functions.
--   Transactor  transactor.cc: the walks of the reference and of the candidates.
--   PcpuCheck   pcpucheck.cc: how `main` and the threads of `check` pass a buffer, as a relation with
--               one step for each access to an atomic variable.
--   DbMerge     dbmerge.cc: the loop of `main`, with LevelDB's `Get` and `Put` as a parameter.
--   Csan        san/csan.c: `match`, `arm`, `clear` and the hooks.
--   DbTransactor  dbtransactor.cc: the two scans, each over the values that an iterator shows.
--   Cpuid       cpuid.c: the whole of `main`, its feature bits as tables.
--   Base        what they share: tests, lists, results of C code, casts, lemmas.
--
-- How C is modelled. A number is a natural number, with the width of its C type written where it
-- can wrap. What C leaves undefined (an access out of bounds, a signed overflow, a division by
-- zero, a use of what was freed) is the result `undefined`, and a loop that has used up its fuel is
-- `timeout`; a theorem that code ends in `done r` therefore says that neither happens. Fuel is a
-- number the code's own bound gives: 65 rounds for a loop that halves a 64-bit number, the limit
-- for the loops of `sieve`, one more than the length for `lines`, 21 rounds for the 20 digits of a
-- 64-bit number, one more than the second argument for `gcdfast`, one more than the bytes asked for
-- in `out`, one more than the source's bytes in `append0`, 6 and 5 rounds for the digits of a number
-- below 10 ^ 6 in Rotations and TwoSided, 18 rounds of `jacobi` for remainders by 17, 20 for the digits of a sequence number in cpcr2.cc; `g` and `gfast` take theirs as an
-- argument, the recursion depth. Memory orders are taken as sequentially consistent, and the
-- counters of pwc.c, workqueue.c, barrier.c, san/tsan.c and of the programs that walk trees and
-- databases to stay in the range of their types. A path, a hash as text and a record's key are
-- numbers or lists of numbers, compared as the code compares them, and a hash set is the list of
-- its elements.
--
-- Not modelled: `main` of the number programs but for 35.c, 37.c and 387.c, all printing, `ftw` and `mmap` (a visit hands
-- over any file), callbacks of workqueue.c (a name that is put on record when it runs), thread
-- creation, descriptors and strings where no property of a file tool depends on them, MD5 and
-- LevelDB (parameters), the other C++ programs, and the programs that only drive hardware, sockets
-- or libraries.
pub mod Base
pub mod CmpDir
pub mod CountCpHash
pub mod Cp
pub mod CpHash
pub mod Cpcr2
pub mod Cpex
pub mod Cpuid
pub mod Csan
pub mod DbMerge
pub mod DbTransactor
pub mod Decimal
pub mod Factorials
pub mod Files
pub mod Gcd
pub mod Hashes
pub mod PcpuCheck
pub mod Phash
pub mod Prime
pub mod Pwc
pub mod Rotations
pub mod Squares
pub mod StrongHarshad
pub mod Transactor
pub mod Truncatable
pub mod Tsan
pub mod TwoSided
pub mod Workqueue
