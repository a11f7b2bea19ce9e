-- ===== src/Tsan/Tests.antt =====
-- Two locations with entries, after both cpus came up.
use xtest.Base.{◌≡◌, ◌==◌, if◌then◌else◌, true, false, refl, arith}
use xtest.Tsan.{Detector, lookup, tsan_write1, tsan_atomic8_store, tsan_read1, tsan_atomic8_load}
use xtest.Tsan.Races.{Found, message_passing, false_race}

abbrev booted : Detector
booted = record {
  seqno = λ me c. if me == c then 1 else 0;
  addr = λ i. if i == 0 then 100 else if i == 1 then 200 else 0;
  cpu = λ _. 0;
  seq = λ _. 0;
  rotor = 2;
}

first_Found : Found 100 0 booted
unfolding lookup
first_Found = refl

second_Found : Found 200 1 booted
unfolding lookup
second_Found = refl

message_passing_example :
    (tsan_read1 1 200
      (tsan_atomic8_load 1 100 (tsan_atomic8_store 0 100 (tsan_write1 0 200 booted)))).0
    ≡ false
message_passing_example =
    message_passing booted 100 200 0 1 0 1 first_Found second_Found (omega arith)

false_race_example :
    (tsan_read1 0 200
      (tsan_atomic8_load 0 100 (tsan_write1 0 200 (tsan_atomic8_store 0 100 booted)))).0
    ≡ true
false_race_example =
    false_race booted 100 200 0 1 0 first_Found second_Found (omega arith) (omega arith)
