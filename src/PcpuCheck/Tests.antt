-- ===== src/PcpuCheck/Tests.antt =====
-- One thread, hashing in the first loop.
use xtest.Base.{refl, arith}
use xtest.PcpuCheck.{
  look, checking, Machine, set_ack, set_args, set_go, wait, booted, moved, fills, acks, passes,
  goes, stays, starts, Reachable, start, next,
}
use xtest.PcpuCheck.Rounds.{Handed, handed_lem}

abbrev filled : Machine
filled = record booted { at = set_ack; buffer = 1 }

abbrev acked : Machine
acked = record filled { at = set_args; g_ack = 1 }

abbrev passed : Machine
passed = record acked { at = set_go; args = 1 }

abbrev waiting : Machine
waiting = record passed { at = wait; g_go = 1 }

abbrev looking : Machine
looking = moved waiting 0 (record { pc = look; last = 0; seen = 0 })

abbrev hashing : Machine
hashing = moved looking 0 (record { pc = checking; last = 0; seen = 0 })

hashing-Reachable : Reachable 1 hashing
unfolding moved
hashing-Reachable =
    next looking hashing
      (next waiting looking
        (next passed waiting
          (next acked passed
            (next filled acked (next booted filled (start booted refl) (fills booted refl))
              (acks filled refl))
            (passes acked refl))
          (goes passed refl))
        (stays waiting 0 (omega arith) refl refl))
      (starts looking 0 (omega arith) refl (omega arith))

handed_lem_example : Handed 1 hashing
handed_lem_example = handed_lem 1 hashing hashing-Reachable
