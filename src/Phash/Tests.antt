-- ===== src/Phash/Tests.antt =====
-- One thread and one file, to the end.
use xtest.Base.{ℕ, ◌+◌, ◌≡◌, [], ◌∷◌, arith, refl}
use xtest.Base.Family.{sum_upto, change}
use xtest.Phash.{
  idle, busy, gone, look, asleep, returned, Pool, started, takes, runs, leaves, sleeps, returns,
  Reachable, start, next,
}
use xtest.Phash.Owners.{holds, times}
use xtest.Phash.Waiting.{Waited, phash_lem}

abbrev first : Pool
first = started 1 (7 ∷ [])

abbrev sleeping : Pool
sleeping = record first { main = asleep }

abbrev taken : Pool
taken = record sleeping { files = []; at = change sleeping.at 0 (busy 7) }

abbrev hashed : Pool
hashed = record taken { at = change taken.at 0 idle; ran = 7 ∷ [] }

abbrev left : Pool
left = record hashed { running = 0; at = change hashed.at 0 gone; main = look }

abbrev ended : Pool
ended = record left { main = returned }

ended-Reachable : Reachable 1 (7 ∷ []) ended
ended-Reachable =
    next left ended
      (next hashed left
        (next taken hashed
          (next sleeping taken
            (next first sleeping (start first refl) (sleeps first refl (omega arith)))
            (takes sleeping 0 7 [] (omega arith) refl refl))
          (runs taken 0 7 (omega arith) refl))
        (leaves hashed 0 (omega arith) refl refl))
      (returns left refl refl)

phash_lem_example :
    ((f : ℕ)
      → times f ended.files + sum_upto (λ i. holds f (ended.at i)) 1 + times f ended.ran
        ≡ times f (7 ∷ []))
    × Waited 1 (7 ∷ []) ended returned
phash_lem_example = phash_lem 1 (7 ∷ []) ended (omega arith) ended-Reachable
