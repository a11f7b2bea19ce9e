-- ===== src/Phash.antt =====
-- phash.cc: threads that take files off a vector and run a command on each, and `main`, which waits for
-- them. What is done under the mutex is one step, and a command's run another. A file is a number.
pub mod Owners
pub mod Waiting
pub mod Tests
use xtest.Base.{ℕ, ◌+◌, ◌-◌, ◌<◌, ◌≡◌, ◌≢◌, List, [], ◌∷◌}
use xtest.Base.Family.{change}

-- Where a thread is: before it takes the mutex, in its command, or gone.
pub data Pc : Type 0 where
  idle : Pc
  busy : ℕ → Pc
  gone : Pc

-- Where `main` is: before it reads `running`, in `pthread_cond_wait`, or at its end.
pub data MainPc : Type 0 where
  look : MainPc
  asleep : MainPc
  returned : MainPc

-- The end of the vector, where files are taken off, is the head of `files`; `ran` has the files whose
-- command has been run.
pub record Pool : Type 0 where
  pub files : List ℕ
  pub running : ℕ
  pub at : ℕ → Pc
  pub main : MainPc
  pub ran : List ℕ

-- `pthread_cond_signal(&wait_)`
abbrev pub woken : MainPc → MainPc
woken look = look
woken asleep = look
woken returned = returned

-- When `main` enters its last loop.
abbrev pub started : ℕ → List ℕ → Pool
started nproc files = record {
  files = files;
  running = nproc;
  at = λ t. idle;
  main = look;
  ran = [];
}

pub data Step (nproc : ℕ) : Pool → Pool → Type 0 where
  takes :
      (s : Pool) (t file : ℕ) (rest : List ℕ)
      → t < nproc
      → s.at t ≡ idle
      → s.files ≡ file ∷ rest
      → Step nproc s (record s { files = rest; at = change s.at t (busy file) })
  runs :
      (s : Pool) (t file : ℕ)
      → t < nproc
      → s.at t ≡ busy file
      → Step nproc s (record s { at = change s.at t idle; ran = file ∷ s.ran })
  leaves :
      (s : Pool) (t : ℕ)
      → t < nproc
      → s.at t ≡ idle
      → s.files ≡ []
      → Step nproc s
          (record s { running = s.running - 1; at = change s.at t gone; main = woken s.main })
  sleeps :
      (s : Pool)
      → s.main ≡ look
      → ◌≢◌ {A = ℕ} s.running 0
      → Step nproc s (record s { main = asleep })
  wakes : (s : Pool) → s.main ≡ asleep → Step nproc s (record s { main = look })
  returns : (s : Pool) → s.main ≡ look → s.running ≡ 0 → Step nproc s (record s { main = returned })

pub data Reachable (nproc : ℕ) (files : List ℕ) : Pool → Type 0 where
  start : (s : Pool) → s ≡ started nproc files → Reachable nproc files s
  next : (s t : Pool) → Reachable nproc files s → Step nproc s t → Reachable nproc files t
