-- ===== src/CpHash/Nftw.antt =====
-- `nftw`, as its manual has it: it hands over each file, and ends at the first callback that does not
-- return 0.
use xtest.Base.{
  Bool, true, false, List, [], ◌∷◌, Outcome, done, undefined, timeout, ◌>>=◌, Ensures, Returns,
  refl,
}
use xtest.CpHash.Copy.{SourceFile}

module _ {State : Type 0} where
  abbrev pub go_on : (State → Outcome (Bool × State)) → Bool × State → Outcome (Bool × State)
  go_on rest (true, s) = rest s
  go_on rest (false, s) = done (false, s)

  unfoldable pub nftw :
      (SourceFile → State → Outcome (Bool × State))
      → List SourceFile
      → State
      → Outcome (Bool × State)
  nftw fn [] s = done (true, s)
  nftw fn (f ∷ rest) s = do r ← fn f s; go_on (nftw fn rest) r

-- The rules for a walk: an invariant that each callback keeps, and callbacks that always return.
abbrev pub All : (SourceFile → Type 0) → List SourceFile → Type 0
All Q [] = Unit {0}
All Q (f ∷ rest) = Q f × All Q rest

module _ {State : Type 0} (fn : SourceFile → State → Outcome (Bool × State))
    (Q : SourceFile → Type 0) (P : State → Type 0)
    (keeps : (f : SourceFile) (s : State) → Q f → P s → Ensures (fn f s) (λ (ok, t). P t)) where
  go_on-Ensures :
      (rest : List SourceFile) (o : Outcome (Bool × State))
      → Ensures o (λ (ok, t). P t)
      → ((s : State) → P s → Ensures (nftw fn rest s) (λ (ok, t). P t))
      → Ensures (o >>= go_on (nftw fn rest)) (λ (ok, t). P t)
  go_on-Ensures rest (done (true, s)) p more = more s p
  go_on-Ensures rest (done (false, s)) p more = p
  go_on-Ensures rest undefined p more = tt
  go_on-Ensures rest timeout p more = tt

  pub nftw-Ensures :
      (files : List SourceFile) (s : State)
      → All Q files
      → P s
      → Ensures (nftw fn files s) (λ (ok, t). P t)
  unfolding nftw
  nftw-Ensures [] s all p = p
  nftw-Ensures (f ∷ rest) s (q, all) p =
      go_on-Ensures rest (fn f s) (keeps f s q p) (λ t p'. nftw-Ensures rest t all p')

module _ {State : Type 0} (fn : SourceFile → State → Outcome (Bool × State))
    (Q : SourceFile → Type 0)
    (returns : (f : SourceFile) (s : State) → Q f → Returns (fn f s)) where
  pub nftw-Returns : (files : List SourceFile) (s : State) → All Q files → Returns (nftw fn files s)
  unfolding nftw
  nftw-Returns [] s all = ((true, s), refl)
  nftw-Returns (f ∷ rest) s (q, all) =
      let ((ok, t), e) = returns f s q in rw e (after ok t (nftw-Returns rest t all))
    where
      after :
          (ok : Bool) (t : State)
          → Returns (nftw fn rest t)
          → Returns (go_on (nftw fn rest) (ok, t))
      after true t r = r
      after false t r = ((false, t), refl)
