-- ===== src/Exec/Rules.antt =====
-- Rules for runs: a precondition, and a postcondition for each of the two ways a run ends.
use andaime.Remote.{Error, Result, ok, err}
use andaime.Exec.{Run, M, after, ◌>>=◌, ◌>>◌}

pub data Ends {W A : Type 0} (Q : A → Run W → Type 0) (E : Run W → Type 0)
    : Result A × Run W → Type 0 where
  good : (a : A) (s : Run W) → Q a s → Ends Q E (ok a, s)
  bad : (e : Error) (s : Run W) → E s → Ends Q E (err e, s)

-- From a state with `P` the run ends well with `Q`, or in an error with `E`.
abbrev pub Ensures :
    {W A : Type 0} → (Run W → Type 0) → M W A → (A → Run W → Type 0) → (Run W → Type 0) → Type 0
Ensures {W} P m Q E = (s : Run W) → P s → Ends Q E (m s)

module _ {W A B : Type 0} where
  after-Ends :
      (Q : A → Run W → Type 0) (R : B → Run W → Type 0) (E : Run W → Type 0) (f : A → M W B)
      (x : Result A × Run W)
      → Ends Q E x
      → ((a : A) → Ensures (Q a) (f a) R E)
      → Ends R E (after x f)
  after-Ends Q R E f x (good a s q) k = k a s q
  after-Ends Q R E f x (bad e s p) k = bad e s p

  pub bind-Ensures :
      (P : Run W → Type 0) (Q : A → Run W → Type 0) (R : B → Run W → Type 0) (E : Run W → Type 0)
      (m : M W A) (f : A → M W B)
      → Ensures P m Q E
      → ((a : A) → Ensures (Q a) (f a) R E)
      → Ensures P (m >>= f) R E
  unfolding ◌>>=◌
  bind-Ensures P Q R E m f h k s p = after-Ends Q R E f (m s) (h s p) k

module _ {W B : Type 0} where
  pub then-Ensures :
      (P : Run W → Type 0) (Q : Run W → Type 0) (R : B → Run W → Type 0) (E : Run W → Type 0)
      (m : M W (Unit {0})) (k : M W B)
      → Ensures P m (λ _. Q) E
      → Ensures Q k R E
      → Ensures P (m >> k) R E
  unfolding ◌>>◌
  then-Ensures P Q R E m k h g s p = after-Ends (λ _. Q) R E (λ _. k) (m s) (h s p) (λ _. g)
