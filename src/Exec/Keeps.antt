-- ===== src/Exec/Keeps.antt =====
-- Runs that keep what is known of the machine and of the updates, however they end.
use andaime.Base.{if◌then◌else◌, Bool, true, false, List, ◌∷◌, Text}
use andaime.Types.{ServiceState}
use andaime.Machine.{Machine, set_service_state}
use andaime.Remote.{Error, Result, ok, err, wrap, Remote}
use andaime.Exec.{
  Update, Run, M, pure, fail, ◌>>=◌, ◌>>◌, handle, on_err, wrapped, finally, on_world, exec,
  with_output, from_result, gets, modify, set_service, send,
}
use andaime.Exec.Rules.{Ends, good, bad, Ensures, bind-Ensures, then-Ensures}

-- A predicate of the machine and the updates, read off a run.
abbrev pub At : {W : Type 0} → (Machine → List Update → Type 0) → Run W → Type 0
At I s = I s.machine s.updates

abbrev pub Keeps : {W A : Type 0} → (Machine → List Update → Type 0) → M W A → Type 0
Keeps I m = Ensures (At I) m (λ _. At I) (At I)

module _ {W A : Type 0} where
  handle-Ends :
      (Q R : A → Run W → Type 0) (E F : Run W → Type 0) (h : Error → M W A) (x : Result A × Run W)
      → Ends Q E x
      → ((a : A) (s : Run W) → Q a s → R a s)
      → ((e : Error) → Ensures E (h e) R F)
      → Ends R F (handle x h)
  handle-Ends Q R E F h x (good a s q) w k = good a s (w a s q)
  handle-Ends Q R E F h x (bad e s p) w k = k e s p

  pub on_err-Ensures :
      (P : Run W → Type 0) (Q : A → Run W → Type 0) (E F : Run W → Type 0) (m : M W A)
      (h : Error → M W A)
      → Ensures P m Q E
      → ((e : Error) → Ensures E (h e) Q F)
      → Ensures P (on_err m h) Q F
  unfolding on_err
  on_err-Ensures P Q E F m h a b s p = handle-Ends Q Q E F h (m s) (a s p) (λ x t q. q) b

module _ {W : Type 0} (I : Machine → List Update → Type 0) where
  pub pure-Keeps : {A : Type 0} (a : A) → Keeps {W = W} I (pure a)
  unfolding pure
  pure-Keeps a s p = good a s p

  pub fail-Keeps : {A : Type 0} (e : Error) → Keeps {W = W} {A = A} I (fail e)
  unfolding fail
  fail-Keeps e s p = bad e s p

  pub test-Keeps :
      {A : Type 0} (t : Bool) (m n : M W A) → Keeps I m → Keeps I n → Keeps I (if t then m else n)
  test-Keeps true m n h k = h
  test-Keeps false m n h k = k

  pub gets-Keeps : {A : Type 0} (f : Machine → A) → Keeps {W = W} I (gets f)
  unfolding gets
  gets-Keeps f s p = good (f s.machine) s p

  pub from_result-Keeps : {A : Type 0} (r : Result A) → Keeps {W = W} I (from_result r)
  unfolding from_result
  from_result-Keeps (ok a) s p = good a s p
  from_result-Keeps (err e) s p = bad e s p

  world-Ends :
      {A : Type 0} (s : Run W) (x : Result A × W)
      → At I s
      → Ends (λ _. At I) (At I) (x.0, record s { world = x.1 })
  world-Ends s (ok a, w) p = good a (record s { world = w }) p
  world-Ends s (err e, w) p = bad e (record s { world = w }) p

  pub on_world-Keeps : {A : Type 0} (f : W → Result A × W) → Keeps I (on_world f)
  unfolding on_world
  on_world-Keeps f s p = world-Ends s (f s.world) p

  pub exec-Keeps : (remote : Remote W) (command : Text) → Keeps I (exec remote command)
  unfolding exec
  exec-Keeps remote command = on_world-Keeps (λ w. with_output (remote.execute command w))

  pub bind-Keeps :
      {A B : Type 0} (m : M W A) (f : A → M W B)
      → Keeps I m
      → ((a : A) → Keeps I (f a))
      → Keeps I (m >>= f)
  bind-Keeps m f = bind-Ensures (At I) (λ _. At I) (λ _. At I) (At I) m f

  pub then-Keeps :
      {B : Type 0} (m : M W (Unit {0})) (k : M W B) → Keeps I m → Keeps I k → Keeps I (m >> k)
  then-Keeps m k = then-Ensures (At I) (At I) (λ _. At I) (At I) m k

  pub on_err-Keeps :
      {A : Type 0} (m : M W A) (h : Error → M W A)
      → Keeps I m
      → ((e : Error) → Keeps I (h e))
      → Keeps I (on_err m h)
  on_err-Keeps m h = on_err-Ensures (At I) (λ _. At I) (At I) (At I) m h

  pub wrapped-Keeps : {A : Type 0} (t : Text) (m : M W A) → Keeps I m → Keeps I (wrapped t m)
  unfolding wrapped
  wrapped-Keeps t m h = on_err-Keeps m (λ e. fail (wrap t e)) h (λ e. fail-Keeps (wrap t e))

  finally-Ends :
      {A : Type 0} (close : W → W) (x : Result A × Run W)
      → Ends (λ _. At I) (At I) x
      → Ends (λ _. At I) (At I) (x.0, record x.1 { world = close x.1.world })
  finally-Ends close x (good a s p) = good a (record s { world = close s.world }) p
  finally-Ends close x (bad e s p) = bad e (record s { world = close s.world }) p

  pub finally-Keeps :
      {A : Type 0} (m : M W A) (close : W → W) → Keeps I m → Keeps I (finally m close)
  unfolding finally
  finally-Keeps m close h s p = finally-Ends close (m s) (h s p)

  pub set_service-Keeps :
      (name : Text) (v : ServiceState)
      → ((m : Machine) (us : List Update) → I m us → I (set_service_state m name v) us)
      → Keeps {W = W} I (set_service name v)
  unfolding set_service modify
  set_service-Keeps name v h s p =
      good tt (record s { machine = set_service_state s.machine name v }) (h s.machine s.updates p)

module _ {W : Type 0} where
  pub set_service-Ensures :
      (P : Machine → List Update → Type 0) (Q : Machine → List Update → Type 0) (E : Run W → Type 0)
      (name : Text) (v : ServiceState)
      → ((m : Machine) (us : List Update) → P m us → Q (set_service_state m name v) us)
      → Ensures (At P) (set_service name v) (λ _. At Q) E
  unfolding set_service modify
  set_service-Ensures P Q E name v h s p =
      good tt (record s { machine = set_service_state s.machine name v }) (h s.machine s.updates p)

  pub modify-Ensures :
      (P : Machine → List Update → Type 0) (Q : Machine → List Update → Type 0) (E : Run W → Type 0)
      (f : Machine → Machine)
      → ((m : Machine) (us : List Update) → P m us → Q (f m) us)
      → Ensures (At P) (modify f) (λ _. At Q) E
  unfolding modify
  modify-Ensures P Q E f h s p =
      good tt (record s { machine = f s.machine }) (h s.machine s.updates p)

  pub send-Ensures :
      (P : Machine → List Update → Type 0) (Q : Machine → List Update → Type 0) (E : Run W → Type 0)
      (u : Update)
      → ((m : Machine) (us : List Update) → P m us → Q m (u ∷ us))
      → Ensures (At P) (send u) (λ _. At Q) E
  unfolding send
  send-Ensures P Q E u h s p =
      good tt (record s { updates = u ∷ s.updates }) (h s.machine s.updates p)

  -- An error that is put on top of a run whose state is known.
  pub fail-Ensures :
      {A : Type 0} (P : Run W → Type 0) (Q : A → Run W → Type 0) (E : Run W → Type 0) (e : Error)
      → ((s : Run W) → P s → E s)
      → Ensures P (fail e) Q E
  unfolding fail
  fail-Ensures P Q E e h s p = bad e s (h s p)

module _ {W A : Type 0} where
  weaken-Ends :
      (Q Q' : A → Run W → Type 0) (E E' : Run W → Type 0) (x : Result A × Run W)
      → Ends Q E x
      → ((a : A) (s : Run W) → Q a s → Q' a s)
      → ((s : Run W) → E s → E' s)
      → Ends Q' E' x
  weaken-Ends Q Q' E E' x (good a s q) g b = good a s (g a s q)
  weaken-Ends Q Q' E E' x (bad e s p) g b = bad e s (b s p)

  pub weaken-Ensures :
      (P : Run W → Type 0) (Q Q' : A → Run W → Type 0) (E E' : Run W → Type 0) (m : M W A)
      → Ensures P m Q E
      → ((a : A) (s : Run W) → Q a s → Q' a s)
      → ((s : Run W) → E s → E' s)
      → Ensures P m Q' E'
  weaken-Ensures P Q Q' E E' m h g b s p = weaken-Ends Q Q' E E' (m s) (h s p) g b
