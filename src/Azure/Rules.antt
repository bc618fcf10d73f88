-- ===== src/Azure/Rules.antt =====
-- Rules for what a run of the Azure provider keeps, and for what holds once it succeeds.
use andaime.Base.{
  Bool, true, false, Option, none, some, Text, Dict, lookup, insert, if◌then◌else◌, ◌≡◌, refl,
}
use andaime.Machine.{Machine}
use andaime.Azure.{
  Deploy, Outcome, ok, err, panic, D, pure, fail, halt, after, either, try, call, modify,
  at_machine, on_machine, update_machines, ◌>>=◌, ◌>>◌,
}

-- Whatever way the run ends, the machines keep `P`.
abbrev pub Keeps : {W A : Type 0} → (Dict Machine → Type 0) → D W A → Type 0
Keeps {W} P m = (s : Deploy W) → P s.machines → P (m s).1.machines

abbrev pub IsOk : {A : Type 0} → Outcome A → Type 0
IsOk (ok a) = Unit {0}
IsOk (err e) = ⊥
IsOk panic = ⊥

-- If the run ends without an error, its machines have `P`.
abbrev pub Gives : {W A : Type 0} → (Dict Machine → Type 0) → D W A → Type 0
Gives {W} P m = (s : Deploy W) → IsOk (m s).0 → P (m s).1.machines

module _ {W : Type 0} (P : Dict Machine → Type 0) where
  after-Keeps :
      {A B : Type 0} (x : Outcome A × Deploy W) (f : A → D W B)
      → P x.1.machines
      → ((a : A) → Keeps P (f a))
      → P (after x f).1.machines
  after-Keeps (ok a, s) f p k = k a s p
  after-Keeps (err e, s) f p k = p
  after-Keeps (panic, s) f p k = p

  pub bind-Keeps :
      {A B : Type 0} (m : D W A) (f : A → D W B)
      → Keeps P m
      → ((a : A) → Keeps P (f a))
      → Keeps P (m >>= f)
  unfolding ◌>>=◌
  bind-Keeps m f h k s p = after-Keeps (m s) f (h s p) k

  pub then-Keeps :
      {B : Type 0} (m : D W (Unit {0})) (k : D W B) → Keeps P m → Keeps P k → Keeps P (m >> k)
  unfolding ◌>>◌
  then-Keeps m k h g s p = after-Keeps (m s) (λ _. k) (h s p) (λ _. g)

  either-Keeps :
      {A B : Type 0} (x : Outcome A × Deploy W) (f : A → D W B) (g : Text → D W B)
      → P x.1.machines
      → ((a : A) → Keeps P (f a))
      → ((e : Text) → Keeps P (g e))
      → P (either x f g).1.machines
  either-Keeps (ok a, s) f g p k l = k a s p
  either-Keeps (err e, s) f g p k l = l e s p
  either-Keeps (panic, s) f g p k l = p

  pub try-Keeps :
      {A B : Type 0} (m : D W A) (f : A → D W B) (g : Text → D W B)
      → Keeps P m
      → ((a : A) → Keeps P (f a))
      → ((e : Text) → Keeps P (g e))
      → Keeps P (try m f g)
  unfolding try
  try-Keeps m f g h k l s p = either-Keeps (m s) f g (h s p) k l

  pub pure-Keeps : {A : Type 0} (a : A) → Keeps P (pure {W = W} a)
  unfolding pure
  pure-Keeps a s p = p

  pub fail-Keeps : (A : Type 0) (e : Text) → Keeps P (fail {W = W} {A = A} e)
  unfolding fail
  fail-Keeps A e s p = p

  pub halt-Keeps : (A : Type 0) → Keeps P (halt {W = W} {A = A})
  unfolding halt
  halt-Keeps A s p = p

  pub call-Keeps : {A : Type 0} (f : W → A × W) → Keeps P (call f)
  unfolding call
  call-Keeps f s p = p

  pub if-Keeps :
      {A : Type 0} (b : Bool) (m k : D W A) → Keeps P m → Keeps P k → Keeps P (if b then m else k)
  if-Keeps true m k h g = h
  if-Keeps false m k h g = g

  on_machine-Keeps :
      {A : Type 0} (o : Option Machine) (f : Machine → D W A)
      → ((m : Machine) → o ≡ some m → Keeps P (f m))
      → Keeps P (on_machine o f)
  on_machine-Keeps none f h = halt-Keeps _
  on_machine-Keeps (some m) f h = h m refl

  pub at-Keeps :
      {A : Type 0} (k : Text) (f : Machine → D W A)
      → ((m : Machine) → Keeps P (f m))
      → Keeps P (at_machine k f)
  unfolding at_machine
  at-Keeps k f h s p = on_machine-Keeps (lookup k s.machines) f (λ m _. h m) s p

  after-Gives :
      {A B : Type 0} (x : Outcome A × Deploy W) (f : A → D W B)
      → ((a : A) → Gives P (f a))
      → IsOk (after x f).0
      → P (after x f).1.machines
  after-Gives (ok a, s) f h i = h a s i
  after-Gives (err e, s) f h i = absurd i
  after-Gives (panic, s) f h i = absurd i

  pub bind-Gives :
      {A B : Type 0} (m : D W A) (f : A → D W B) → ((a : A) → Gives P (f a)) → Gives P (m >>= f)
  unfolding ◌>>=◌
  bind-Gives m f h s i = after-Gives (m s) f h i

  pub then-Gives : {B : Type 0} (m : D W (Unit {0})) (k : D W B) → Gives P k → Gives P (m >> k)
  unfolding ◌>>◌
  then-Gives m k h s i = after-Gives (m s) (λ _. k) (λ _. h) i

  after-Gives_first :
      {B : Type 0} (x : Outcome (Unit {0}) × Deploy W) (k : D W B)
      → (IsOk x.0 → P x.1.machines)
      → Keeps P k
      → IsOk (after x (λ _. k)).0
      → P (after x (λ _. k)).1.machines
  after-Gives_first (ok a, s) k h g i = g s (h tt)
  after-Gives_first (err e, s) k h g i = absurd i
  after-Gives_first (panic, s) k h g i = absurd i

  -- What the first run gives is kept by the second.
  pub then-Gives_first :
      {B : Type 0} (m : D W (Unit {0})) (k : D W B) → Gives P m → Keeps P k → Gives P (m >> k)
  unfolding ◌>>◌
  then-Gives_first m k h g s i = after-Gives_first (m s) k (h s) g i

  either-Gives :
      {A B : Type 0} (x : Outcome A × Deploy W) (f : A → D W B) (g : Text → D W B)
      → (IsOk x.0 → P x.1.machines)
      → ((a : A) → Keeps P (f a))
      → ((e : Text) → Gives P (g e))
      → IsOk (either x f g).0
      → P (either x f g).1.machines
  either-Gives (ok a, s) f g h k l i = k a s (h tt)
  either-Gives (err e, s) f g h k l i = l e s i
  either-Gives (panic, s) f g h k l i = absurd i

  pub try-Gives :
      {A B : Type 0} (m : D W A) (f : A → D W B) (g : Text → D W B)
      → Gives P m
      → ((a : A) → Keeps P (f a))
      → ((e : Text) → Gives P (g e))
      → Gives P (try m f g)
  unfolding try
  try-Gives m f g h k l s i = either-Gives (m s) f g (h s) k l i

  either-Gives_last :
      {A B : Type 0} (x : Outcome A × Deploy W) (f : A → D W B) (g : Text → D W B)
      → ((a : A) → Gives P (f a))
      → ((e : Text) → Gives P (g e))
      → IsOk (either x f g).0
      → P (either x f g).1.machines
  either-Gives_last (ok a, s) f g k l i = k a s i
  either-Gives_last (err e, s) f g k l i = l e s i
  either-Gives_last (panic, s) f g k l i = absurd i

  -- What either way gives.
  pub try-Gives_last :
      {A B : Type 0} (m : D W A) (f : A → D W B) (g : Text → D W B)
      → ((a : A) → Gives P (f a))
      → ((e : Text) → Gives P (g e))
      → Gives P (try m f g)
  unfolding try
  try-Gives_last m f g k l s i = either-Gives_last (m s) f g k l i

  pub fail-Gives : (A : Type 0) (e : Text) → Gives P (fail {W = W} {A = A} e)
  unfolding fail
  fail-Gives A e s i = absurd i

  pub if-Gives :
      {A : Type 0} (b : Bool) (m k : D W A) → Gives P m → Gives P k → Gives P (if b then m else k)
  if-Gives true m k h g = h
  if-Gives false m k h g = g

  on_machine-Gives :
      {A : Type 0} (o : Option Machine) (f : Machine → D W A) (s : Deploy W)
      → ((m : Machine) → o ≡ some m → IsOk (f m s).0 → P (f m s).1.machines)
      → IsOk (on_machine o f s).0
      → P (on_machine o f s).1.machines
  unfolding halt
  on_machine-Gives none f s h i = absurd i
  on_machine-Gives (some m) f s h i = h m refl i

  pub at-Gives :
      {A : Type 0} (k : Text) (f : Machine → D W A)
      → ((m : Machine) → Gives P (f m))
      → Gives P (at_machine k f)
  unfolding at_machine
  at-Gives k f h s i = on_machine-Gives (lookup k s.machines) f s (λ m _. h m s) i

  -- A machine that is written has what is true of every dictionary that it was written into.
  pub modify-Gives :
      (k : Text) (f : Machine → Machine)
      → ((ms : Dict Machine) (m : Machine) → lookup k ms ≡ some m → P (insert k (f m) ms))
      → Gives P (modify {W = W} k f)
  unfolding modify at_machine update_machines
  modify-Gives k f h s i =
      on_machine-Gives (lookup k s.machines) (λ m. update_machines (insert k (f m))) s
        (λ m e _. h s.machines m e) i
