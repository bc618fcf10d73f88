-- ===== src/Exec.antt =====
-- The monad of the deployer: a run holds the machine, its host and the updates sent to the
-- callback, newest first; an error ends it and keeps what was done.
pub mod Rules
pub mod Keeps
use andaime.Base.{ℕ, Bool, List, [], ◌∷◌, Option, none, some, Text}
use andaime.Types.{ServiceState}
use andaime.Machine.{Machine, set_service_state}
use andaime.Remote.{Error, Result, ok, err, wrap, Remote}

-- `ProvisioningStep`, in the order of the registry.
pub data ProvisioningStep : Type 0 where
  ssh_connection node_provisioning node_configuration bacalhau_install : ProvisioningStep
  service_script systemd_service node_verification configuration_apply : ProvisioningStep
  service_restart running_custom_script : ProvisioningStep

-- A status sent to the callback: of the message, which step it is about and how it stands.
pub data Update : Type 0 where
  started : ProvisioningStep → Update
  completed : ProvisioningStep → Update
  errored : ProvisioningStep → Error → Update

pub record Run (W : Type 0) : Type 0 where
  pub machine : Machine
  pub world : W
  pub updates : List Update

abbrev pub M : Type 0 → Type 0 → Type 0
M W A = Run W → Result A × Run W

module _ {W : Type 0} where
  unfoldable pub pure : {A : Type 0} → A → M W A
  pure a s = (ok a, s)

  unfoldable pub fail : {A : Type 0} → Error → M W A
  fail e s = (err e, s)

  abbrev pub after : {A B : Type 0} → Result A × Run W → (A → M W B) → Result B × Run W
  after (ok a, s) f = f a s
  after (err e, s) f = (err e, s)

  infixl 5 ◌>>=◌ ◌>>◌
  unfoldable pub ◌>>=◌ : {A B : Type 0} → M W A → (A → M W B) → M W B
  ◌>>=◌ m f s = after (m s) f

  unfoldable pub ◌>>◌ : {B : Type 0} → M W (Unit {0}) → M W B → M W B
  ◌>>◌ m k s = after (m s) (λ _. k)

  abbrev pub handle : {A : Type 0} → Result A × Run W → (Error → M W A) → Result A × Run W
  handle (ok a, s) h = (ok a, s)
  handle (err e, s) h = h e s

  -- `if err := m; err != nil { … h … }`
  unfoldable pub on_err : {A : Type 0} → M W A → (Error → M W A) → M W A
  on_err m h s = handle (m s) h

  -- `fmt.Errorf("…: %w", err)`
  unfoldable pub wrapped : {A : Type 0} → Text → M W A → M W A
  wrapped t m = on_err m (λ e. fail (wrap t e))

  -- `defer close()`
  unfoldable pub finally : {A : Type 0} → M W A → (W → W) → M W A
  finally m close s = let (r, s') = m s in (r, record s' { world = close s'.world })

  -- A call that touches the host alone.
  unfoldable pub on_world : {A : Type 0} → (W → Result A × W) → M W A
  on_world f s = let (r, w) = f s.world in (r, record s { world = w })

  abbrev pub with_output : Text × Option Error × W → Result Text × W
  with_output (out, none, w) = (ok out, w)
  with_output (out, some e, w) = (err e, w)

  -- `ExecuteCommand` where the output is of no use after an error.
  unfoldable pub exec : Remote W → Text → M W Text
  exec remote command = on_world (λ w. with_output (remote.execute command w))

  unfoldable pub from_result : {A : Type 0} → Result A → M W A
  from_result (ok a) s = (ok a, s)
  from_result (err e) s = (err e, s)

  unfoldable pub gets : {A : Type 0} → (Machine → A) → M W A
  gets f s = (ok (f s.machine), s)

  unfoldable pub modify : (Machine → Machine) → M W (Unit {0})
  modify f s = (ok tt, record s { machine = f s.machine })

  unfoldable pub set_service : Text → ServiceState → M W (Unit {0})
  set_service name state = modify (λ m. set_service_state m name state)

  -- `callback(…)`
  unfoldable pub send : Update → M W (Unit {0})
  send u s = (ok tt, record s { updates = u ∷ s.updates })
