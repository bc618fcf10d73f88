-- ===== src/Ssh/Transport.antt =====
-- What the SSH and SFTP libraries do to a host, as the interface `Link`, and the state of a caller: the
-- host, and how many clients, sessions and SFTP clients are open, and whether a file is. An error is a
-- value; a `defer` runs whatever the body gave.
use andaime.Base.{ℕ, ◌+◌, ◌-◌, Bool, true, false, Option, none, some, Text}
use andaime.Remote.{Error, wrap, Result, ok, err}

pub record Link (W : Type 0) : Type 0 where
  -- `clientCreator.NewClient`
  pub dial : W → Option Error × W
  pub close_client : W → W
  pub new_session : W → Option Error × W
  pub close_session : W → W
  -- `session.Run`, with what it has written to the output.
  pub run : Text → W → Text × Option Error × W
  pub new_sftp_client : W → Option Error × W
  pub close_sftp_client : W → W
  pub mkdir_all : Text → W → Option Error × W
  pub create : Text → W → Option Error × W
  -- `file.Write` gives how much it wrote.
  pub write : Text → Text → W → Result ℕ × W
  pub close_file : Text → W → W
  pub chmod : Text → W → Option Error × W
  pub stat : Text → W → Option Error × W
  pub read_dir : Text → W → Option Error × W
  -- `timeProvider.Now().UnixTime`, as text.
  pub now : W → Text

pub record Line (W : Type 0) : Type 0 where
  pub world : W
  pub clients : ℕ
  pub sessions : ℕ
  pub sftp_clients : ℕ
  pub file_open : Bool

abbrev pub S : Type 0 → Type 0 → Type 0
S W A = Line W → Result A × Line W

abbrev pub of_error : Option Error → Result (Unit {0})
of_error none = ok tt
of_error (some e) = err e

module _ {W : Type 0} where
  abbrev pub after : {A B : Type 0} → Result A × Line W → (A → S W B) → Result B × Line W
  after (ok a, s) f = f a s
  after (err e, s) f = (err e, s)

  infixl 5 ◌>>=◌ ◌>>◌
  unfoldable pub ◌>>=◌ : {A B : Type 0} → S W A → (A → S W B) → S W B
  ◌>>=◌ m f s = after (m s) f

  unfoldable pub ◌>>◌ : {B : Type 0} → S W (Unit {0}) → S W B → S W B
  ◌>>◌ m k s = after (m s) (λ _. k)

  unfoldable pub done : S W (Unit {0})
  done s = (ok tt, s)

  abbrev pub relabelled : {A : Type 0} → Text → Result A × Line W → Result A × Line W
  relabelled t (ok a, s) = (ok a, s)
  relabelled t (err e, s) = (err (wrap t e), s)

  -- `fmt.Errorf("…: %w", err)`
  unfoldable pub wrapped : {A : Type 0} → Text → S W A → S W A
  wrapped t m s = relabelled t (m s)

  -- A call that gives an error or nil.
  unfoldable pub call : (W → Option Error × W) → S W (Unit {0})
  call f s = let (e, w) = f s.world in (of_error e, record s { world = w })

  -- A call that gives a value.
  unfoldable pub ask : {A : Type 0} → (W → Result A × W) → S W A
  ask f s = let (r, w) = f s.world in (r, record s { world = w })

  unfoldable pub modify : (W → W) → S W (Unit {0})
  modify f s = (ok tt, record s { world = f s.world })

  module _ (link : Link W) where
    abbrev pub closing_client : {A : Type 0} → A × Line W → A × Line W
    closing_client (a, s) =
        (a, record s { world = link.close_client s.world; clients = s.clients - 1 })

    abbrev pub dialled :
        {A : Type 0} → (Error → A) → (Line W → A × Line W) → Line W → Option Error × W → A × Line W
    dialled failed body s (some e, w) = (failed e, record s { world = w })
    dialled failed body s (none, w) =
        closing_client (body (record s { world = w; clients = s.clients + 1 }))

    -- `NewClient` with `defer client.Close()`
    unfoldable pub with_client :
        {A : Type 0} → (Error → A) → (Line W → A × Line W) → Line W → A × Line W
    with_client failed body s = dialled failed body s (link.dial s.world)

    abbrev pub closing_session : {A : Type 0} → A × Line W → A × Line W
    closing_session (a, s) =
        (a, record s { world = link.close_session s.world; sessions = s.sessions - 1 })

    abbrev pub in_session :
        {A : Type 0} → (Error → A) → (Line W → A × Line W) → Line W → Option Error × W → A × Line W
    in_session failed body s (some e, w) = (failed e, record s { world = w })
    in_session failed body s (none, w) =
        closing_session (body (record s { world = w; sessions = s.sessions + 1 }))

    -- `NewSession` with `defer session.Close()`
    unfoldable pub with_session :
        {A : Type 0} → (Error → A) → (Line W → A × Line W) → Line W → A × Line W
    with_session failed body s = in_session failed body s (link.new_session s.world)

    abbrev pub closing_sftp : {A : Type 0} → A × Line W → A × Line W
    closing_sftp (a, s) =
        (a, record s { world = link.close_sftp_client s.world; sftp_clients = s.sftp_clients - 1 })

    abbrev pub on_sftp :
        {A : Type 0} → (Error → A) → (Line W → A × Line W) → Line W → Option Error × W → A × Line W
    on_sftp failed body s (some e, w) = (failed e, record s { world = w })
    on_sftp failed body s (none, w) =
        closing_sftp (body (record s { world = w; sftp_clients = s.sftp_clients + 1 }))

    -- `NewSFTPClient` with `defer sftpClient.Close()`
    unfoldable pub with_sftp_client :
        {A : Type 0} → (Error → A) → (Line W → A × Line W) → Line W → A × Line W
    with_sftp_client failed body s = on_sftp failed body s (link.new_sftp_client s.world)

    -- `file.Close()`: a file that is closed already is left alone.
    abbrev pub close_if_open : Text → Line W → Bool → Line W
    close_if_open path s true = record s { world = link.close_file path s.world; file_open = false }
    close_if_open path s false = s

    abbrev pub closing_file : {A : Type 0} → Text → A × Line W → A × Line W
    closing_file path (a, s) = (a, close_if_open path s s.file_open)

    abbrev pub on_file :
        {A : Type 0}
        → Text
        → (Error → A)
        → (Line W → A × Line W)
        → Line W
        → Option Error × W
        → A × Line W
    on_file path failed body s (some e, w) = (failed e, record s { world = w })
    on_file path failed body s (none, w) =
        closing_file path (body (record s { world = w; file_open = true }))

    -- `Create` with `defer file.Close()`
    unfoldable pub with_file :
        {A : Type 0} → Text → (Error → A) → (Line W → A × Line W) → Line W → A × Line W
    with_file path failed body s = on_file path failed body s (link.create path s.world)

    unfoldable pub close_now : Text → S W (Unit {0})
    close_now path s = (ok tt, close_if_open path s s.file_open)
