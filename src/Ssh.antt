-- ===== src/Ssh.antt =====
-- pkg/sshutils/ssh_config.go: commands, file transfer and the installation of a service, over what the
-- SSH and SFTP libraries do. The log is left out; the output that an error message ends with, too.
pub mod Transport
pub mod Balanced
pub mod Leak
pub mod Wait
pub mod Connects
pub mod Examples
use andaime.Base.{
  ℕ, ◌+◌, ltb, ◌==◌, Bool, true, false, List, [], ◌∷◌, ◌++◌, reverse, Option, none, some, Text,
  codes, is_empty, length, if◌then◌else◌,
}
use andaime.Remote.{Error, errorf, wrap, Result, ok, err}
use andaime.Ssh.Transport.{
  Link, Line, S, after, ◌>>=◌, ◌>>◌, done, wrapped, call, ask, modify, with_client, with_session,
  with_sftp_client, with_file, close_now, of_error,
}

-- `filepath.Dir` of a path without doubled slashes and dots, read from its end.
unfoldable pub drop_to_slash : Text → Text
drop_to_slash [] = []
drop_to_slash (c ∷ s) = if c == b'/' then s else drop_to_slash s

abbrev or_root : Text → Text → Text
or_root path dir = if is_empty dir then (if is_empty path then codes "." else codes "/") else dir

unfoldable pub dir : Text → Text
unfolding drop_to_slash
dir path = or_root path (reverse (drop_to_slash (reverse path)))

-- The answer of a command: its output, and its error.
abbrev pub Answer : Type 0
Answer = Text × Option Error

module _ {W : Type 0} (link : Link W) where
  abbrev pub answered : (Text → W → W) → Line W → Text × Option Error × W → Answer × Line W
  answered callback s (out, some e, w) =
      ((out, some (wrap (codes "command execution failed") e)), record s { world = w })
  answered callback s (out, none, w) = ((out, none), record s { world = callback out w })

  unfoldable pub run_command : (Text → W → W) → Text → Line W → Answer × Line W
  run_command callback command s = answered callback s (link.run command s.world)

  -- `ExecuteCommandWithCallback`
  unfoldable pub execute_command_with_callback : (Text → W → W) → Text → Line W → Answer × Line W
  execute_command_with_callback callback command =
      with_client link (λ e. ([], some (wrap (codes "SSH connection failed") e)))
        (with_session link (λ e. ([], some (wrap (codes "failed to create session") e)))
          (run_command callback command))

  -- `ExecuteCommand`, which the source writes out again without a callback.
  unfoldable pub execute_command : Text → Line W → Answer × Line W
  execute_command = execute_command_with_callback (λ out w. w)

  abbrev pub checked : Answer × Line W → Result (Unit {0}) × Line W
  checked ((out, e), s) = (of_error e, s)

  -- `if out, err := c.ExecuteCommand(…); err != nil`
  unfoldable pub exec : Text → S W (Unit {0})
  exec command s = checked (execute_command command s)

  -- What PushFileWithCallback does to the file that is open.
  unfoldable pub fill_file : (ℕ → ℕ → W → W) → Text → Text → Bool → S W (Unit {0})
  fill_file callback path content executable = do
    n ← wrapped (codes "failed to write to remote file") (ask (link.write path content))
    modify (callback n (length content))
    (if executable
        then wrapped (codes "failed to set executable permissions") (call (link.chmod path))
        else done)
    wrapped (codes "failed to verify file after transfer") (call (link.stat path))
    -- The listing of the directory only serves the log.
    modify (λ w. (link.read_dir (dir path) w).1)

  unfoldable pub push_on : (ℕ → ℕ → W → W) → Text → Text → Bool → S W (Unit {0})
  push_on callback path content executable =
      with_sftp_client link (λ e. err (wrap (codes "failed to create SFTP client") e))
        (do
          wrapped (codes "failed to create parent directory") (call (link.mkdir_all (dir path)))
          with_file link path (λ e. err (wrap (codes "failed to create remote file") e))
              (fill_file callback path content executable))

  -- `PushFileWithCallback`; `connected` says that the configuration has a client already.
  unfoldable pub push_file_with_callback :
      Bool → (ℕ → ℕ → W → W) → Text → Text → Bool → S W (Unit {0})
  push_file_with_callback connected callback path content executable =
      if connected
      then push_on callback path content executable
      else with_client link (λ e. err (wrap (codes "SSH connection failed") e))
          (push_on callback path content executable)

  -- `PushFile`
  unfoldable pub push_file : Bool → Text → Text → Bool → S W (Unit {0})
  push_file connected = push_file_with_callback connected (λ n size w. w)

  -- A body with the deferred `rm -rf` of the temporary directory, whose error is only logged.
  abbrev pub cleaned : Text → Result (Unit {0}) × Line W → Result (Unit {0}) × Line W
  cleaned temp_dir (r, s) = (r, (execute_command (codes "rm -rf " ++ temp_dir) s).1)

  unfoldable pub with_cleanup : Text → S W (Unit {0}) → S W (Unit {0})
  with_cleanup temp_dir body s = cleaned temp_dir (body s)

  abbrev pub service_path : Text → Text → Text
  service_path folder name = folder ++ (codes "/" ++ (name ++ codes ".service"))

  -- The commands of InstallSystemdService, once the file is written.
  unfoldable pub enable_service : Text → Text → S W (Unit {0})
  enable_service name temp_path = do
    let path = service_path (codes "/etc/systemd/system") name
    wrapped (codes "failed to move service file to systemd directory")
        (exec (codes "sudo mv " ++ (temp_path ++ (codes " " ++ path))))
    wrapped (codes "failed to set service file permissions")
        (exec (codes "sudo chmod 644 " ++ path))
    wrapped (codes "failed to reload systemd daemon") (exec (codes "sudo systemctl daemon-reload"))
    wrapped (codes "failed to enable service") (exec (codes "sudo systemctl enable " ++ name))

  unfoldable pub install_file : Text → Text → Text → S W (Unit {0})
  install_file name content temp_path =
      with_file link temp_path (λ e. err (wrap (codes "failed to create temporary service file") e))
        (do
          _ ← wrapped (codes "failed to write service content") (ask (link.write temp_path content))
          close_now link temp_path
          enable_service name temp_path)

  abbrev pub temp_dir_of : W → Text
  temp_dir_of w = codes "/tmp/andaime-" ++ link.now w

  unfoldable pub install_in : Text → Text → Text → S W (Unit {0})
  install_in name content temp_dir = do
    wrapped (codes "failed to create temporary directory") (call (link.mkdir_all temp_dir))
    with_cleanup temp_dir (install_file name content (service_path temp_dir name))

  unfoldable pub install_at_time : Text → Text → S W (Unit {0})
  install_at_time name content s = install_in name content (temp_dir_of s.world) s

  abbrev pub installed : Text → Text → Line W → Option Error × W → Result (Unit {0}) × Line W
  installed name content s (some e, w) =
      (err (wrap (codes "failed to create SSH connection") e), record s { world = w })
  installed name content s (none, w) =
      with_sftp_client link (λ e. err (wrap (codes "failed to create SFTP client") e))
        (install_at_time name content) (record s { world = w; clients = s.clients + 1 })

  -- `InstallSystemdService`: the client that it makes is never closed.
  unfoldable pub install_systemd_service : Text → Text → S W (Unit {0})
  install_systemd_service name content s = installed name content s (link.dial s.world)
