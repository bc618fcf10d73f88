-- ===== src/Ssh/Leak.antt =====
-- What file transfer and the installation of a service leave open.
use andaime.Base.{
  not, ◌&&◌, ℕ, ◌+◌, Bool, true, false, Option, none, some, Text, length, codes, ◌++◌, ◌≡◌, refl,
  arith,
}
use andaime.Remote.{Error}
use andaime.Ssh.Transport.{Link, Line, S, wrapped, call}
use andaime.Ssh.{
  exec, fill_file, push_on, push_file_with_callback, with_cleanup, enable_service, install_file,
  install_in, install_at_time, installed, install_systemd_service, dir, service_path, temp_dir_of,
}
use andaime.Ssh.Balanced.{
  Balanced, Same-trans, bind-Balanced, then-Balanced, wrapped-Balanced, done-Balanced,
  call-Balanced, ask-Balanced, modify-Balanced, with_client-Balanced, with_sftp_client-Balanced,
  with_file-Balanced, close_now-Balanced, execute_command-Balanced, exec-Balanced, test-Balanced,
}

module _ {W : Type 0} (link : Link W) where
  wrapped-call : (t : Text) (f : W → Option Error × W) → Balanced (wrapped t (call f))
  wrapped-call t f = wrapped-Balanced t (call f) (call-Balanced f)

  wrapped-exec : (t command : Text) → Balanced (wrapped t (exec link command))
  wrapped-exec t command = wrapped-Balanced t (exec link command) (exec-Balanced link command)

  fill_file-Balanced :
      (callback : ℕ → ℕ → W → W) (path content : Text) (executable : Bool)
      → Balanced (fill_file link callback path content executable)
  unfolding fill_file
  fill_file-Balanced callback path content executable =
      bind-Balanced _ _ (wrapped-Balanced _ _ (ask-Balanced (link.write path content))) (λ n.
        then-Balanced _ _ (modify-Balanced (callback n (length content))) (
          then-Balanced _ _
            (test-Balanced link executable _ _ (wrapped-call _ (link.chmod path)) done-Balanced)
            (then-Balanced _ _ (wrapped-call _ (link.stat path)) (modify-Balanced _))))

  push_on-Balanced :
      (callback : ℕ → ℕ → W → W) (path content : Text) (executable : Bool)
      → Balanced (push_on link callback path content executable)
  unfolding push_on
  push_on-Balanced callback path content executable = with_sftp_client-Balanced link _ _ (
      then-Balanced _ _ (wrapped-call _ (link.mkdir_all (dir path)))
        (with_file-Balanced link _ _ path (fill_file-Balanced callback path content executable)))

  -- A push leaves open what was open before, wherever it fails, with a client of its own and with
  -- that of the configuration.
  pub push_file_with_callback-Balanced :
      (connected : Bool) (callback : ℕ → ℕ → W → W) (path content : Text) (executable : Bool)
      → Balanced (push_file_with_callback link connected callback path content executable)
  unfolding push_file_with_callback
  push_file_with_callback-Balanced true callback path content executable =
      push_on-Balanced callback path content executable
  push_file_with_callback-Balanced false callback path content executable =
      with_client-Balanced link _ _ (push_on-Balanced callback path content executable)

  enable_service-Balanced : (name temp_path : Text) → Balanced (enable_service link name temp_path)
  unfolding enable_service
  enable_service-Balanced name temp_path = then-Balanced _ _ (wrapped-exec _ _) (
      then-Balanced _ _ (wrapped-exec _ _)
        (then-Balanced _ _ (wrapped-exec _ _) (wrapped-exec _ _)))

  install_file-Balanced :
      (name content temp_path : Text) → Balanced (install_file link name content temp_path)
  unfolding install_file
  install_file-Balanced name content temp_path = with_file-Balanced link _ _ temp_path (
      bind-Balanced _ _ (wrapped-Balanced _ _ (ask-Balanced (link.write temp_path content))) (λ _.
        then-Balanced _ _ (close_now-Balanced link temp_path)
          (enable_service-Balanced name temp_path)))

  with_cleanup-Balanced :
      (temp_dir : Text) (body : S W (Unit {0}))
      → Balanced body
      → Balanced (with_cleanup link temp_dir body)
  unfolding with_cleanup
  with_cleanup-Balanced temp_dir body h = record {
    same = λ s.
        Same-trans s (body s).1 _ (h.same s)
          ((execute_command-Balanced link (codes "rm -rf " ++ temp_dir)).same (body s).1);
  }

  install_in-Balanced :
      (name content temp_dir : Text) → Balanced (install_in link name content temp_dir)
  unfolding install_in
  install_in-Balanced name content temp_dir =
      then-Balanced _ _ (wrapped-call _ (link.mkdir_all temp_dir)) (
        with_cleanup-Balanced temp_dir _
          (install_file-Balanced name content (service_path link temp_dir name)))

  install_at_time-Balanced : (name content : Text) → Balanced (install_at_time link name content)
  unfolding install_at_time
  install_at_time-Balanced name content = record {
    same = λ s. (install_in-Balanced name content (temp_dir_of link s.world)).same s;
  }

  -- How many clients a call of `NewClient` has made.
  abbrev pub made : Option Error × W → ℕ
  made (none, w) = 1
  made (some e, w) = 0

  installed-leaks :
      (name content : Text) (s : Line W) (x : Option Error × W)
      → let s' = (installed link name content s x).1 in
        (s'.clients ≡ s.clients + made x)
        × (s'.sessions ≡ s.sessions)
        × (s'.sftp_clients ≡ s.sftp_clients)
        × ((not s.file_open && s'.file_open) ≡ false)
  installed-leaks name content s (some e, w) = (omega arith, refl, refl, ground arith)
  installed-leaks name content s (none, w) =
      let h = with_sftp_client-Balanced link _ _ (install_at_time-Balanced name content) in
      let k = h.same (record s { world = w; clients = s.clients + 1 }) in
      (k.clients, k.sessions, k.sftp_clients, k.no_file)

  -- An installation of a service that has got its client leaves one client more open than before,
  -- whether it succeeds or not; its sessions, its SFTP client and its file it closes.
  pub install_systemd_service_leaks :
      (name content : Text) (s : Line W)
      → let s' = (install_systemd_service link name content s).1 in
        (s'.clients ≡ s.clients + made (link.dial s.world))
        × (s'.sessions ≡ s.sessions)
        × (s'.sftp_clients ≡ s.sftp_clients)
        × ((not s.file_open && s'.file_open) ≡ false)
  unfolding install_systemd_service
  install_systemd_service_leaks name content s = installed-leaks name content s (link.dial s.world)
