-- ===== src/Ssh/Examples.antt =====
-- A host that answers every call, and one that is up at the third.
use andaime.Base.{
  ◌&&◌, ◌↔◌, ℕ, ◌+◌, ◌-◌, ◌≤◌, ltb, true, false, none, some, [], codes, ℤ, if◌then◌else◌, ◌≡◌, refl,
}
use andaime.Remote.{errorf, ok}
use andaime.Ssh.Transport.{Link, Line}
use andaime.Ssh.{push_file_with_callback, install_systemd_service}
use andaime.Ssh.Balanced.{Balanced}
use andaime.Ssh.Leak.{push_file_with_callback-Balanced, install_systemd_service_leaks}
use andaime.Ssh.Wait.{Attempts, WaitResult, wait_for_ssh}
use andaime.Ssh.Connects.{ConnectsAt, wait_for_ssh_bound, wait_for_ssh_connects_iff}

-- The host counts the calls.
abbrev steady : Link ℕ
steady = record {
  dial = λ w. (none, w + 1);
  close_client = λ w. w + 1;
  new_session = λ w. (none, w + 1);
  close_session = λ w. w + 1;
  run = λ command w. ([], none, w + 1);
  new_sftp_client = λ w. (none, w + 1);
  close_sftp_client = λ w. w + 1;
  mkdir_all = λ path w. (none, w + 1);
  create = λ path w. (none, w + 1);
  write = λ path content w. (ok 1, w + 1);
  close_file = λ path w. w + 1;
  chmod = λ path w. (none, w + 1);
  stat = λ path w. (none, w + 1);
  read_dir = λ path w. (none, w + 1);
  now = λ w. codes "0";
}

abbrev idle : Line ℕ
idle = record { world = 0; clients = 0; sessions = 0; sftp_clients = 0; file_open = false }

push_file_with_callback-Balanced_example :
    Balanced
      (push_file_with_callback steady false (λ n size w. w) (codes "/tmp/a") (codes "x") true)
push_file_with_callback-Balanced_example =
    push_file_with_callback-Balanced steady false (λ n size w. w) (codes "/tmp/a") (codes "x") true

install_systemd_service_leaks_example :
    let s' = (install_systemd_service steady (codes "bacalhau") (codes "x") idle).1 in
    (s'.clients ≡ 1) × (s'.sessions ≡ 0) × (s'.sftp_clients ≡ 0) × ((true && s'.file_open) ≡ false)
install_systemd_service_leaks_example =
    install_systemd_service_leaks steady (codes "bacalhau") (codes "x") idle

-- The host is up at the third call; a second passes between the calls.
abbrev third : Attempts
third = record {
  dial = λ k. if ltb k 2 then some (errorf (codes "refused")) else none;
  start = 100;
  now = λ k. 100 + k;
  done = λ k. false;
  late = λ k. 100 + k;
}

third_call : wait_for_ssh third (ℤ.pos 5) (ℤ.pos 0) 10 ≡ (WaitResult.connected, 3)
unfolding wait_for_ssh
third_call = refl

two_retries :
    wait_for_ssh third (ℤ.pos 5) (ℤ.pos 2) 10 ≡ (WaitResult.exhausted (errorf (codes "refused")), 2)
unfolding wait_for_ssh
two_retries = refl

wait_for_ssh_bound_example :
    (1 ≤ (wait_for_ssh third (ℤ.pos 5) (ℤ.pos 0) 10).1)
    × ((wait_for_ssh third (ℤ.pos 5) (ℤ.pos 0) 10).1 ≤ 1 + (5 - 1))
wait_for_ssh_bound_example = wait_for_ssh_bound third (ℤ.pos 5) (ℤ.pos 0) 10

wait_for_ssh_connects_iff_example :
    (wait_for_ssh third (ℤ.pos 5) (ℤ.pos 0) 10 ≡ (WaitResult.connected, 3))
    ↔ ((j : ℕ) × (3 ≡ j + 1) × (j ≤ 4) × ConnectsAt third (ℤ.pos 5) (ℤ.pos 0) 10 j)
wait_for_ssh_connects_iff_example = wait_for_ssh_connects_iff third (ℤ.pos 5) (ℤ.pos 0) 10 3
