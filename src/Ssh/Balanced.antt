-- ===== src/Ssh/Balanced.antt =====
-- What is opened is closed again, however a call ends.
use andaime.Base.{
  ◌+◌, Bool, true, false, Option, none, some, Text, if◌then◌else◌, ◌≡◌, refl, ◌∙◌, not, ◌&&◌, arith,
}
use andaime.Remote.{Error, Result, ok, err}
use andaime.Ssh.Transport.{
  Link, Line, S, after, ◌>>=◌, ◌>>◌, done, wrapped, relabelled, call, ask, modify, with_client,
  with_session, with_sftp_client, dialled, in_session, on_sftp, on_file, with_file, close_now,
  close_if_open,
}
use andaime.Ssh.{answered, run_command, execute_command_with_callback, execute_command, exec}

-- As many clients, sessions and SFTP clients are open, and a file only if one was.
pub record Same {W : Type 0} (s s' : Line W) : Type 0 where
  pub clients : s'.clients ≡ s.clients
  pub sessions : s'.sessions ≡ s.sessions
  pub sftp_clients : s'.sftp_clients ≡ s.sftp_clients
  pub no_file : (not s.file_open && s'.file_open) ≡ false

pub record Balanced {W A : Type 0} (f : Line W → A × Line W) : Type 0 where
  pub same : (s : Line W) → Same s (f s).1

module _ {W : Type 0} where
  pub Same-trans : (a b c : Line W) → Same a b → Same b c → Same a c
  Same-trans a b c p q = record {
    clients = q.clients ∙ p.clients;
    sessions = q.sessions ∙ p.sessions;
    sftp_clients = q.sftp_clients ∙ p.sftp_clients;
    no_file = ground (arith, p.no_file, q.no_file);
  }

  after-Same :
      {A B : Type 0} (s : Line W) (x : Result A × Line W) (f : A → S W B)
      → Same s x.1
      → ((a : A) → Balanced (f a))
      → Same s (after x f).1
  after-Same s (ok a, t) f h k = Same-trans s t (f a t).1 h ((k a).same t)
  after-Same s (err e, t) f h k = h

  pub bind-Balanced :
      {A B : Type 0} (m : S W A) (f : A → S W B)
      → Balanced m
      → ((a : A) → Balanced (f a))
      → Balanced (m >>= f)
  unfolding ◌>>=◌
  bind-Balanced m f h k = record { same = λ s. after-Same s (m s) f (h.same s) k }

  pub then-Balanced :
      {B : Type 0} (m : S W (Unit {0})) (k : S W B) → Balanced m → Balanced k → Balanced (m >> k)
  unfolding ◌>>◌
  then-Balanced m k h g = record { same = λ s. after-Same s (m s) (λ _. k) (h.same s) (λ _. g) }

  relabelled-Same :
      {A : Type 0} (t : Text) (s : Line W) (x : Result A × Line W)
      → Same s x.1
      → Same s (relabelled t x).1
  relabelled-Same t s (ok a, s') h = h
  relabelled-Same t s (err e, s') h = h

  pub wrapped-Balanced : {A : Type 0} (t : Text) (m : S W A) → Balanced m → Balanced (wrapped t m)
  unfolding wrapped
  wrapped-Balanced t m h = record { same = λ s. relabelled-Same t s (m s) (h.same s) }

  pub world-Same : (s : Line W) (w : W) → Same s (record s { world = w })
  world-Same s w = record {
    clients = refl;
    sessions = refl;
    sftp_clients = refl;
    no_file = ground arith;
  }

  pub done-Balanced : Balanced {W = W} done
  unfolding done
  done-Balanced = record { same = λ s. world-Same s s.world }

  pub call-Balanced : (f : W → Option Error × W) → Balanced (call f)
  unfolding call
  call-Balanced f = record { same = λ s. world-Same s (f s.world).1 }

  pub ask-Balanced : {A : Type 0} (f : W → Result A × W) → Balanced (ask f)
  unfolding ask
  ask-Balanced f = record { same = λ s. world-Same s (f s.world).1 }

  pub modify-Balanced : (f : W → W) → Balanced (modify f)
  unfolding modify
  modify-Balanced f = record { same = λ s. world-Same s (f s.world) }

  module _ (link : Link W) {A : Type 0} (failed : Error → A) (body : Line W → A × Line W) where
    dialled-Same :
        (s : Line W) (x : Option Error × W)
        → Balanced body
        → Same s (dialled link failed body s x).1
    dialled-Same s (some e, w) h = world-Same s w
    dialled-Same s (none, w) h =
        let t = record s { world = w; clients = s.clients + 1 } in
        let k = h.same t in
        record {
          clients = omega (arith, k.clients);
          sessions = k.sessions;
          sftp_clients = k.sftp_clients;
          no_file = k.no_file;
        }

    pub with_client-Balanced : Balanced body → Balanced (with_client link failed body)
    unfolding with_client
    with_client-Balanced h = record { same = λ s. dialled-Same s (link.dial s.world) h }

    in_session-Same :
        (s : Line W) (x : Option Error × W)
        → Balanced body
        → Same s (in_session link failed body s x).1
    in_session-Same s (some e, w) h = world-Same s w
    in_session-Same s (none, w) h =
        let k = h.same (record s { world = w; sessions = s.sessions + 1 }) in
        record {
          clients = k.clients;
          sessions = omega (arith, k.sessions);
          sftp_clients = k.sftp_clients;
          no_file = k.no_file;
        }

    with_session-Balanced : Balanced body → Balanced (with_session link failed body)
    unfolding with_session
    with_session-Balanced h = record { same = λ s. in_session-Same s (link.new_session s.world) h }

    on_sftp-Same :
        (s : Line W) (x : Option Error × W)
        → Balanced body
        → Same s (on_sftp link failed body s x).1
    on_sftp-Same s (some e, w) h = world-Same s w
    on_sftp-Same s (none, w) h =
        let k = h.same (record s { world = w; sftp_clients = s.sftp_clients + 1 }) in
        record {
          clients = k.clients;
          sessions = k.sessions;
          sftp_clients = omega (arith, k.sftp_clients);
          no_file = k.no_file;
        }

    pub with_sftp_client-Balanced : Balanced body → Balanced (with_sftp_client link failed body)
    unfolding with_sftp_client
    with_sftp_client-Balanced h = record {
      same = λ s. on_sftp-Same s (link.new_sftp_client s.world) h;
    }

    close_if_open-Same :
        (path : Text) (s t : Line W) (b : Bool)
        → t.file_open ≡ b
        → Same (record s { file_open = true }) t
        → Same s (close_if_open link path t b)
    close_if_open-Same path s t true e k = record {
      clients = k.clients;
      sessions = k.sessions;
      sftp_clients = k.sftp_clients;
      no_file = ground arith;
    }
    close_if_open-Same path s t false e k = record {
      clients = k.clients;
      sessions = k.sessions;
      sftp_clients = k.sftp_clients;
      no_file = ground (arith, e);
    }

    on_file-Same :
        (path : Text) (s : Line W) (x : Option Error × W)
        → Balanced body
        → Same s (on_file link path failed body s x).1
    on_file-Same path s (some e, w) h = world-Same s w
    on_file-Same path s (none, w) h =
        let t = record s { world = w; file_open = true } in
        let u = record s { world = w } in
        Same-trans s u _ (world-Same s w)
          (close_if_open-Same path u (body t).1 (body t).1.file_open refl (h.same t))

    pub with_file-Balanced :
        (path : Text) → Balanced body → Balanced (with_file link path failed body)
    unfolding with_file
    with_file-Balanced path h = record {
      same = λ s. on_file-Same path s (link.create path s.world) h;
    }

  module _ (link : Link W) where
    pub close_now-Balanced : (path : Text) → Balanced (close_now link path)
    unfolding close_now
    close_now-Balanced path = record { same = λ s. go s s.file_open refl }
      where
        go : (s : Line W) (b : Bool) → s.file_open ≡ b → Same s (close_if_open link path s b)
        go s true e = record {
          clients = refl;
          sessions = refl;
          sftp_clients = refl;
          no_file = ground arith;
        }
        go s false e = world-Same s s.world

    run_command-Balanced :
        (callback : Text → W → W) (command : Text) → Balanced (run_command link callback command)
    unfolding run_command
    run_command-Balanced callback command = record { same = λ s. go s (link.run command s.world) }
      where
        go : (s : Line W) (x : Text × Option Error × W) → Same s (answered link callback s x).1
        go s (out, some e, w) = world-Same s w
        go s (out, none, w) = world-Same s (callback out w)

    pub execute_command_with_callback-Balanced :
        (callback : Text → W → W) (command : Text)
        → Balanced (execute_command_with_callback link callback command)
    unfolding execute_command_with_callback
    execute_command_with_callback-Balanced callback command =
        with_client-Balanced link _ _
          (with_session-Balanced link _ _ (run_command-Balanced callback command))

    pub execute_command-Balanced : (command : Text) → Balanced (execute_command link command)
    unfolding execute_command
    execute_command-Balanced command = execute_command_with_callback-Balanced _ command

    pub exec-Balanced : (command : Text) → Balanced (exec link command)
    unfolding exec
    exec-Balanced command = record { same = λ s. (execute_command-Balanced command).same s }

    pub test-Balanced :
        {A : Type 0} (b : Bool) (m n : S W A)
        → Balanced m
        → Balanced n
        → Balanced (if b then m else n)
    test-Balanced true m n h k = h
    test-Balanced false m n h k = k
