-- ===== src/Ssh/Wait.antt =====
-- WaitForSSH of pkg/sshutils/ssh_config.go. The calls of NewClient are numbered from 0, and what the
-- network, the clock and the context answer is given by `Attempts`.
use andaime.Base.{
  ℕ, zero, suc, ◌+◌, ◌-◌, ltb, Bool, Option, none, some, if◌then◌else◌, ℤ, pos_part, is_positive,
}
use andaime.Remote.{Error}

pub record Attempts : Type 0 where
  -- The error of the call of NewClient with this number.
  pub dial : ℕ → Option Error
  -- The time when the wait starts, in seconds.
  pub start : ℕ
  -- The time at the test of the loop before that call, and the context at its `select`.
  pub now : ℕ → ℕ
  pub done : ℕ → Bool
  -- The time at the last test, after so many calls.
  pub late : ℕ → ℕ

-- The answer of WaitForSSH; its errors wrap the last error of NewClient.
pub data WaitResult : Type 0 where
  connected : WaitResult
  cancelled exhausted timed_out last_error : Error → WaitResult

-- The call with the number `k`, and what follows its error.
abbrev pub after_dial : ℕ → Option Error → (Error → WaitResult × ℕ) → WaitResult × ℕ
after_dial k none rest = (WaitResult.connected, k + 1)
after_dial k (some e) rest = rest e

module _ (a : Attempts) (deadline : ℕ) where
  abbrev pub stopped : Error → ℕ → WaitResult
  stopped e k = if ltb deadline (a.late k) then WaitResult.timed_out e else WaitResult.last_error e

  -- The loop, with the number of turns that `maxRetries` leaves; `k` calls have been made. The answer
  -- comes with the number of calls.
  unfoldable pub wait_turns : ℕ → ℕ → Error → WaitResult × ℕ
  wait_turns zero k e = (WaitResult.exhausted e, k)
  wait_turns (suc n) k e =
      let turn = after_dial k (a.dial k) (wait_turns n (k + 1)) in
      if ltb (a.now k) deadline
      then (if a.done k then (WaitResult.cancelled e, k) else turn)
      else (stopped e k, k)

-- `maxRetries`
abbrev pub max_retries_of : ℤ → ℤ → ℤ
max_retries_of retry configured = if is_positive retry then retry else configured

-- `WaitForSSH(ctx, retry, timeout)`, with the `MaxRetries` of the configuration.
unfoldable pub wait_for_ssh : Attempts → ℤ → ℤ → ℕ → WaitResult × ℕ
unfolding wait_turns
wait_for_ssh a configured retry timeout =
    after_dial 0 (a.dial 0)
      (wait_turns a (a.start + timeout) (pos_part (max_retries_of retry configured) - 1) 1)
