-- ===== src/Wait/Exec.antt =====
-- container/wait/exec.go. A matcher reads the whole output of the command.
pub mod Laws
use docker_go_sdk.Common.{
  ℕ, zero, suc, String, Bool, true, false, Option, none, some, List, ◌==◌, ◌&&◌, if◌then◌else◌,
}
use docker_go_sdk.Common.Bytes.{Bytes}
use docker_go_sdk.Common.Int.{ℤ, pos, negsuc}
use docker_go_sdk.GoError.{Error, Result, ok, err}
use docker_go_sdk.Wait.Target.{Target, Ctx, with_timeout, timeout_or_default, default_poll_interval}
use docker_go_sdk.Wait.Poll.{Verdict, again, finished, poll}

pub record ExecStrategy : Type 0 where
  pub timeout : Option ℕ
  pub cmd : List String
  pub exit_code_matcher : ℤ → Bool
  pub response_matcher : Option (Bytes → Bool)
  pub poll_interval : ℕ
  pub retry_on_error : Bool

-- `a == b` on exit codes.
abbrev pub same_code : ℤ → ℤ → Bool
same_code (pos a) (pos b) = a == b
same_code (negsuc a) (negsuc b) = a == b
same_code _ _ = false

abbrev pub default_exit_code_matcher : ℤ → Bool
default_exit_code_matcher exit_code = same_code exit_code (pos 0)

abbrev pub new_exec_strategy : List String → ExecStrategy
new_exec_strategy cmd = record {
  timeout = none;
  cmd = cmd;
  exit_code_matcher = default_exit_code_matcher;
  response_matcher = some (λ body. true);
  poll_interval = default_poll_interval;
  retry_on_error = false;
}

abbrev pub with_exec_timeout : ExecStrategy → ℕ → ExecStrategy
with_exec_timeout ws timeout = record ws { timeout = some timeout }

abbrev pub with_exit_code_matcher : ExecStrategy → (ℤ → Bool) → ExecStrategy
with_exit_code_matcher ws matcher = record ws { exit_code_matcher = matcher }

abbrev pub with_exit_code : ExecStrategy → ℤ → ExecStrategy
with_exit_code ws exit_code =
    with_exit_code_matcher ws (λ actual_code. same_code actual_code exit_code)

abbrev pub with_response_matcher : ExecStrategy → (Bytes → Bool) → ExecStrategy
with_response_matcher ws matcher = record ws { response_matcher = some matcher }

abbrev pub with_exec_poll_interval : ExecStrategy → ℕ → ExecStrategy
with_exec_poll_interval ws interval = record ws { poll_interval = interval }

abbrev pub with_retry_on_error : ExecStrategy → ExecStrategy
with_retry_on_error ws = record ws { retry_on_error = true }

-- `ws.ResponseMatcher == nil || ws.ResponseMatcher(resp)`
abbrev pub response_matches : Option (Bytes → Bool) → Bytes → Bool
response_matches none body = true
response_matches (some matcher) body = matcher body

module _ {W : Type 0} (t : Target W) (ws : ExecStrategy) where
  -- After an error of the command: the errors of the wait's context and of the command's context.
  abbrev after_failure : Error → Option Error → Option Error → Verdict
  after_failure e (some done) timed_out = finished (some done)
  after_failure e none (some timed_out) = again
  after_failure e none none = if ws.retry_on_error then again else finished (some e)

  abbrev pub after_exec : Ctx W → Ctx W → Result (ℤ × Bytes) × W → Verdict × W
  after_exec ctx exec_ctx (err e, w) = (after_failure e (ctx w) (exec_ctx w), w)
  after_exec ctx exec_ctx (ok (exit_code, body), w) = (
    (if ws.exit_code_matcher exit_code && response_matches ws.response_matcher body
        then finished none
        else again),
    w,
  )

  -- The case of the loop that the timer starts.
  unfoldable pub exec_round : Ctx W → W → Verdict × W
  exec_round ctx w =
      after_exec ctx (with_timeout t ws.poll_interval ctx w) (t.exec ws.cmd ws.poll_interval w)

  -- `(ws *ExecStrategy) WaitUntilReady`
  unfoldable pub exec_wait : ℕ → Ctx W → W → Option (Option Error × W)
  unfolding exec_round
  exec_wait fuel ctx w =
      let inner = with_timeout t (timeout_or_default ws.timeout) ctx w in
      poll fuel inner (λ _ e. e) (t.sleep ws.poll_interval) (exec_round inner) w
