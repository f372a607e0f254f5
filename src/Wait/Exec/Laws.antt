-- ===== src/Wait/Exec/Laws.antt =====
-- An exec wait ends by its time-out, and succeeds only on a run of the command that matches.
use docker_go_sdk.Common.{ℕ, suc, ◌+◌, ◌<◌, ◌≡◌, refl, true, Option, none, some, arith}
use docker_go_sdk.Common.Bytes.{Bytes}
use docker_go_sdk.Common.Int.{ℤ}
use docker_go_sdk.GoError.{Error, Result, ok, err}
use docker_go_sdk.Wait.Target.{Target, Timely, Ctx, with_timeout, timeout_or_default}
use docker_go_sdk.Wait.Poll.{finished}
use docker_go_sdk.Wait.Poll.Laws.{poll_returns, poll-eq-none, with_timeout_ends}
use docker_go_sdk.Wait.Exec.{ExecStrategy, response_matches, after_exec, exec_round, exec_wait}

module _ {W : Type 0} (t : Target W) (ws : ExecStrategy) where
  now-after_exec :
      (ctx exec_ctx : Ctx W) (r : Result (ℤ × Bytes) × W) → (after_exec t ws ctx exec_ctx r).1 ≡ r.1
  now-after_exec ctx exec_ctx (err e, w) = refl
  now-after_exec ctx exec_ctx (ok (code, body), w) = refl

  exec_round_progress :
      Timely t
      → 0 < ws.poll_interval
      → (ctx : Ctx W) (v : W) → t.now v < t.now (exec_round t ws ctx (t.sleep ws.poll_interval v)).1
  unfolding exec_round
  exec_round_progress timely h ctx v =
      let w = t.sleep ws.poll_interval v in
      ground (
        arith,
        timely.now-sleep ws.poll_interval v,
        timely.now-exec ws.cmd ws.poll_interval w,
        now-after_exec ctx (with_timeout t ws.poll_interval ctx w)
            (t.exec ws.cmd ws.poll_interval w),
      )

  -- For a clock that does not run backwards and sleeps that take their time, and with a positive
  -- poll interval, the wait returns: one round for each nanosecond of the time-out, and one more, are
  -- enough, whatever the command does.
  pub exec_wait_returns :
      Timely t
      → (ctx : Ctx W) (w : W) → 0 < ws.poll_interval
      → (r : Option Error × W) × (exec_wait t ws (suc (timeout_or_default ws.timeout)) ctx w
          ≡ some r)
  unfolding exec_wait
  exec_wait_returns timely ctx w h =
      let inner = with_timeout t (timeout_or_default ws.timeout) ctx w in
      poll_returns inner (λ _ e. e) (t.sleep ws.poll_interval) (exec_round t ws inner) t.now
        (t.now w + timeout_or_default ws.timeout) (λ v more. exec_round_progress timely h inner v)
        (λ v late.
          with_timeout_ends t (timeout_or_default ws.timeout) ctx w (t.sleep ws.poll_interval v)
            (omega (arith, timely.now-sleep ws.poll_interval v)))
        (timeout_or_default ws.timeout) w (omega arith)

  after_exec_sound :
      (ctx exec_ctx : Ctx W) (r : Result (ℤ × Bytes) × W) (w' : W)
      → after_exec t ws ctx exec_ctx r ≡ (finished none, w')
      → (code : ℤ) × (body : Bytes) × (r ≡ (ok (code, body), w'))
        × (ws.exit_code_matcher code ≡ true)
        × (response_matches ws.response_matcher body ≡ true)
  after_exec_sound ctx exec_ctx (err e, w) w' h = absurd (ground arith)
  after_exec_sound ctx exec_ctx (ok (code, body), w) w' h =
      (code, body, ground arith, ground arith, ground arith)

  -- The wait returns without an error only if the command, run last, ended with an exit code and
  -- an output that the matchers accept.
  pub exec_wait_sound :
      (fuel : ℕ) (ctx : Ctx W) (w w' : W)
      → exec_wait t ws fuel ctx w ≡ some (none, w')
      → (v : W) × (code : ℤ) × (body : Bytes) × (t.exec ws.cmd ws.poll_interval v
          ≡ (ok (code, body), w'))
        × (ws.exit_code_matcher code ≡ true)
        × (response_matches ws.response_matcher body ≡ true)
  unfolding exec_wait exec_round
  exec_wait_sound fuel ctx w w' e =
      let inner = with_timeout t (timeout_or_default ws.timeout) ctx w in
      let (v, live, last) =
        poll-eq-none inner (λ _ e. e) (t.sleep ws.poll_interval) (exec_round t ws inner) fuel w e in
      let (code, body, ran, coded, matched) =
        after_exec_sound inner (with_timeout t ws.poll_interval inner v)
          (t.exec ws.cmd ws.poll_interval v) w' last in
      (v, code, body, ran, coded, matched)
