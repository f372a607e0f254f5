-- ===== src/Wait/Log/Laws.antt =====
-- A log wait ends by its time-out, and succeeds only on a log that passes the check.
use docker_go_sdk.Common.{ℕ, suc, ◌+◌, ◌≤◌, ◌<◌, ◌≡◌, Bool, Option, none, some, [], ◌∷◌, arith}
use docker_go_sdk.Common.Bytes.{Bytes}
use docker_go_sdk.GoError.{Error, joined, present, Result, ok, err}
use docker_go_sdk.Wait.Target.{Target, Timely, Ctx, with_timeout, timeout_or_default, check_target}
use docker_go_sdk.Wait.Poll.{again, finished}
use docker_go_sdk.Wait.Poll.Laws.{poll_returns, poll-eq-none, with_timeout_ends}
use docker_go_sdk.Wait.Log.{LogStrategy, LogState, run_check, log_round, log_wait, after_logs}

module _ {W : Type 0} (t : Target W) where
  pub now-check_target : Timely t → (w : W) → t.now w ≤ t.now (check_target t w).1
  unfolding check_target
  now-check_target timely w = ground (arith, timely.now-state w)

module _ {W : Type 0} (t : Target W) (is_permanent : Error → Bool) (ws : LogStrategy) where
  log_round_progress :
      Timely t
      → 0 < ws.poll_interval
      → (s : LogState W) → (log_round t is_permanent ws s).0 ≡ again
      → t.now s.world < t.now (log_round t is_permanent ws s).1.world
  unfolding log_round
  log_round_progress timely h s more =
      let w = (check_target t s.world).1 in
      ground (
        arith,
        now-check_target t timely s.world,
        timely.now-logs w,
        timely.now-sleep ws.poll_interval (t.logs w).1,
      )

  -- For a clock that does not run backwards and sleeps that take their time, and with a positive
  -- poll interval, the wait returns: one round for each nanosecond of the time-out, and one more, are
  -- enough, whatever the daemon answers.
  pub log_wait_returns :
      Timely t
      → (ctx : Ctx W) (w : W) → 0 < ws.poll_interval
      → (r : Option Error × LogState W) × (log_wait t is_permanent ws
            (suc (timeout_or_default ws.timeout))
            ctx
            w
          ≡ some r)
  unfolding log_wait
  log_wait_returns timely ctx w h =
      poll_returns (λ s. with_timeout t (timeout_or_default ws.timeout) ctx w s.world)
        (λ s e. joined (present (s.last_error ∷ some e ∷ []))) (λ s. s)
        (log_round t is_permanent ws) (λ s. t.now s.world) (t.now w + timeout_or_default ws.timeout)
        (log_round_progress timely h)
        (λ s. with_timeout_ends t (timeout_or_default ws.timeout) ctx w s.world)
        (timeout_or_default ws.timeout) _ (omega arith)

  after_logs_sound :
      (s s' : LogState W) (e : Option Error) (r : Result Bytes × W)
      → after_logs t is_permanent ws s e r ≡ (finished none, s')
      → (b : Bytes) × (r ≡ (ok b, s'.world)) × (run_check ws.check ws.occurrence b ≡ none)
  after_logs_sound s s' e (err x, w) h = absurd (ground arith)
  after_logs_sound s s' e (ok b, w) h = (b, ground arith, ground arith)

  -- The wait returns without an error only if the log that was read last passes the check.
  pub log_wait_sound :
      (fuel : ℕ) (ctx : Ctx W) (w : W) (s' : LogState W)
      → log_wait t is_permanent ws fuel ctx w ≡ some (none, s')
      → (v : W) × (b : Bytes) × (t.logs v ≡ (ok b, s'.world))
        × (run_check ws.check ws.occurrence b ≡ none)
  unfolding log_wait log_round
  log_wait_sound fuel ctx w s' e =
      let (s, live, last) =
        poll-eq-none (λ s. with_timeout t (timeout_or_default ws.timeout) ctx w s.world)
          (λ s e. joined (present (s.last_error ∷ some e ∷ []))) (λ s. s)
          (log_round t is_permanent ws) fuel _ e in
      let v = (check_target t s.world).1 in
      let (b, read, passed) = after_logs_sound s s' (check_target t s.world).0 (t.logs v) last in
      (v, b, read, passed)
