-- ===== src/Wait/Exit/Laws.antt =====
-- An exit wait succeeds only on a container that does not run.
use docker_go_sdk.Common.{ℕ, suc, ◌+◌, ◌<◌, ◌≡◌, true, false, Option, none, some, arith}
use docker_go_sdk.Common.Bytes.{codes}
use docker_go_sdk.Container.Cleanup.{message}
use docker_go_sdk.GoError.{Error, Result, ok, err}
use docker_go_sdk.Wait.Target.{ContainerState, Target, Timely, Ctx, with_timeout}
use docker_go_sdk.Wait.Poll.{again, finished}
use docker_go_sdk.Wait.Poll.Laws.{poll_returns, poll-eq-none, with_timeout_ends}
use docker_go_sdk.Wait.Exit.{ExitStrategy, contains, asked, exit_round, exit_wait, exit_context}

-- What the daemon may have answered last: a state that is not running, or that there is no such
-- container.
abbrev pub IsGone : Result ContainerState → Type 0
IsGone (ok s) = s.running ≡ false
IsGone (err e) = contains (codes "No such container") (codes (message e)) ≡ true

module _ {W : Type 0} (t : Target W) (ws : ExitStrategy) where
  asked-IsGone :
      (r : Result ContainerState × W) (w' : W)
      → asked t ws r ≡ (finished none, w')
      → IsGone r.0 × (r.1 ≡ w')
  asked-IsGone (err e, w) w' h = ground arith
  asked-IsGone (ok s, w) w' h = ground arith

  -- The wait returns without an error only after the daemon has reported that the container does
  -- not run, or that there is no such container.
  pub exit_wait_sound :
      (fuel : ℕ) (ctx : Ctx W) (w w' : W)
      → exit_wait t ws fuel ctx w ≡ some (none, w')
      → (v : W) × IsGone (t.state v).0 × ((t.state v).1 ≡ w')
  unfolding exit_wait exit_round
  exit_wait_sound fuel ctx w w' e =
      let (v, live, last) =
        poll-eq-none (exit_context t ws ws.timeout ctx w) (λ _ e. e) (λ v. v) (exit_round t ws) fuel
          w e in
      let (gone, same) = asked-IsGone (t.state v) w' last in (v, gone, same)

  exit_round_progress :
      Timely t
      → 0 < ws.poll_interval
      → (v : W) → (exit_round t ws v).0 ≡ again
      → t.now v < t.now (exit_round t ws v).1
  unfolding exit_round
  exit_round_progress timely h v more =
      ground (arith, timely.now-state v, timely.now-sleep ws.poll_interval (t.state v).1)

  -- For a clock that does not run backwards and sleeps that take their time, with a time-out and a
  -- positive poll interval, the wait returns: one round for each nanosecond of the time-out, and one
  -- more, are enough.
  pub exit_wait_returns :
      Timely t
      → (ctx : Ctx W) (w : W) (timeout : ℕ) → ws.timeout ≡ some timeout
      → 0 < ws.poll_interval
      → (r : Option Error × W) × (exit_wait t ws (suc timeout) ctx w ≡ some r)
  unfolding exit_wait
  exit_wait_returns timely ctx w timeout given h = rw given (
      poll_returns (with_timeout t timeout ctx w) (λ _ e. e) (λ v. v) (exit_round t ws) t.now
        (t.now w + timeout) (exit_round_progress timely h)
        (λ v. with_timeout_ends t timeout ctx w v) timeout w (omega arith))
