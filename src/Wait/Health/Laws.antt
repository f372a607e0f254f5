-- ===== src/Wait/Health/Laws.antt =====
-- A health wait ends by its time-out, and succeeds only on a running and healthy container.
use docker_go_sdk.Common.{
  ℕ, suc, ◌+◌, ◌<◌, ◌≡◌, refl, ap, String, true, Option, none, some, arith, eq_iff,
}
use docker_go_sdk.GoError.{Error, Result, ok, err}
use docker_go_sdk.Wait.Target.{
  ContainerState, Target, Timely, Ctx, with_timeout, timeout_or_default,
}
use docker_go_sdk.Wait.Poll.{again, finished}
use docker_go_sdk.Wait.Poll.Laws.{poll_returns, poll-eq-none, with_timeout_ends}
use docker_go_sdk.Wait.Health.{HealthStrategy, is_healthy, health_round, health_wait}

healthy_status : (o : Option String) → is_healthy o ≡ true → o ≡ some "healthy"
healthy_status none h = cc
healthy_status (some status) h = ap some ((eq_iff status "healthy").0 h)

module _ {W : Type 0} (t : Target W) (ws : HealthStrategy) where
  health_round_progress :
      Timely t
      → 0 < ws.poll_interval
      → (v : W) → (health_round t ws v).0 ≡ again
      → t.now v < t.now (health_round t ws v).1
  unfolding health_round
  health_round_progress timely h v more =
      ground (arith, timely.now-state v, timely.now-sleep ws.poll_interval (t.state v).1)

  healthy_of_round :
      (v w' : W)
      → health_round t ws v ≡ (finished none, w')
      → (s : ContainerState) × (t.state v ≡ (ok s, w'))
        × (s.running ≡ true)
        × (s.health ≡ some "healthy")
  unfolding health_round
  healthy_of_round v w' last = go (t.state v).0 (t.state v).1 refl last
    where
      go :
          (r : Result ContainerState) (u : W)
          → t.state v ≡ (r, u)
          → health_round t ws v ≡ (finished none, w')
          → (s : ContainerState) × (t.state v ≡ (ok s, w'))
            × (s.running ≡ true)
            × (s.health ≡ some "healthy")
      go (err e) u same last = absurd (ground arith)
      go (ok s) u same last =
          (s, ground arith, ground arith, ground (arith, healthy_status s.health))

  -- For a clock that does not run backwards and sleeps that take their time, and with a positive
  -- poll interval, the wait returns: one round for each nanosecond of the time-out, and one more, are
  -- enough, whatever the daemon answers.
  pub health_wait_returns :
      Timely t
      → (ctx : Ctx W) (w : W) → 0 < ws.poll_interval
      → (r : Option Error × W) × (health_wait t ws (suc (timeout_or_default ws.timeout)) ctx w
          ≡ some r)
  unfolding health_wait
  health_wait_returns timely ctx w h =
      poll_returns (with_timeout t (timeout_or_default ws.timeout) ctx w) (λ _ e. e) (λ v. v)
        (health_round t ws) t.now (t.now w + timeout_or_default ws.timeout)
        (health_round_progress timely h)
        (λ v. with_timeout_ends t (timeout_or_default ws.timeout) ctx w v)
        (timeout_or_default ws.timeout) w (omega arith)

  -- The wait returns without an error only if the daemon, asked last, reported a container that
  -- is running and healthy.
  pub health_wait_sound :
      (fuel : ℕ) (ctx : Ctx W) (w w' : W)
      → health_wait t ws fuel ctx w ≡ some (none, w')
      → (v : W) × (s : ContainerState) × (t.state v ≡ (ok s, w'))
        × (s.running ≡ true)
        × (s.health ≡ some "healthy")
  unfolding health_wait
  health_wait_sound fuel ctx w w' e =
      let (v, live, last) =
        poll-eq-none (with_timeout t (timeout_or_default ws.timeout) ctx w) (λ _ e. e) (λ v. v)
          (health_round t ws) fuel w e in
      let (s, asked, running, healthy) = healthy_of_round v w' last in
      (v, s, asked, running, healthy)
