-- ===== src/Wait/Health.antt =====
-- container/wait/health.go
pub mod Laws
use docker_go_sdk.Common.{
  ℕ, String, Bool, true, false, not, Option, none, some, str_eq, if◌then◌else◌,
}
use docker_go_sdk.GoError.{Error, Result, ok, err}
use docker_go_sdk.Wait.Target.{
  ContainerState, Target, Ctx, with_timeout, timeout_or_default, default_poll_interval, check_state,
}
use docker_go_sdk.Wait.Poll.{Verdict, again, finished, poll}

pub record HealthStrategy : Type 0 where
  pub timeout : Option ℕ
  pub poll_interval : ℕ

unfoldable pub new_health_strategy : HealthStrategy
new_health_strategy = record { timeout = none; poll_interval = default_poll_interval }

abbrev pub with_health_timeout : HealthStrategy → ℕ → HealthStrategy
with_health_timeout ws timeout = record ws { timeout = some timeout }

abbrev pub with_health_poll_interval : HealthStrategy → ℕ → HealthStrategy
with_health_poll_interval ws interval = record ws { poll_interval = interval }

-- `state.Health != nil && state.Health.Status == container.Healthy`
abbrev pub is_healthy : Option String → Bool
is_healthy none = false
is_healthy (some status) = str_eq status "healthy"

module _ {W : Type 0} (t : Target W) (ws : HealthStrategy) where
  abbrev judge : Option Error → Bool → W → Verdict × W
  judge (some e) healthy w = (finished (some e), w)
  judge none true w = (finished none, w)
  judge none false w = (again, t.sleep ws.poll_interval w)

  abbrev judged : Result ContainerState × W → Verdict × W
  judged (err e, w) = (finished (some e), w)
  judged (ok s, w) = judge (check_state s) (is_healthy s.health) w

  -- The `default` case of the loop.
  unfoldable pub health_round : W → Verdict × W
  unfolding check_state
  health_round w = judged (t.state w)

  -- `(ws *HealthStrategy) WaitUntilReady`
  unfoldable pub health_wait : ℕ → Ctx W → W → Option (Option Error × W)
  unfolding health_round
  health_wait fuel ctx w =
      poll fuel (with_timeout t (timeout_or_default ws.timeout) ctx w) (λ _ e. e) (λ v. v)
        health_round w
