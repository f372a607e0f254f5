-- ===== src/Wait/Exit.antt =====
-- container/wait/exit.go
pub mod Laws
use Prim.Native.String.{String}
use docker_go_sdk.Common.{ℕ, Bool, true, false, Option, none, some, if◌then◌else◌}
use docker_go_sdk.Common.Bytes.{Bytes, codes, has_prefix, cut_prefix}
use docker_go_sdk.Container.Cleanup.{message}
use docker_go_sdk.Common.{List, [], ◌∷◌, ◌||◌}
use docker_go_sdk.GoError.{Error, Result, ok, err}
use docker_go_sdk.Wait.Target.{ContainerState, Target, Ctx, with_timeout, default_poll_interval}
use docker_go_sdk.Wait.Poll.{Verdict, again, finished, poll}

pub record ExitStrategy : Type 0 where
  pub timeout : Option ℕ
  pub poll_interval : ℕ

unfoldable pub new_exit_strategy : ExitStrategy
new_exit_strategy = record { timeout = none; poll_interval = default_poll_interval }

-- `strings.Contains(s, substring)`, with the substring first.
unfoldable pub contains : Bytes → Bytes → Bool
unfolding cut_prefix
contains sub [] = has_prefix sub []
contains sub (c ∷ s) = has_prefix sub (c ∷ s) || contains sub s

module _ {W : Type 0} (t : Target W) (ws : ExitStrategy) where
  abbrev asked : Result ContainerState × W → Verdict × W
  asked (err e, w) =
      if contains (codes "No such container") (codes (message e))
      then (finished none, w)
      else (finished (some e), w)
  asked (ok s, w) = if s.running then (again, t.sleep ws.poll_interval w) else (finished none, w)

  -- The `default` case of the loop.
  unfoldable pub exit_round : W → Verdict × W
  unfolding contains message
  exit_round w = asked (t.state w)

  -- Without a time-out the context is the caller's.
  abbrev pub exit_context : Option ℕ → Ctx W → W → Ctx W
  exit_context none ctx w = ctx
  exit_context (some timeout) ctx w = with_timeout t timeout ctx w

  -- `(ws *ExitStrategy) WaitUntilReady`
  unfoldable pub exit_wait : ℕ → Ctx W → W → Option (Option Error × W)
  unfolding exit_round
  exit_wait fuel ctx w = poll fuel (exit_context ws.timeout ctx w) (λ _ e. e) (λ v. v) exit_round w
