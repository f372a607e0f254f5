-- ===== src/Wait/Tests.antt =====
-- A target on a clock, and the laws of the wait strategies on it.
use docker_go_sdk.Wait.Target.{check_target}
use docker_go_sdk.Wait.Poll.{poll}
use docker_go_sdk.Common.{
  ℕ, zero, suc, ◌==◌, ◌+◌, ◌<◌, ◌≡◌, refl, ◌≢◌, true, false, Bool, Option, none, some, [], ◌∷◌,
  arith,
}
use docker_go_sdk.Common.Bytes.{Bytes, codes}
use docker_go_sdk.Common.Int.{ℤ, pos}
use docker_go_sdk.GoError.{Error, ok}
use docker_go_sdk.Wait.{Strategy, leaf, multi, nil, null, cons}
use docker_go_sdk.Wait.Target.{ContainerState, Target, Timely, Ctx, deadline_exceeded}
use docker_go_sdk.Wait.Walk.{walk_from}
use docker_go_sdk.Wait.Walk.Laws.{removing, prune, reached, walk_from-prune}
use docker_go_sdk.Wait.Health.{HealthStrategy, health_wait}
use docker_go_sdk.Wait.Health.Laws.{health_wait_returns, health_wait_sound}
use docker_go_sdk.Wait.Log.{LogStrategy, LogState, text, count, run_check, log_wait}
use docker_go_sdk.Wait.Log.Laws.{log_wait_returns, log_wait_sound}
use docker_go_sdk.Wait.Exec.{
  ExecStrategy, new_exec_strategy, with_exec_timeout, with_exec_poll_interval, response_matches,
  exec_wait,
}
use docker_go_sdk.Wait.Exec.Laws.{exec_wait_returns, exec_wait_sound}
use docker_go_sdk.Wait.Exit.{ExitStrategy, exit_wait}
use docker_go_sdk.Wait.All.{Leaves, for_all, wait_until_ready}
use docker_go_sdk.Wait.All.Laws.{Punctual, wait_until_ready_reports}

abbrev is_first : Strategy ℕ → Bool
is_first (leaf l) = l == 0
is_first (multi timeout deadline strategies) = false

abbrev tree : Strategy ℕ
tree = for_all (cons (leaf 0) (null (cons (for_all (cons (leaf 1) (cons (leaf 0) nil))) nil)))

walk_from-prune_example :
    walk_from (removing is_first) (some (some tree)) []
    ≡ (none, prune is_first tree, reached is_first tree)
walk_from-prune_example = walk_from-prune is_first tree []

prune_test : prune is_first tree ≡ some (for_all (null (cons (for_all (cons (leaf 1) nil)) nil)))
prune_test = refl

-- The container runs up to the time 3 and is healthy from the time 2 on; the world is the clock.
abbrev state_at : ℕ → ContainerState
state_at zero = record {
  running = true;
  oom_killed = false;
  status = "running";
  exit_code = pos 0;
  health = some "starting";
}
state_at (suc zero) = record {
  running = true;
  oom_killed = false;
  status = "running";
  exit_code = pos 0;
  health = none;
}
state_at (suc (suc zero)) = record {
  running = true;
  oom_killed = false;
  status = "running";
  exit_code = pos 0;
  health = some "healthy";
}
state_at (suc (suc (suc w))) = record {
  running = false;
  oom_killed = false;
  status = "exited";
  exit_code = pos 0;
  health = none;
}

abbrev clock : Target ℕ
clock = record {
  now = λ w. w;
  sleep = λ d w. w + d;
  state = λ w. (ok (state_at w), w);
  logs = λ w. (ok (codes "boot ready"), w);
  exec = λ cmd d w. (ok (pos 0, []), w);
  copy_from_container = λ file w. (ok [], w);
}

clock-Timely : Timely clock
clock-Timely = record {
  now-sleep = λ d w. omega arith;
  now-state = λ w. omega arith;
  now-logs = λ w. omega arith;
  now-exec = λ cmd d w. omega arith;
  now-copy = λ file w. omega arith;
}

abbrev health_strategy : HealthStrategy
health_strategy = record { timeout = some 5; poll_interval = 1 }

abbrev open_context : Ctx ℕ
open_context w = none

one_positive : 0 < 1
one_positive = omega arith

health_wait_returns_example :
    (r : Option Error × ℕ) × (health_wait clock health_strategy 6 open_context 0 ≡ some r)
health_wait_returns_example =
    health_wait_returns clock health_strategy clock-Timely open_context 0 one_positive

health_wait_run : health_wait clock health_strategy 6 open_context 0 ≡ some (none, 2)
unfolding health_wait poll
health_wait_run = refl

health_wait_sound_example :
    (v : ℕ) × (s : ContainerState) × (clock.state v ≡ (ok s, 2))
    × (s.running ≡ true)
    × (s.health ≡ some "healthy")
health_wait_sound_example =
    health_wait_sound clock health_strategy 6 open_context 0 2 health_wait_run

abbrev log_strategy : LogStrategy
log_strategy = record {
  timeout = some 5;
  check = text (codes "ready");
  occurrence = 1;
  poll_interval = 1;
}

abbrev never_permanent : Error → Bool
never_permanent e = false

log_wait_returns_example :
    (r : Option Error × LogState ℕ) × (log_wait clock never_permanent log_strategy 6 open_context 0
      ≡ some r)
log_wait_returns_example =
    log_wait_returns clock never_permanent log_strategy clock-Timely open_context 0 one_positive

abbrev log_found : LogState ℕ
log_found = record { world = 0; last_len = 0; last_error = none }

log_wait_run : log_wait clock never_permanent log_strategy 6 open_context 0 ≡ some (none, log_found)
unfolding log_wait poll run_check check_target
log_wait_run = refl

log_wait_sound_example :
    (v : ℕ) × (b : Bytes) × (clock.logs v ≡ (ok b, 0))
    × (run_check (text (codes "ready")) 1 b ≡ none)
log_wait_sound_example =
    log_wait_sound clock never_permanent log_strategy 6 open_context 0 log_found log_wait_run

abbrev exit_strategy : ExitStrategy
exit_strategy = record { timeout = some 9; poll_interval = 1 }

exit_wait_run : exit_wait clock exit_strategy 10 open_context 0 ≡ some (none, 3)
unfolding exit_wait poll
exit_wait_run = refl

abbrev exec_strategy : ExecStrategy
exec_strategy = with_exec_poll_interval (with_exec_timeout (new_exec_strategy ("true" ∷ [])) 5) 1

exec_wait_returns_example :
    (r : Option Error × ℕ) × (exec_wait clock exec_strategy 6 open_context 0 ≡ some r)
exec_wait_returns_example =
    exec_wait_returns clock exec_strategy clock-Timely open_context 0 one_positive

exec_wait_run : exec_wait clock exec_strategy 6 open_context 0 ≡ some (none, 1)
unfolding exec_wait poll
exec_wait_run = refl

exec_wait_sound_example :
    (v : ℕ) × (code : ℤ) × (body : Bytes) × (clock.exec ("true" ∷ []) 1 v ≡ (ok (code, body), 1))
    × (exec_strategy.exit_code_matcher code ≡ true)
    × (response_matches exec_strategy.response_matcher body ≡ true)
exec_wait_sound_example = exec_wait_sound clock exec_strategy 6 open_context 0 1 exec_wait_run

-- Each leaf reports the error of its context.
abbrev obedient : Leaves ℕ ℕ
obedient = record { timeout = λ l. some none; wait = λ l ctx w. (ctx w, w) }

obedient-Punctual : Punctual clock obedient
obedient-Punctual = record {
  reports = λ l ctx w done. done w (omega arith);
  forward = λ l ctx w. omega arith;
}

abbrev done_context : Ctx ℕ
done_context w = some deadline_exceeded

wait_until_ready_reports_example : (wait_until_ready clock obedient tree done_context 0).0 ≢ none
wait_until_ready_reports_example =
    wait_until_ready_reports clock obedient obedient-Punctual tree done_context 0 refl (λ v h e. cc)

-- A code point of three bytes and a byte that continues nothing.
count_test : count (0xe2 ∷ 0x82 ∷ 0xac ∷ 0x80 ∷ []) [] ≡ 3
unfolding count
count_test = refl
