-- ===== src/Wait/Clock.antt =====
-- A world that is nothing but its clock, with a running container in it, for the tests of the waits.
use docker_go_sdk.Common.{ℕ, ◌+◌, true, false, none, [], arith}
use docker_go_sdk.Common.Int.{pos}
use docker_go_sdk.GoError.{ok}
use docker_go_sdk.Wait.Target.{Target, Timely}

abbrev pub clock : Target ℕ
clock = record {
  now = λ w. w;
  sleep = λ d w. w + d;
  state = λ w. (
    ok (record {
      running = true;
      oom_killed = false;
      status = "running";
      exit_code = pos 0;
      health = none;
    }),
    w,
  );
  logs = λ w. (ok [], w);
  exec = λ cmd d w. (ok (pos 0, []), w);
  copy_from_container = λ file w. (ok [], w);
}

pub clock-Timely : Timely clock
clock-Timely = record {
  now-sleep = λ d w. omega arith;
  now-state = λ w. omega arith;
  now-logs = λ w. omega arith;
  now-exec = λ cmd d w. omega arith;
  now-copy = λ file w. omega arith;
}
