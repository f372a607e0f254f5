-- ===== src/Wait/HostPort/Tests.antt =====
-- A container that listens from the third nanosecond on, and the wait for its port.
use docker_go_sdk.Common.{
  ℕ, suc, ◌<◌, false, ◌≡◌, refl, ◌≢◌, ◌⊎◌, Option, none, some, [], ◌∷◌, arith, ltb, if◌then◌else◌,
}
use docker_go_sdk.Common.Int.{pos}
use docker_go_sdk.Wait.Clock.{clock, clock-Timely}
use docker_go_sdk.Container.Endpoints.{Port}
use docker_go_sdk.GoError.{Error, new, ok, err}
use docker_go_sdk.Wait.HostPort.{
  HostPortStrategy, PortTarget, Dial, connected, refused, failed, host_port_wait,
}
use docker_go_sdk.Wait.HostPort.Laws.{IsDetected}
use docker_go_sdk.Wait.HostPort.Returns.{PortTimely}
use docker_go_sdk.Wait.HostPort.Shell.{PortForeign, CtxIsForeign}
use docker_go_sdk.Wait.HostPort.Sound.{IsReady, host_port_wait_sound}
use docker_go_sdk.Wait.HostPort.Total.{host_port_wait-Returns}
use docker_go_sdk.Wait.Poll.Laws.{Returns}
use docker_go_sdk.Wait.Target.{Ctx}

abbrev web : Port
web = record { num = 80; proto = "tcp" }

abbrev outer_web : Port
outer_web = record { num = 32768; proto = "tcp" }

abbrev answer : Option Error → ℕ → Dial
answer (some e) w = failed e
answer none w = if ltb w 3 then refused else connected

abbrev listening : PortTarget ℕ
listening = record {
  target = clock;
  inspect_ports = λ w. (ok (web ∷ []), w);
  mapped_port = λ port w. if ltb w 2 then (err (new "port not found"), w) else (ok outer_web, w);
  host = λ w. (ok "localhost", w);
  dial = λ ctx address port w. (answer (ctx w) w, w);
  exec = λ ctx cmd w. (ok (pos 0), suc w);
  sprintf = λ text numbers. text;
}

abbrev strategy : HostPortStrategy
strategy = record {
  port = none;
  timeout = some 9;
  poll_interval = 1;
  skip_internal_check = false;
  skip_external_check = false;
}

abbrev open_context : Ctx ℕ
open_context w = none

not_refused : (o : Option Error) (w : ℕ) → o ≢ none → answer o w ≢ refused
not_refused none w h = absurd (h refl)
not_refused (some e) w h = λ x. cc

listening-PortTimely : PortTimely listening
listening-PortTimely = record {
  timely = clock-Timely;
  now-inspect = λ w. omega arith;
  now-mapped = λ port w. ground arith;
  now-dial = λ ctx address port w. omega arith;
  now-exec = λ ctx cmd w. omega arith;
  dial-done = λ ctx address port w h. not_refused (ctx w) w h;
}

one_positive : 0 < 1
one_positive = omega arith

host_port_wait-Returns_example : Returns (host_port_wait listening strategy 10 open_context 0)
host_port_wait-Returns_example =
    host_port_wait-Returns listening listening-PortTimely strategy open_context 0 one_positive

host_port_wait_run : host_port_wait listening strategy 10 open_context 0 ≡ some (none, 4)
unfolding host_port_wait
host_port_wait_run = refl

listening-PortForeign : PortForeign listening
listening-PortForeign = record {
  state-IsForeign = λ v v' e h. absurd (cc h);
  exec-IsForeign = λ ctx cmd v v' e h. absurd (cc h);
}

open_context-CtxIsForeign : CtxIsForeign open_context
open_context-CtxIsForeign v e h = absurd (cc h)

host_port_wait_sound_example :
    (internal : Port) × ((strategy.port ≡ some internal) ⊎ IsDetected listening internal)
    × IsReady listening listening-PortForeign strategy 10 internal
host_port_wait_sound_example =
    host_port_wait_sound listening listening-PortForeign strategy 10 open_context 0 4
      open_context-CtxIsForeign host_port_wait_run
