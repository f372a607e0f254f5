-- ===== src/Wait/Http/Tests.antt =====
-- A server that answers from the third nanosecond on, and the wait for its answer.
use docker_go_sdk.Common.{ℕ, suc, ◌<◌, ◌≡◌, refl, none, some, [], ◌∷◌, arith, ltb, if◌then◌else◌}
use docker_go_sdk.Container.Endpoints.{Port}
use docker_go_sdk.GoError.{new, ok, err}
use docker_go_sdk.Wait.Http.{
  HttpStrategy, HttpTarget, Response, with_http_poll_interval, for_http, with_port,
  with_http_timeout, http_wait,
}
use docker_go_sdk.Wait.Http.Returns.{HttpTimely, http_wait-Returns}
use docker_go_sdk.Wait.Http.Sound.{IsAnswered, http_wait-IsAnswered}
use docker_go_sdk.Wait.Clock.{clock, clock-Timely}
use docker_go_sdk.Wait.Poll.Laws.{Returns}
use docker_go_sdk.Wait.Target.{Ctx}

abbrev web : Port
web = record { num = 80; proto = "tcp" }

abbrev outer_web : Port
outer_web = record { num = 32768; proto = "tcp" }

abbrev answer : ℕ → Response
answer status = record { status_code = status; body = []; headers = []; close = none }

abbrev server : HttpTarget ℕ
server = record {
  target = clock;
  host = λ w. (ok "localhost", w);
  inspect_ports = λ w. (ok ((web, "32768" ∷ []) ∷ []), w);
  mapped_port = λ port w. if ltb w 2 then (err (new "port not found"), w) else (ok outer_web, w);
  parse_port = λ text. ok outer_web;
  force_ipv4 = λ text. text;
  join_host_port = λ address port. address;
  url_of = λ scheme address user path. ok address;
  request_error = λ request. none;
  send = λ ctx request w. (ok (answer (if ltb w 3 then 503 else 200)), suc w);
}

abbrev strategy : HttpStrategy
strategy = with_http_poll_interval (with_port (with_http_timeout (for_http "/") 9) (some web)) 1

abbrev open_context : Ctx ℕ
open_context w = none

server-HttpTimely : HttpTimely server
server-HttpTimely = record {
  timely = clock-Timely;
  now-mapped = λ port w. ground arith;
  now-send = λ ctx request w. omega arith;
}

one_positive : 0 < 1
one_positive = omega arith

http_wait-Returns_example : Returns (http_wait server strategy 10 open_context 0)
http_wait-Returns_example =
    http_wait-Returns server strategy server-HttpTimely open_context 0 one_positive

http_wait_run : http_wait server strategy 10 open_context 0 ≡ some (none, 4)
unfolding http_wait
http_wait_run = refl

http_wait-IsAnswered_example : IsAnswered server strategy
http_wait-IsAnswered_example =
    http_wait-IsAnswered server strategy 10 open_context 0 4 http_wait_run
