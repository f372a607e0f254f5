-- ===== src/Wait/Http/Returns.antt =====
-- An HTTP wait returns.
use docker_go_sdk.Common.{
  ℕ, suc, ◌+◌, ◌≤◌, ◌<◌, String, ◌≡◌, refl, ◌≢◌, Bool, true, false, Option, none, some, List, arith,
  str_eq,
}
use docker_go_sdk.Common.Bytes.{Bytes}
use docker_go_sdk.Container.Endpoints.{Port}
use docker_go_sdk.GoError.{Error, Result, ok, err}
use docker_go_sdk.Wait.Http.{
  HttpStrategy, HttpTarget, Request, Response, is_accepted, judge, judge_response, send_valid,
  send_checked, http_round, request_loop, after_mapping, map_checked, http_map_round, http_map_loop,
  with_last, pause, with_body, with_url, with_method, call_port, call_parsed, call_lowest,
  call_inspected, inspect_checked, inspect_unless, call_tcp, after_map, call_mapped, call_address,
  call_host, http_wait, lowest_tcp, method_of, body_of,
}
use docker_go_sdk.Wait.Log.Laws.{now-check_target}
use docker_go_sdk.Wait.Poll.Laws.{Returns, if_Returns, poll_returns, with_timeout_ends}
use docker_go_sdk.Wait.Target.{Timely, Ctx, with_timeout, timeout_or_default, check_target}

-- No call turns the clock back, and sleeps take their time.
pub record HttpTimely {W : Type 0} (t : HttpTarget W) : Type 0 where
  pub timely : Timely t.target
  pub now-mapped : (port : Port) (v : W) → t.target.now v ≤ t.target.now (t.mapped_port port v).1
  pub now-send :
      (ctx : Ctx W) (request : Request) (v : W)
      → t.target.now v ≤ t.target.now (t.send ctx request v).1

module _ {W : Type 0} (t : HttpTarget W) (ws : HttpStrategy) (timed : HttpTimely t) where
  abbrev now : W → ℕ
  now v = t.target.now v

  judge-now : (b : Bool) (w : W) → now (judge t ws b w).1 ≡ now w
  judge-now true w = refl
  judge-now false w = refl

  judge_response-now : (r : Result Response × W) → now (judge_response t ws r).1 ≡ now r.1
  judge_response-now (err e, w) = refl
  judge_response-now (ok resp, w) = judge-now (is_accepted ws resp) w

  send_valid-now :
      (ctx : Ctx W) (request : Request) (e : Option Error) (w : W)
      → now w ≤ now (send_valid t ws ctx request e w).1
  send_valid-now ctx request (some e) w = omega arith
  send_valid-now ctx request none w =
      omega (arith, judge_response-now (t.send ctx request w), timed.now-send ctx request w)

  send_checked-now :
      (ctx : Ctx W) (request : Request) (r : Option Error × W)
      → now r.1 ≤ now (send_checked t ws ctx request r).1
  send_checked-now ctx request (some e, w) = omega arith
  send_checked-now ctx request (none, w) = send_valid-now ctx request (t.request_error request) w

  http_progress :
      (ctx : Ctx W) (request : Request) (w : W)
      → 0 < ws.poll_interval
      → now w < now (http_round t ws ctx request (t.target.sleep ws.poll_interval w)).1
  unfolding http_round
  http_progress ctx request w h = omega (
    arith,
    timed.timely.now-sleep ws.poll_interval w,
    now-check_target t.target timed.timely (t.target.sleep ws.poll_interval w),
    send_checked-now ctx request (check_target t.target (t.target.sleep ws.poll_interval w)),
  )

  after_mapping-now : (r : Result Port × W) → now (after_mapping t ws r).1.1 ≡ now r.1
  after_mapping-now (err e, w) = refl
  after_mapping-now (ok port, w) = refl

  map_checked-now :
      (internal : Port) (last : Result Port) (r : Option Error × W)
      → now r.1 ≤ now (map_checked t ws internal last r).1.1
  map_checked-now internal last (some e, w) = omega arith
  map_checked-now internal last (none, w) =
      omega (arith, after_mapping-now (t.mapped_port internal w), timed.now-mapped internal w)

  map_progress :
      (internal : Port) (s : Result Port × W)
      → 0 < ws.poll_interval
      → now s.1 < now (http_map_round t ws internal (pause t ws s)).1.1
  unfolding http_map_round
  map_progress internal (last, w) h = omega (
    arith,
    timed.timely.now-sleep ws.poll_interval w,
    now-check_target t.target timed.timely (t.target.sleep ws.poll_interval w),
    map_checked-now internal last (check_target t.target (t.target.sleep ws.poll_interval w)),
  )

  module _ (outer : Ctx W) (w0 : W) (h : 0 < ws.poll_interval) where
    abbrev bounded : Ctx W
    bounded = with_timeout t.target (timeout_or_default ws.timeout) outer w0

    abbrev deadline : ℕ
    deadline = now w0 + timeout_or_default ws.timeout

    paused_ends : (v : W) → deadline ≤ now v → bounded (t.target.sleep ws.poll_interval v) ≢ none
    paused_ends v late =
        with_timeout_ends t.target (timeout_or_default ws.timeout) outer w0
          (t.target.sleep ws.poll_interval v)
          (omega (arith, timed.timely.now-sleep ws.poll_interval v))

    request_loop-Returns :
        (request : Request) (w : W) → Returns (request_loop t ws (suc deadline) bounded request w)
    unfolding request_loop
    request_loop-Returns request w =
        poll_returns bounded (λ v e. e) (λ v. t.target.sleep ws.poll_interval v)
          (http_round t ws bounded request) now deadline
          (λ v more. http_progress bounded request v h) paused_ends deadline w (omega arith)

    http_map_loop-Returns :
        (internal : Port) (s : Result Port × W)
        → Returns (http_map_loop t ws (suc deadline) bounded internal s)
    unfolding http_map_loop
    http_map_loop-Returns internal s =
        poll_returns (λ v. bounded v.1) (λ v e. with_last t ws v.0 e) (pause t ws)
          (http_map_round t ws internal) (λ v. now v.1) deadline
          (λ v more. map_progress internal v h) (λ v late. paused_ends v.1 late) deadline s
          (omega arith)

    with_body-Returns :
        (method url : String) (r : Result Bytes) (w : W)
        → Returns (with_body t ws (suc deadline) bounded method url r w)
    with_body-Returns method url (err e) w = (_, refl)
    with_body-Returns method url (ok body) w = request_loop-Returns _ w

    with_url-Returns :
        (method : String) (r : Result String) (w : W)
        → Returns (with_url t ws (suc deadline) bounded method r w)
    with_url-Returns method (err e) w = (_, refl)
    with_url-Returns method (ok url) w = with_body-Returns method url (body_of ws.body) w

    with_method-Returns :
        (address : String) (port : Port) (r : Result String) (w : W)
        → Returns (with_method t ws (suc deadline) bounded address port r w)
    with_method-Returns address port (err e) w = (_, refl)
    with_method-Returns address port (ok method) w = with_url-Returns method _ w

    call_port-Returns :
        (address : String) (port : Port) (w : W)
        → Returns (call_port t ws (suc deadline) bounded address port w)
    call_port-Returns address port w = with_method-Returns address port (method_of ws.method) w

    call_parsed-Returns :
        (address : String) (r : Result Port) (w : W)
        → Returns (call_parsed t ws (suc deadline) bounded address r w)
    call_parsed-Returns address (err e) w = (_, refl)
    call_parsed-Returns address (ok port) w = call_port-Returns address port w

    call_lowest-Returns :
        (address : String) (lowest : Option (Port × String)) (w : W)
        → Returns (call_lowest t ws (suc deadline) bounded address lowest w)
    call_lowest-Returns address none w = (_, refl)
    call_lowest-Returns address (some (port, binding)) w = call_parsed-Returns address _ w

    call_inspected-Returns :
        (address : String) (r : Result (List (Port × List String)) × W)
        → Returns (call_inspected t ws (suc deadline) bounded address r)
    call_inspected-Returns address (err e, w) = (_, refl)
    call_inspected-Returns address (ok ports, w) =
        call_lowest-Returns address (lowest_tcp none ports) w

    inspect_checked-Returns :
        (address : String) (r : Option Error × W)
        → Returns (inspect_checked t ws (suc deadline) bounded address r)
    inspect_checked-Returns address (some e, w) = (_, refl)
    inspect_checked-Returns address (none, w) = call_inspected-Returns address (t.inspect_ports w)

    inspect_unless-Returns :
        (address : String) (e : Option Error) (w : W)
        → Returns (inspect_unless t ws (suc deadline) bounded address e w)
    inspect_unless-Returns address (some e) w = (_, refl)
    inspect_unless-Returns address none w =
        inspect_checked-Returns address (check_target t.target w)

    call_tcp-Returns :
        (address : String) (port : Port) (w : W)
        → Returns (call_tcp t ws (suc deadline) bounded address port w)
    call_tcp-Returns address port w =
        if_Returns (str_eq port.proto "tcp") _ _ (call_port-Returns address port w) (_, refl)

    after_map-Returns :
        (address : String) (o : Option (Option Error × (Result Port × W)))
        → Returns o
        → Returns (after_map t ws (suc deadline) bounded address o)
    after_map-Returns address none (r, e) = absurd (cc e)
    after_map-Returns address (some (some x, (r, w))) e = (_, refl)
    after_map-Returns address (some (none, (err x, w))) e = (_, refl)
    after_map-Returns address (some (none, (ok port, w))) e = call_tcp-Returns address port w

    call_mapped-Returns :
        (address : String) (internal : Port) (r : Result Port × W)
        → Returns (call_mapped t ws (suc deadline) bounded address internal r)
    call_mapped-Returns address internal (ok port, w) = call_tcp-Returns address port w
    call_mapped-Returns address internal (err e, w) =
        after_map-Returns address (http_map_loop t ws (suc deadline) bounded internal (err e, w))
          (http_map_loop-Returns internal (err e, w))

    call_address-Returns :
        (address : String) (named : Option Port) (w : W)
        → Returns (call_address t ws (suc deadline) bounded address named w)
    call_address-Returns address none w = inspect_unless-Returns address _ _
    call_address-Returns address (some internal) w =
        call_mapped-Returns address internal (t.mapped_port internal w)

    call_host-Returns : (r : Result String × W) → Returns (call_host t ws (suc deadline) bounded r)
    call_host-Returns (err e, w) = (_, refl)
    call_host-Returns (ok address, w) = call_address-Returns _ ws.port w

  -- An HTTP wait returns, whatever the daemon and the server answer: under a clock that does not run
  -- backwards, sleeps that take their time and a positive poll interval, one round of each loop for
  -- each nanosecond up to the deadline, and one more, are enough.
  pub http_wait-Returns :
      (ctx : Ctx W) (w : W)
      → 0 < ws.poll_interval
      → Returns (http_wait t ws (suc (now w + timeout_or_default ws.timeout)) ctx w)
  unfolding http_wait
  http_wait-Returns ctx w h = call_host-Returns ctx w h (t.host w)
