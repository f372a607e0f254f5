-- ===== src/Wait/Http/Sound.antt =====
-- An HTTP wait that succeeds has had an answer that the matchers accept.
use docker_go_sdk.Common.{
  ◌&&◌, ℕ, String, ◌≡◌, refl, inl, inr, Bool, true, false, Option, none, some, List, Bool-cases,
  str_eq,
}
use docker_go_sdk.Common.Bytes.{Bytes}
use docker_go_sdk.Container.Endpoints.{Port}
use docker_go_sdk.GoError.{Error, Result, ok, err}
use docker_go_sdk.Wait.Http.{
  HttpStrategy, HttpTarget, Request, Response, accepts, closes, is_accepted, judge, send_valid,
  send_checked, http_round, request_loop, after_mapping, map_checked, http_map_round, http_map_loop,
  with_last, pause, with_body, with_url, with_method, call_port, call_parsed, call_lowest,
  call_inspected, inspect_checked, inspect_unless, call_tcp, after_map, call_mapped, call_address,
  call_host, http_wait, lowest_tcp, method_of, body_of,
}
use docker_go_sdk.Wait.Poll.{finished}
use docker_go_sdk.Wait.Poll.Laws.{poll-eq-none}
use docker_go_sdk.Wait.Target.{Ctx, with_timeout, timeout_or_default, check_target}

module _ {W : Type 0} (t : HttpTarget W) (ws : HttpStrategy) where
  -- The matcher, where there is one, accepts the value.
  abbrev pub IsMatched : {A : Type 0} → Option (A → Bool) → A → Type 0
  IsMatched none a = Unit
  IsMatched (some matcher) a = matcher a ≡ true

  -- A request has been sent, each matcher of the strategy has accepted its part of the response, and
  -- closing the body gave no error.
  abbrev pub IsAnswered : Type 0
  IsAnswered =
      (ctx : Ctx W) × (request : Request) × (v : W) × (resp : Response) × (v' : W) × (t.send ctx
          request v
        ≡ (ok resp, v'))
      × IsMatched ws.status_code_matcher resp.status_code
      × IsMatched ws.response_matcher resp.body
      × IsMatched ws.response_headers_matcher resp.headers
      × (resp.close ≡ none)

  accepts-IsMatched :
      {A : Type 0} (matcher : Option (A → Bool)) (a : A)
      → accepts matcher a ≡ true
      → IsMatched matcher a
  accepts-IsMatched none a h = tt
  accepts-IsMatched (some matcher) a h = h

  closes-none : (e : Option Error) → closes e ≡ true → e ≡ none
  closes-none none h = refl
  closes-none (some e) h = absurd (cc h)

  and_true : (a b : Bool) → (a && b) ≡ true → (a ≡ true) × (b ≡ true)
  and_true true b h = (refl, h)
  and_true false b h = absurd (cc h)

  accepted-IsMatched :
      (resp : Response)
      → is_accepted ws resp ≡ true
      → IsMatched ws.status_code_matcher resp.status_code
        × IsMatched ws.response_matcher resp.body
        × IsMatched ws.response_headers_matcher resp.headers
        × (resp.close ≡ none)
  accepted-IsMatched resp h =
      let (status, h1) = and_true (accepts ws.status_code_matcher resp.status_code) _ h in
      let (body, h2) = and_true (accepts ws.response_matcher resp.body) _ h1 in
      let (headers, close) =
        and_true (accepts ws.response_headers_matcher resp.headers) (closes resp.close) h2 in
      (
        accepts-IsMatched ws.status_code_matcher resp.status_code status,
        accepts-IsMatched ws.response_matcher resp.body body,
        accepts-IsMatched ws.response_headers_matcher resp.headers headers,
        closes-none resp.close close,
      )

  judge-true : (b : Bool) (w w' : W) → judge t ws b w ≡ (finished none, w') → b ≡ true
  judge-true true w w' h = refl
  judge-true false w w' h = absurd (cc h)

  send_valid-IsAnswered :
      (ctx : Ctx W) (request : Request) (e : Option Error) (u w' : W)
      → send_valid t ws ctx request e u ≡ (finished none, w')
      → IsAnswered
  send_valid-IsAnswered ctx request (some e) u w' h = absurd (cc h)
  send_valid-IsAnswered ctx request none u w' h =
      go (t.send ctx request u).0 (t.send ctx request u).1 refl h
    where
      go :
          (r : Result Response) (u' : W)
          → t.send ctx request u ≡ (r, u')
          → send_valid t ws ctx request none u ≡ (finished none, w')
          → IsAnswered
      go (ok resp) u' e k =
          let accepted = judge-true (is_accepted ws resp) u' w' (rw e at k) in
          let (status, body, headers, close) = accepted-IsMatched resp accepted in
          (ctx, request, u, resp, u', e, status, body, headers, close)
      go (err x) u' e k = absurd (cc (rw e at k))

  send_checked-IsAnswered :
      (ctx : Ctx W) (request : Request) (answer : Option Error × W) (w' : W)
      → send_checked t ws ctx request answer ≡ (finished none, w')
      → IsAnswered
  send_checked-IsAnswered ctx request (some e, u) w' h = absurd (cc h)
  send_checked-IsAnswered ctx request (none, u) w' h =
      send_valid-IsAnswered ctx request (t.request_error request) u w' h

  request_loop-IsAnswered :
      (fuel : ℕ) (ctx : Ctx W) (request : Request) (w w' : W)
      → request_loop t ws fuel ctx request w ≡ some (none, w')
      → IsAnswered
  unfolding request_loop http_round
  request_loop-IsAnswered fuel ctx request w w' h =
      let (v, open_, last) =
        poll-eq-none ctx (λ v e. e) (λ v. t.target.sleep ws.poll_interval v)
          (http_round t ws ctx request) fuel w h in
      send_checked-IsAnswered ctx request (check_target t.target v) w' last

  map_checked-ok :
      (internal : Port) (last r : Result Port) (answer : Option Error × W) (w' : W)
      → map_checked t ws internal last answer ≡ (finished none, (r, w'))
      → (port : Port) × (r ≡ ok port)
  map_checked-ok internal last r (some e, u) w' h = absurd (cc h)
  map_checked-ok internal last r (none, u) w' h = mapped (t.mapped_port internal u) h
    where
      mapped :
          (answer : Result Port × W)
          → after_mapping t ws answer ≡ (finished none, (r, w'))
          → (port : Port) × (r ≡ ok port)
      mapped (ok port, u') k = (port, cc k)
      mapped (err x, u') k = absurd (cc k)

  http_map_loop-ok :
      (fuel : ℕ) (ctx : Ctx W) (internal : Port) (s : Result Port × W) (r : Result Port) (w' : W)
      → http_map_loop t ws fuel ctx internal s ≡ some (none, (r, w'))
      → (port : Port) × (r ≡ ok port)
  unfolding http_map_loop http_map_round
  http_map_loop-ok fuel ctx internal s r w' h =
      let (v, open_, last) =
        poll-eq-none (λ v. ctx v.1) (λ v e. with_last t ws v.0 e) (pause t ws)
          (http_map_round t ws internal) fuel s h in
      map_checked-ok internal v.0 r (check_target t.target v.1) w' last

  module _ (fuel : ℕ) (ctx : Ctx W) (w' : W) where
    -- The run has ended without an error.
    abbrev Succeeds : Option (Option Error × W) → Type 0
    Succeeds o = o ≡ some (none, w')

    with_body-IsAnswered :
        (method url : String) (r : Result Bytes) (w : W)
        → Succeeds (with_body t ws fuel ctx method url r w)
        → IsAnswered
    with_body-IsAnswered method url (err e) w h = absurd (cc h)
    with_body-IsAnswered method url (ok body) w h = request_loop-IsAnswered fuel ctx _ w w' h

    with_url-IsAnswered :
        (method : String) (r : Result String) (w : W)
        → Succeeds (with_url t ws fuel ctx method r w)
        → IsAnswered
    with_url-IsAnswered method (err e) w h = absurd (cc h)
    with_url-IsAnswered method (ok url) w h = with_body-IsAnswered method url (body_of ws.body) w h

    with_method-IsAnswered :
        (address : String) (port : Port) (r : Result String) (w : W)
        → Succeeds (with_method t ws fuel ctx address port r w)
        → IsAnswered
    with_method-IsAnswered address port (err e) w h = absurd (cc h)
    with_method-IsAnswered address port (ok method) w h = with_url-IsAnswered method _ w h

    call_port-IsAnswered :
        (address : String) (port : Port) (w : W)
        → Succeeds (call_port t ws fuel ctx address port w)
        → IsAnswered
    call_port-IsAnswered address port w h =
        with_method-IsAnswered address port (method_of ws.method) w h

    call_parsed-IsAnswered :
        (address : String) (r : Result Port) (w : W)
        → Succeeds (call_parsed t ws fuel ctx address r w)
        → IsAnswered
    call_parsed-IsAnswered address (err e) w h = absurd (cc h)
    call_parsed-IsAnswered address (ok port) w h = call_port-IsAnswered address port w h

    call_lowest-IsAnswered :
        (address : String) (lowest : Option (Port × String)) (w : W)
        → Succeeds (call_lowest t ws fuel ctx address lowest w)
        → IsAnswered
    call_lowest-IsAnswered address none w h = absurd (cc h)
    call_lowest-IsAnswered address (some (port, binding)) w h = call_parsed-IsAnswered address _ w h

    inspect_checked-IsAnswered :
        (address : String) (answer : Option Error × W)
        → Succeeds (inspect_checked t ws fuel ctx address answer)
        → IsAnswered
    inspect_checked-IsAnswered address (some e, u) h = absurd (cc h)
    inspect_checked-IsAnswered address (none, u) h = found_ports (t.inspect_ports u) h
      where
        found_ports :
            (r : Result (List (Port × List String)) × W)
            → Succeeds (call_inspected t ws fuel ctx address r)
            → IsAnswered
        found_ports (err e, u') k = absurd (cc k)
        found_ports (ok ports, u') k = call_lowest-IsAnswered address (lowest_tcp none ports) u' k

    inspect_unless-IsAnswered :
        (address : String) (e : Option Error) (w : W)
        → Succeeds (inspect_unless t ws fuel ctx address e w)
        → IsAnswered
    inspect_unless-IsAnswered address (some e) w h = absurd (cc h)
    inspect_unless-IsAnswered address none w h =
        inspect_checked-IsAnswered address (check_target t.target w) h

    call_tcp-IsAnswered :
        (address : String) (port : Port) (w : W)
        → Succeeds (call_tcp t ws fuel ctx address port w)
        → IsAnswered
    call_tcp-IsAnswered address port w h = elim (Bool-cases (str_eq port.proto "tcp")) [
      | inl q ↦ call_port-IsAnswered address port w (rw q at h)
      | inr q ↦ absurd (cc (rw q at h))
    ]

    after_map-IsAnswered :
        (address : String) (o : Option (Option Error × (Result Port × W)))
        → ((r : Result Port) (u : W) → o ≡ some (none, (r, u)) → (port : Port) × (r ≡ ok port))
        → Succeeds (after_map t ws fuel ctx address o)
        → IsAnswered
    after_map-IsAnswered address none f h = absurd (cc h)
    after_map-IsAnswered address (some (some e, (r, u))) f h = absurd (cc h)
    after_map-IsAnswered address (some (none, (err e, u))) f h =
        let (port, same) = f (err e) u refl in absurd (cc same)
    after_map-IsAnswered address (some (none, (ok port, u))) f h =
        call_tcp-IsAnswered address port u h

    call_mapped-IsAnswered :
        (address : String) (internal : Port) (answer : Result Port × W)
        → Succeeds (call_mapped t ws fuel ctx address internal answer)
        → IsAnswered
    call_mapped-IsAnswered address internal (ok port, u) h = call_tcp-IsAnswered address port u h
    call_mapped-IsAnswered address internal (err e, u) h =
        after_map-IsAnswered address (http_map_loop t ws fuel ctx internal (err e, u))
          (λ r u'. http_map_loop-ok fuel ctx internal (err e, u) r u') h

    call_address-IsAnswered :
        (address : String) (named : Option Port) (w : W)
        → Succeeds (call_address t ws fuel ctx address named w)
        → IsAnswered
    call_address-IsAnswered address none w h = inspect_unless-IsAnswered address _ _ h
    call_address-IsAnswered address (some internal) w h =
        call_mapped-IsAnswered address internal (t.mapped_port internal w) h

    call_host-IsAnswered :
        (answer : Result String × W) → Succeeds (call_host t ws fuel ctx answer) → IsAnswered
    call_host-IsAnswered (err e, u) h = absurd (cc h)
    call_host-IsAnswered (ok address, u) h = call_address-IsAnswered _ ws.port u h

  -- An HTTP wait returns without an error only if a request has been answered, each of the matchers on
  -- the status, the body and the headers that the strategy has has accepted the answer, and closing
  -- its body gave no error.
  pub http_wait-IsAnswered :
      (fuel : ℕ) (ctx : Ctx W) (w w' : W) → http_wait t ws fuel ctx w ≡ some (none, w') → IsAnswered
  unfolding http_wait
  http_wait-IsAnswered fuel ctx w w' h =
      call_host-IsAnswered fuel (with_timeout t.target (timeout_or_default ws.timeout) ctx w) w'
        (t.host w) h
