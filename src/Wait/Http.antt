-- ===== src/Wait/Http.antt =====
-- container/wait/http.go. The two loops are on fuel as in Poll. Of the transport only the check of
-- certificates is modelled.
pub mod Returns
pub mod Sound
pub mod Strategy
mod Tests
pub use Strategy.*
use Prim.Native.String
use docker_go_sdk.Common.{
  ℕ, String, Bool, true, false, ◌&&◌, ◌||◌, Option, none, some, List, [], ◌∷◌, ltb, str_eq,
  if◌then◌else◌,
}
use docker_go_sdk.Common.Bytes.{Bytes}
use docker_go_sdk.Common.Dict.{Dict}
use docker_go_sdk.Container.Endpoints.{Port}
use docker_go_sdk.GoError.{Error, nil, cons, joined, new, Result, ok, err}
use docker_go_sdk.GoError.Action.{Action}
use docker_go_sdk.Wait.Poll.{Verdict, again, finished, poll}
use docker_go_sdk.Wait.Target.{Target, Ctx, with_timeout, timeout_or_default, check_target}

pub record Request : Type 0 where
  pub method : String
  pub url : String
  pub body : Bytes
  pub headers : Dict String
  pub skip_verify : Bool

-- `close` is the error of closing the body.
pub record Response : Type 0 where
  pub status_code : ℕ
  pub body : Bytes
  pub headers : Dict (List String)
  pub close : Option Error

-- What the strategy asks for besides the calls of every target. `send` is `client.Do`; the errors of
-- `mapped_port` come with the zero port.
pub record HttpTarget (W : Type 0) : Type 0 where
  pub target : Target W
  pub host : Action W String
  pub inspect_ports : Action W (List (Port × List String))
  pub mapped_port : Port → Action W Port
  pub parse_port : String → Result Port
  -- `strings.Replace(s, "localhost", "127.0.0.1", 1)`
  pub force_ipv4 : String → String
  pub join_host_port : String → ℕ → String
  -- `url.Parse` of the path, with the scheme, the host and the user set then
  pub url_of : String → String → Option String → String → Result String
  -- the error of `http.NewRequestWithContext`
  pub request_error : Request → Option Error
  pub send : Ctx W → Request → Action W Response

-- The loop for the lowest port over tcp with a binding, and its host port.
abbrev lower_bound : Option (Port × String) → Port → String → Option (Port × String)
lower_bound none port binding = some (port, binding)
lower_bound (some (lowest, host_port)) port binding =
    if ltb port.num lowest.num then some (port, binding) else some (lowest, host_port)

unfoldable pub lowest_tcp :
    Option (Port × String) → List (Port × List String) → Option (Port × String)
lowest_tcp lowest [] = lowest
lowest_tcp lowest ((port, []) ∷ ports) = lowest_tcp lowest ports
lowest_tcp lowest ((port, binding ∷ bindings) ∷ ports) =
    lowest_tcp (if str_eq port.proto "tcp" then lower_bound lowest port binding else lowest) ports

-- The cases of the switch on the method.
unfoldable pub is_method : String → Bool
is_method method =
    str_eq method "GET"
    || (str_eq method "HEAD"
        || (str_eq method "POST"
            || (str_eq method "PUT"
                || (str_eq method "PATCH"
                    || (str_eq method "DELETE"
                        || (str_eq method "CONNECT"
                            || (str_eq method "OPTIONS" || str_eq method "TRACE")))))))

unfoldable pub method_of : String → Result String
unfolding is_method
method_of method =
    if is_method method
    then ok method
    else if str_eq method ""
    then ok "GET"
    else err (new "invalid http method")

abbrev pub accepts : {A : Type 0} → Option (A → Bool) → A → Bool
accepts none a = true
accepts (some matcher) a = matcher a

abbrev pub closes : Option Error → Bool
closes none = true
closes (some e) = false

-- The matchers of the last loop, in order, and the closing of the body.
abbrev pub is_accepted : HttpStrategy → Response → Bool
is_accepted ws resp =
    accepts ws.status_code_matcher resp.status_code
    && (accepts ws.response_matcher resp.body
        && (accepts ws.response_headers_matcher resp.headers && closes resp.close))

abbrev body_of : Option (Result Bytes) → Result Bytes
body_of none = ok []
body_of (some r) = r

-- Whether certificates are left unchecked.
abbrev skip_verify_of : Bool → Bool → Option Bool → Bool
skip_verify_of true true config = true
skip_verify_of _ _ none = false
skip_verify_of _ _ (some skip) = skip

module _ {W : Type 0} (t : HttpTarget W) (ws : HttpStrategy) where
  abbrev judge : Bool → W → Verdict × W
  judge true w = (finished none, w)
  judge false w = (again, w)

  abbrev judge_response : Result Response × W → Verdict × W
  judge_response (err e, w) = (again, w)
  judge_response (ok resp, w) = judge (is_accepted ws resp) w

  abbrev send_valid : Ctx W → Request → Option Error → W → Verdict × W
  send_valid ctx request (some e) w = (finished (some e), w)
  send_valid ctx request none w = judge_response (t.send ctx request w)

  abbrev send_checked : Ctx W → Request → Option Error × W → Verdict × W
  send_checked ctx request (some e, w) = (finished (some e), w)
  send_checked ctx request (none, w) = send_valid ctx request (t.request_error request) w

  unfoldable pub http_round : Ctx W → Request → W → Verdict × W
  unfolding check_target
  http_round ctx request w = send_checked ctx request (check_target t.target w)

  abbrev pub pause : {A : Type 0} → A × W → A × W
  pause (a, w) = (a, t.target.sleep ws.poll_interval w)

  unfoldable pub request_loop : ℕ → Ctx W → Request → W → Option (Option Error × W)
  unfolding http_round poll
  request_loop fuel ctx request w =
      poll fuel ctx (λ v e. e) (λ v. t.target.sleep ws.poll_interval v) (http_round ctx request) w

  abbrev after_mapping : Result Port × W → Verdict × (Result Port × W)
  after_mapping (err e, w) = (again, (err e, w))
  after_mapping (ok port, w) = (finished none, (ok port, w))

  abbrev map_checked : Port → Result Port → Option Error × W → Verdict × (Result Port × W)
  map_checked internal last (some e, w) = (finished (some e), (last, w))
  map_checked internal last (none, w) = after_mapping (t.mapped_port internal w)

  unfoldable pub http_map_round : Port → Result Port × W → Verdict × (Result Port × W)
  unfolding check_target
  http_map_round internal (last, w) = map_checked internal last (check_target t.target w)

  abbrev pub with_last : Result Port → Error → Error
  with_last (err last) e = joined (cons e (cons last nil))
  with_last (ok port) e = e

  unfoldable pub http_map_loop :
      ℕ → Ctx W → Port → Result Port × W → Option (Option Error × (Result Port × W))
  unfolding http_map_round poll
  http_map_loop fuel ctx internal s =
      poll fuel (λ v. ctx v.1) (λ v e. with_last v.0 e) pause (http_map_round internal) s

  module _ (fuel : ℕ) (ctx : Ctx W) where
    abbrev request_to : String → String → Bytes → Request
    request_to method url body = record {
      method = method;
      url = url;
      body = body;
      headers = ws.headers;
      skip_verify = skip_verify_of ws.use_tls ws.allow_insecure ws.tls_config;
    }

    abbrev with_body : String → String → Result Bytes → W → Option (Option Error × W)
    with_body method url (err e) w = some (some e, w)
    with_body method url (ok body) w = request_loop fuel ctx (request_to method url body) w

    abbrev with_url : String → Result String → W → Option (Option Error × W)
    with_url method (err e) w = some (some e, w)
    with_url method (ok url) w = with_body method url (body_of ws.body) w

    abbrev with_method : String → Port → Result String → W → Option (Option Error × W)
    with_method address port (err e) w = some (some e, w)
    with_method address port (ok method) w =
        with_url method
          (t.url_of (if ws.use_tls then "https" else "http") (t.join_host_port address port.num)
            ws.user_info ws.path)
          w

    abbrev call_port : String → Port → W → Option (Option Error × W)
    call_port address port w = with_method address port (method_of ws.method) w

    abbrev call_parsed : String → Result Port → W → Option (Option Error × W)
    call_parsed address (err e) w = some (some e, w)
    call_parsed address (ok port) w = call_port address port w

    abbrev call_lowest : String → Option (Port × String) → W → Option (Option Error × W)
    call_lowest address none w =
        some (some (new "no exposed tcp ports or mapped ports - cannot wait for status"), w)
    call_lowest address (some (port, binding)) w =
        call_parsed address (t.parse_port (String.◌++◌ binding (String.◌++◌ "/" port.proto))) w

    abbrev call_inspected :
        String → Result (List (Port × List String)) × W → Option (Option Error × W)
    call_inspected address (err e, w) = some (some e, w)
    call_inspected address (ok ports, w) = call_lowest address (lowest_tcp none ports) w

    abbrev inspect_checked : String → Option Error × W → Option (Option Error × W)
    inspect_checked address (some e, w) = some (some e, w)
    inspect_checked address (none, w) = call_inspected address (t.inspect_ports w)

    abbrev inspect_unless : String → Option Error → W → Option (Option Error × W)
    inspect_unless address (some e) w = some (some e, w)
    inspect_unless address none w = inspect_checked address (check_target t.target w)

    abbrev call_tcp : String → Port → W → Option (Option Error × W)
    call_tcp address port w =
        if str_eq port.proto "tcp"
        then call_port address port w
        else some (some (new "cannot use HTTP client on non-TCP ports"), w)

    abbrev after_map :
        String → Option (Option Error × (Result Port × W)) → Option (Option Error × W)
    after_map address none = none
    after_map address (some (some e, (last, w))) = some (some e, w)
    after_map address (some (none, (err e, w))) = some (none, w)
    after_map address (some (none, (ok port, w))) = call_tcp address port w

    abbrev call_mapped : String → Port → Result Port × W → Option (Option Error × W)
    call_mapped address internal (ok port, w) = call_tcp address port w
    call_mapped address internal (err e, w) =
        after_map address (http_map_loop fuel ctx internal (err e, w))

    abbrev call_address : String → Option Port → W → Option (Option Error × W)
    call_address address none w =
        let w' = t.target.sleep ws.poll_interval w in inspect_unless address (ctx w') w'
    call_address address (some internal) w = call_mapped address internal (t.mapped_port internal w)

    abbrev call_host : Result String × W → Option (Option Error × W)
    call_host (err e, w) = some (some e, w)
    call_host (ok address, w) =
        call_address (if ws.force_ipv4_local_host then t.force_ipv4 address else address) ws.port w

  -- `(ws *HTTPStrategy) WaitUntilReady`
  unfoldable pub http_wait : ℕ → Ctx W → W → Option (Option Error × W)
  unfolding request_loop http_map_loop lowest_tcp method_of check_target
  http_wait fuel ctx w =
      call_host fuel (with_timeout t.target (timeout_or_default ws.timeout) ctx w) (t.host w)
