-- ===== src/Wait/Http/Strategy.antt =====
-- container/wait/http.go: the strategy and its builders.
use docker_go_sdk.Common.{ℕ, String, Bool, true, false, Option, none, some, List, [], ◌∷◌, ◌==◌}
use docker_go_sdk.Common.Bytes.{Bytes}
use docker_go_sdk.Common.Dict.{Dict}
use docker_go_sdk.Container.Endpoints.{Port}
use docker_go_sdk.GoError.{Result}
use docker_go_sdk.Wait.Target.{default_poll_interval}

pub record HttpStrategy : Type 0 where
  pub timeout : Option ℕ
  -- `none` is the zero port
  pub port : Option Port
  pub path : String
  pub status_code_matcher : Option (ℕ → Bool)
  pub response_matcher : Option (Bytes → Bool)
  pub use_tls : Bool
  pub allow_insecure : Bool
  -- `InsecureSkipVerify` of the configuration, if there is one
  pub tls_config : Option Bool
  pub method : String
  -- what reading all of the body gives
  pub body : Option (Result Bytes)
  pub headers : Dict String
  pub response_headers_matcher : Option (Dict (List String) → Bool)
  pub poll_interval : ℕ
  pub user_info : Option String
  pub force_ipv4_local_host : Bool

abbrev pub default_status_code_matcher : ℕ → Bool
default_status_code_matcher status = status == 200

abbrev pub new_http_strategy : String → HttpStrategy
new_http_strategy path = record {
  timeout = none;
  port = none;
  path = path;
  status_code_matcher = some default_status_code_matcher;
  response_matcher = some (λ body. true);
  use_tls = false;
  allow_insecure = false;
  tls_config = none;
  method = "GET";
  body = none;
  headers = [];
  response_headers_matcher = some (λ headers. true);
  poll_interval = default_poll_interval;
  user_info = none;
  force_ipv4_local_host = false;
}

abbrev pub with_http_timeout : HttpStrategy → ℕ → HttpStrategy
with_http_timeout ws timeout = record ws { timeout = some timeout }

abbrev pub with_port : HttpStrategy → Option Port → HttpStrategy
with_port ws port = record ws { port = port }

abbrev pub with_status_code_matcher : HttpStrategy → (ℕ → Bool) → HttpStrategy
with_status_code_matcher ws matcher = record ws { status_code_matcher = some matcher }

abbrev pub with_status : HttpStrategy → ℕ → HttpStrategy
with_status ws status = record ws { status_code_matcher = some (λ s. s == status) }

abbrev pub with_http_response_matcher : HttpStrategy → (Bytes → Bool) → HttpStrategy
with_http_response_matcher ws matcher = record ws { response_matcher = some matcher }

abbrev pub with_tls : HttpStrategy → Bool → List Bool → HttpStrategy
with_tls ws true (config ∷ configs) = record ws { use_tls = true; tls_config = some config }
with_tls ws true [] = record ws { use_tls = true }
with_tls ws false configs = record ws { use_tls = false }

abbrev pub with_allow_insecure : HttpStrategy → Bool → HttpStrategy
with_allow_insecure ws allow = record ws { allow_insecure = allow }

abbrev pub with_http_headers : HttpStrategy → Dict String → HttpStrategy
with_http_headers ws headers = record ws { headers = headers }

abbrev pub with_response_headers_matcher : HttpStrategy → (Dict (List String) → Bool) → HttpStrategy
with_response_headers_matcher ws matcher = record ws { response_headers_matcher = some matcher }

abbrev pub with_http_poll_interval : HttpStrategy → ℕ → HttpStrategy
with_http_poll_interval ws interval = record ws { poll_interval = interval }

abbrev pub with_forced_ipv4_local_host : HttpStrategy → HttpStrategy
with_forced_ipv4_local_host ws = record ws { force_ipv4_local_host = true }

abbrev pub for_http : String → HttpStrategy
for_http path = new_http_strategy path
