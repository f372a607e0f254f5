-- ===== src/Config/Tests.antt =====
-- A system with one credential helper, and the laws of the credentials on it.
use docker_go_sdk.Common.Dict.{insert}
use docker_go_sdk.Config.Credentials.{credentials_from_helper}
use docker_go_sdk.Common.{ℕ, suc, ◌≡◌, refl, String, none, some, [], ◌∷◌, ◌++◌, arith}
use docker_go_sdk.Common.Bytes.{codes}
use docker_go_sdk.Common.Dict.{lookup}
use docker_go_sdk.Config.Base64.RoundTrip.{encode}
use docker_go_sdk.Config.Cache.{Cached, auth_config_for_hostname}
use docker_go_sdk.Config.Cache.Laws.{IsCoherent, auth_config_for_hostname_refines}
use docker_go_sdk.Config.Credentials.{AuthConfig, HelperOutput, System, no_auth}
use docker_go_sdk.Config.Images.{auth_configs_for_images}
use docker_go_sdk.Config.Proxy.{parse_proxy_config, no_proxies}
use docker_go_sdk.Config.Proxy.Laws.{or_else, added, chosen, parse_proxy_config_lem}
use docker_go_sdk.Config.Registry.{ReferenceParser, resolve_registry_host}
use docker_go_sdk.Config.Resolve.{Config, decode_base64_auth, resolve_auth_config_for_hostname}
use docker_go_sdk.Config.Resolve.Laws.{decode_base64_auth-encode}
use docker_go_sdk.GoError.{Result, ok}

abbrev output : HelperOutput
output = record { username = codes "ann"; secret = codes "pw"; server_url = "r.io" }

-- The world counts the runs of the helper.
abbrev system : System ℕ
system = record {
  goos = "linux";
  look_path = λ name w. (ok name, w);
  run = λ program host w. (record { stdout = []; stderr = []; failure = none }, suc w);
  unmarshal = λ text. ok output;
}

abbrev settled : System Unit
settled = record {
  goos = "linux";
  look_path = λ name w. (ok name, w);
  run = λ program host w. (record { stdout = []; stderr = []; failure = none }, w);
  unmarshal = λ text. ok output;
}

abbrev config : Config
config = record {
  auth_configs = [];
  credentials_store = "";
  credential_helpers = ("r.io", "x") ∷ [];
  proxies = ("default", record no_proxies { http_proxy = "http://proxy" }) ∷ [];
}

abbrev ann : AuthConfig
ann = record no_auth { username = codes "ann"; password = codes "pw"; server_address = "r.io" }

abbrev fresh : Cached ℕ
fresh = record { world = 0; entries = [] }

abbrev filled : Cached ℕ
filled = record { world = 1; entries = ("r.io", ann) ∷ [] }

decode_base64_auth_example :
    decode_base64_auth (encode (codes "ann" ++ b':' ∷ codes "p:w")) ≡ ok (codes "ann", codes "p:w")
decode_base64_auth_example =
    decode_base64_auth-encode (codes "ann") (codes "p:w")
      ((λ e. omega arith), ((λ e. omega arith), ((λ e. omega arith), tt)))
      (
        omega arith,
        (
          omega arith,
          (omega arith, (omega arith, (omega arith, (omega arith, (omega arith, tt))))),
        ),
      )

first_lookup : auth_config_for_hostname system config "r.io" fresh ≡ (ok ann, filled)
unfolding auth_config_for_hostname resolve_registry_host credentials_from_helper insert
first_lookup = refl

abbrev answer : String → Result AuthConfig
answer hostname = (resolve_auth_config_for_hostname settled config hostname tt).0

answer_is_stable :
    (hostname : String) (w : Unit)
    → (resolve_auth_config_for_hostname settled config hostname w).0 ≡ answer hostname
answer_is_stable hostname tt = refl

abbrev start_cache : Cached Unit
start_cache = record { world = tt; entries = [] }

auth_config_for_hostname_refines_example :
    ((auth_config_for_hostname settled config "r.io" start_cache).0 ≡ answer "r.io")
    × IsCoherent settled config answer answer_is_stable
        (auth_config_for_hostname settled config "r.io" start_cache).1.entries
auth_config_for_hostname_refines_example =
    auth_config_for_hostname_refines settled config answer answer_is_stable "r.io" start_cache tt

-- The registry of an image is the text itself.
abbrev whole : ReferenceParser
whole image = ok (record { registry = image; repository = ""; tag = ""; digest = "" })

images_run :
    auth_configs_for_images whole system config ("r.io" ∷ []) fresh
    ≡ (ok (("r.io", ann) ∷ []), filled)
unfolding auth_configs_for_images resolve_registry_host credentials_from_helper
images_run = refl

images_found : lookup "r.io" (("r.io", ann) ∷ []) ≡ some ann
unfolding lookup
images_found = refl

proxy_test :
    lookup "http_proxy" (parse_proxy_config config "tcp://host" (("HTTP_PROXY", some "mine") ∷ []))
    ≡ some (some "http://proxy")
unfolding parse_proxy_config
proxy_test = refl

parse_proxy_config_example :
    lookup "http_proxy" (parse_proxy_config config "tcp://host" (("HTTP_PROXY", some "mine") ∷ []))
    ≡ or_else
        (lookup "http_proxy" (("HTTP_PROXY", some "mine") ∷ []))
        (added "http_proxy" (chosen config "tcp://host"))
parse_proxy_config_example =
    parse_proxy_config_lem config "tcp://host" "http_proxy" (("HTTP_PROXY", some "mine") ∷ [])
