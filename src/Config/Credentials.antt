-- ===== src/Config/Credentials.antt =====
-- config/credentials_helpers.go: the credentials that a helper program prints. The operating
-- system and the decoder of the program's JSON output are parameters.
use Prim.Native.String
use docker_go_sdk.Common.{String, Option, none, some, [], str_eq, if◌then◌else◌}
use docker_go_sdk.Common.Bytes.{Bytes, codes, bytes_eq, trim_space}
use docker_go_sdk.GoError.{Error, sentinel, wrap, Result, ok, err, error_is}
use docker_go_sdk.GoError.Action.{Action}

-- `registry.AuthConfig`, whose texts other than the server's address are byte texts.
pub record AuthConfig : Type 0 where
  pub username : Bytes
  pub password : Bytes
  pub auth : Bytes
  pub server_address : String
  pub identity_token : Bytes
  pub registry_token : Bytes

abbrev pub no_auth : AuthConfig
no_auth = record {
  username = [];
  password = [];
  auth = [];
  server_address = "";
  identity_token = [];
  registry_token = [];
}

-- The JSON object that a helper prints.
pub record HelperOutput : Type 0 where
  pub username : Bytes
  pub secret : Bytes
  pub server_url : String

-- How a helper ends: its two outputs, and the error of `cmd.Run`.
pub record Run : Type 0 where
  pub stdout : Bytes
  pub stderr : Bytes
  pub failure : Option Error

pub record System (W : Type 0) : Type 0 where
  pub goos : String
  pub look_path : String → W → Result String × W
  -- Run the program with the argument `get` and the host name as input.
  pub run : String → String → W → Run × W
  pub unmarshal : Bytes → Result HelperOutput

abbrev pub err_not_found : String
err_not_found = "executable file not found in $PATH"

abbrev pub err_credentials_not_found : String
err_credentials_not_found = "credentials not found in native keychain"

abbrev pub err_credentials_missing_server_url : String
err_credentials_missing_server_url = "no credentials server URL"

abbrev pub token_username : Bytes
token_username = codes "<token>"

module _ {W : Type 0} (sys : System W) where
  -- The name of the helper for the platform, from the search for `pass` on Linux.
  abbrev pass_helper : Result String × W → Result String × W
  pass_helper (ok path, w) = (ok "pass", w)
  pass_helper (err e, w) =
      if error_is e err_not_found
      then (ok "secretservice", w)
      else (err (wrap "look up \"pass\": " e), w)

  unfoldable pub get_credential_helper : Action W String
  unfolding error_is
  get_credential_helper w =
      if str_eq sys.goos "linux"
      then pass_helper (sys.look_path "pass" w)
      else if str_eq sys.goos "darwin"
      then (ok "osxkeychain", w)
      else if str_eq sys.goos "windows"
      then (ok "wincred", w)
      else (ok "", w)

  -- What is read from the output of a helper that did not fail.
  abbrev credentials_of : Result HelperOutput → Result AuthConfig
  credentials_of (err e) = err (wrap "unmarshal credentials: " e)
  credentials_of (ok out) = ok (record no_auth {
    username = (if bytes_eq out.username token_username then [] else out.username);
    password = out.secret;
    server_address = out.server_url;
  })

  abbrev after_run : Run × W → Result AuthConfig × W
  after_run (r, w) = elim r.failure [
    | none ↦ (credentials_of (sys.unmarshal r.stdout), w)
    | some e ↦
        if bytes_eq (trim_space r.stdout) (codes err_credentials_not_found)
        then (ok no_auth, w)
        else if bytes_eq (trim_space r.stdout) (codes err_credentials_missing_server_url)
        then (err (sentinel err_credentials_missing_server_url), w)
        else (err (wrap "execute: " e), w)
  ]

  abbrev after_look_path : String → Result String × W → Result AuthConfig × W
  after_look_path hostname (ok path, w) = after_run (sys.run path hostname w)
  after_look_path hostname (err e, w) =
      if error_is e err_not_found then (ok no_auth, w) else (err (wrap "look up: " e), w)

  -- From the search for the helper's program on.
  unfoldable pub run_helper : String → String → Action W AuthConfig
  unfolding error_is bytes_eq
  run_helper name hostname w =
      after_look_path hostname (sys.look_path (String.◌++◌ "docker-credential-" name) w)

  abbrev after_default : String → Result String × W → Result AuthConfig × W
  after_default hostname (err e, w) = (err (wrap "get credential helper: " e), w)
  after_default hostname (ok name, w) =
      if str_eq name "" then (ok no_auth, w) else run_helper name hostname w

  -- The arguments are the helper's name and the host name.
  unfoldable pub credentials_from_helper : String → String → Action W AuthConfig
  unfolding run_helper get_credential_helper
  credentials_from_helper helper hostname w =
      if str_eq helper ""
      then after_default hostname (get_credential_helper w)
      else run_helper helper hostname w
