-- ===== src/Context/Current.antt =====
-- context/current.go, rootless.go, host_unix.go and host_windows.go: which context is the current
-- one, and the Docker host that a client connects to.
pub mod Laws
use docker_go_sdk.Common.{String, Bool, true, false, Option, none, some, str_eq, if◌then◌else◌}
use Prim.Native.String
use docker_go_sdk.Common.Dict.{lookup}
use docker_go_sdk.Config.Load.{ConfigFile, Machine, load}
use docker_go_sdk.GoError.{Error, sentinel, wrap, Result, ok, err}
use docker_go_sdk.Context.{Context}
use docker_go_sdk.Context.Store.{Platform, docker_host}
use docker_go_sdk.Context.Commands.{default_context_name, State, inspect_context}

-- `os.IsNotExist`, and the scheme of the URL that `url.Parse` returns.
pub record NetUrl : Type 0 where
  pub is_not_exist : Error → Bool
  pub scheme : String → Result String

-- The variables that the files host_unix.go and host_windows.go set, by the operating system.
abbrev pub default_schema : String → String
default_schema goos = if str_eq goos "windows" then "npipe://" else "unix://"

abbrev pub default_docker_host : String → String
default_docker_host goos =
    if str_eq goos "windows"
    then "npipe:////./pipe/docker_engine"
    else "unix:///var/run/docker.sock"

abbrev pub tcp_schema : String
tcp_schema = "tcp://"

module _ {W V : Type 0} (m : Machine W) (p : Platform V) (u : NetUrl) where
  abbrev pub has_schema : String → Bool
  has_schema scheme =
      if str_eq (String.◌++◌ scheme "://") (default_schema m.goos)
      then true
      else str_eq (String.◌++◌ scheme "://") tcp_schema

  abbrev with_scheme : String → Result String → Result String
  with_scheme s (err e) = err e
  with_scheme s (ok scheme) = if has_schema scheme then ok s else err (sentinel "ErrInvalidSchema")

  -- `parseURL`
  unfoldable pub parse_url : String → Result String
  parse_url s = with_scheme s (u.scheme s)

  unfoldable pub rootless_socket_path_from_env : W → Result String
  rootless_socket_path_from_env w =
      let runtime_dir = m.getenv "XDG_RUNTIME_DIR" w in
      let f = m.join runtime_dir "docker.sock" in
      if str_eq runtime_dir ""
      then err (sentinel "ErrXDGRuntimeDirNotSet")
      else if m.file_exists f w
      then ok (String.◌++◌ (default_schema m.goos) f)
      else err (sentinel "ErrRootlessDockerNotFoundXDGRuntimeDir")

  unfoldable pub get_context_from_env : W → String
  get_context_from_env w =
      if str_eq (m.getenv "DOCKER_HOST" w) ""
      then m.getenv "DOCKER_CONTEXT" w
      else default_context_name

  abbrev pub current_of : Result ConfigFile → Result String
  current_of (err e) =
      if u.is_not_exist e then ok default_context_name else err (wrap "load docker config: " e)
  current_of (ok cfg) =
      if str_eq cfg.current_context "" then ok default_context_name else ok cfg.current_context

  -- `Current`
  unfoldable pub current : W → Result String
  unfolding get_context_from_env load
  current w =
      if str_eq (get_context_from_env w) ""
      then current_of (load m w)
      else ok (get_context_from_env w)

  abbrev host_in : Result (Context V) → Result String
  host_in (err e) = err (wrap "inspect context: " e)
  host_in (ok ctx) = parse_url (docker_host p (lookup "docker" ctx.endpoints))

  abbrev pub default_host : W → Result String
  default_host w =
      if str_eq (m.getenv "DOCKER_HOST" w) ""
      then parse_url (default_docker_host m.goos)
      else parse_url (m.getenv "DOCKER_HOST" w)

  abbrev pub host_for : Result String → State W → Result String
  host_for (err e) s = err (wrap "current context: " e)
  host_for (ok name) s =
      if str_eq name default_context_name
      then default_host s.os
      else host_in (inspect_context m p name s)

  abbrev rootless_or : Result String → State W → Result String
  rootless_or (ok path) s = parse_url path
  rootless_or (err e) s = host_for (current s.os) s

  -- `CurrentDockerHost`
  unfoldable pub current_docker_host : State W → Result String
  unfolding rootless_socket_path_from_env parse_url current inspect_context lookup
  current_docker_host s = rootless_or (rootless_socket_path_from_env s.os) s
