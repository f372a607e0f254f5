-- ===== src/Context/Current/Laws.antt =====
-- Which host is returned, and what happens without a configuration.
use docker_go_sdk.Common.{
  String, ◌≡◌, refl, ◌≢◌, inl, inr, true, false, arith, eq_iff, str_eq, Bool-cases, ◌∙◌, sym, ap,
}
use docker_go_sdk.Config.Load.{Machine, load}
use docker_go_sdk.Config.Load.Laws.{IsWrapped, load-IsWrapped}
use docker_go_sdk.GoError.{Error, wrap, Result, ok, err}
use docker_go_sdk.Context.{Context}
use docker_go_sdk.Context.Store.{Platform}
use docker_go_sdk.Context.Commands.{State, inspect_context, default_context_name}
use docker_go_sdk.Context.Current.{
  NetUrl, has_schema, with_scheme, parse_url, rootless_socket_path_from_env, get_context_from_env,
  current, default_host, host_for, host_in, rootless_or, current_docker_host,
}

module _ {W V : Type 0} (m : Machine W) (p : Platform V) (u : NetUrl) where
  -- The text is a URL whose scheme is that of the platform's sockets or tcp.
  abbrev pub IsHost : String → Type 0
  IsHost s = (scheme : String) × (u.scheme s ≡ ok scheme) × (has_schema m p u scheme ≡ true)

  with_scheme_inv :
      (s host : String) (r : Result String)
      → with_scheme m p u s r ≡ ok host
      → (s ≡ host) × (scheme : String) × (r ≡ ok scheme) × (has_schema m p u scheme ≡ true)
  with_scheme_inv s host (err e) h = absurd (cc h)
  with_scheme_inv s host (ok scheme) h = elim (Bool-cases (has_schema m p u scheme)) [
    | inl q ↦ (cc (rw q at h), scheme, refl, q)
    | inr q ↦ absurd (cc (rw q at h))
  ]

  parse_url-IsHost : (s host : String) → parse_url m p u s ≡ ok host → IsHost host
  unfolding parse_url
  parse_url-IsHost s host h =
      let (e, scheme, parsed, known) = with_scheme_inv s host (u.scheme s) h in
      (scheme, ap u.scheme (sym e) ∙ parsed, known)

  host_in-IsHost :
      (r : Result (Context V)) (host : String) → host_in m p u r ≡ ok host → IsHost host
  host_in-IsHost (err e) host h = absurd (cc h)
  host_in-IsHost (ok ctx) host h = parse_url-IsHost _ host h

  default_host-IsHost : (w : W) (host : String) → default_host m p u w ≡ ok host → IsHost host
  default_host-IsHost w host h = elim (Bool-cases (str_eq (m.getenv "DOCKER_HOST" w) "")) [
    | inl q ↦ parse_url-IsHost _ host (rw q at h)
    | inr q ↦ parse_url-IsHost _ host (rw q at h)
  ]

  host_for-IsHost :
      (r : Result String) (s : State W) (host : String) → host_for m p u r s ≡ ok host → IsHost host
  host_for-IsHost (err e) s host h = absurd (cc h)
  host_for-IsHost (ok name) s host h = elim (Bool-cases (str_eq name default_context_name)) [
    | inl q ↦ default_host-IsHost s.os host (rw q at h)
    | inr q ↦ host_in-IsHost (inspect_context m p name s) host (rw q at h)
  ]

  rootless_or-IsHost :
      (r : Result String) (s : State W) (host : String)
      → rootless_or m p u r s ≡ ok host
      → IsHost host
  rootless_or-IsHost (ok path) s host h = parse_url-IsHost path host h
  rootless_or-IsHost (err e) s host h = host_for-IsHost (current m p u s.os) s host h

  -- A Docker host that is returned, from whatever source, is a URL with the scheme of the platform's
  -- sockets or tcp.
  pub current_docker_host-IsHost :
      (s : State W) (host : String) → current_docker_host m p u s ≡ ok host → IsHost host
  unfolding current_docker_host
  current_docker_host-IsHost s host h =
      rootless_or-IsHost (rootless_socket_path_from_env m p u s.os) s host h

  get_context_from_env-host :
      (w : W) → m.getenv "DOCKER_HOST" w ≢ "" → get_context_from_env m p u w ≡ default_context_name
  unfolding get_context_from_env
  get_context_from_env-host w h = ground (arith, eq_iff (m.getenv "DOCKER_HOST" w) "")

  current-env : (w : W) → m.getenv "DOCKER_HOST" w ≢ "" → current m p u w ≡ ok default_context_name
  unfolding current
  current-env w h = rw (get_context_from_env-host w h)

  default_host-env :
      (w : W)
      → m.getenv "DOCKER_HOST" w ≢ ""
      → default_host m p u w ≡ parse_url m p u (m.getenv "DOCKER_HOST" w)
  default_host-env w h = ground (arith, eq_iff (m.getenv "DOCKER_HOST" w) "")

  -- Without a rootless socket, a set variable DOCKER_HOST decides alone: whatever the variable
  -- DOCKER_CONTEXT, the configuration and the store say, its value is the host, if it is valid.
  pub current_docker_host-env :
      (s : State W) (e : Error)
      → rootless_socket_path_from_env m p u s.os ≡ err e
      → m.getenv "DOCKER_HOST" s.os ≢ ""
      → current_docker_host m p u s ≡ parse_url m p u (m.getenv "DOCKER_HOST" s.os)
  unfolding current_docker_host
  current_docker_host-env s e no_socket h =
      ap (λ r. rootless_or m p u r s) no_socket
      ∙ ap (λ r. host_for m p u r s) (current-env s.os h)
      ∙ default_host-env s.os h

  -- Where no variable names a context and the configuration cannot be loaded, there is an error
  -- and not the default context, also where the file is only missing: every error of the loading
  -- is wrapped, and `os.IsNotExist` does not look into wrapped errors.
  pub current-load :
      (w : W) (e : Error)
      → ((x : Error) → IsWrapped x → u.is_not_exist x ≡ false)
      → get_context_from_env m p u w ≡ ""
      → load m w ≡ err e
      → current m p u w ≡ err (wrap "load docker config: " e)
  unfolding current
  current-load w e not_exist no_env h = rw (no_env, h, not_exist e (load-IsWrapped m w e h))
