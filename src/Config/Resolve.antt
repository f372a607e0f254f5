-- ===== src/Config/Resolve.antt =====
-- config/config.go: the credentials of a registry, from the configuration and the helpers.
pub mod Laws
use docker_go_sdk.Common.{
  String, Bool, true, false, ◌&&◌, ◌||◌, not, Option, none, some, List, [], ◌∷◌, str_eq,
  if◌then◌else◌,
}
use docker_go_sdk.Common.Bytes.{Bytes, codes, cut_byte}
use docker_go_sdk.Common.Dict.{Dict, lookup}
use docker_go_sdk.Config.Base64.{decode}
use docker_go_sdk.Config.Credentials.{AuthConfig, no_auth, System, credentials_from_helper}
use docker_go_sdk.Config.Registry.{resolve_registry_host}
use docker_go_sdk.GoError.{Error, new, wrap, Result, ok, err, context}
use docker_go_sdk.GoError.Action.{Action}

-- `ProxyConfig`
pub record ProxyConfig : Type 0 where
  pub http_proxy : String
  pub https_proxy : String
  pub no_proxy : String
  pub ftp_proxy : String
  pub all_proxy : String

-- The fields of `Config` that the functions here read.
pub record Config : Type 0 where
  pub auth_configs : Dict AuthConfig
  pub credentials_store : String
  pub credential_helpers : Dict String
  pub proxies : Dict ProxyConfig

abbrev pub is_empty : Bytes → Bool
is_empty [] = true
is_empty (c ∷ s) = false

abbrev cut_user : Option (Bytes × Bytes) → Result (Bytes × Bytes)
cut_user none = err (new "invalid auth: missing \":\" separator")
cut_user (some parts) = ok parts

abbrev decoded : Option Bytes → Result (Bytes × Bytes)
decoded none = err (wrap "decode auth: " (new "illegal base64 data"))
decoded (some text) = cut_user (cut_byte b':' text)

-- The user name and the password of the field `Auth`.
unfoldable pub decode_base64_auth : Bytes → Result (Bytes × Bytes)
unfolding decode cut_byte
decode_base64_auth [] = ok ([], [])
decode_base64_auth (c ∷ auth) = decoded (decode (c ∷ auth))

module _ {W : Type 0} (sys : System W) where
  abbrev with_user : AuthConfig → Result (Bytes × Bytes) → Result AuthConfig
  with_user auth_config (err e) = err (wrap "decode base64 auth: " e)
  with_user auth_config (ok (user, pass)) =
      ok (record auth_config { username = user; password = pass })

  unfoldable pub process_stored_auth_config : AuthConfig → String → Action W AuthConfig
  unfolding decode_base64_auth
  process_stored_auth_config stored hostname w =
      let auth_config = record stored { server_address = hostname } in
      if not (is_empty stored.identity_token)
      then (ok (record auth_config { username = []; password = stored.identity_token }), w)
      else if not (is_empty stored.username) && not (is_empty stored.password)
      then (ok auth_config, w)
      else if not (is_empty stored.auth)
      then (with_user auth_config (decode_base64_auth stored.auth), w)
      else credentials_from_helper sys "" hostname w

  abbrev from_stored : Option AuthConfig → String → Action W AuthConfig
  from_stored (some stored) hostname w = process_stored_auth_config stored hostname w
  from_stored none hostname w = credentials_from_helper sys "" hostname w

  -- The answer of the credential store, if it holds a user name or a password.
  abbrev usable : Result AuthConfig → Option AuthConfig
  usable (err e) = none
  usable (ok a) = if not (is_empty a.username) || not (is_empty a.password) then some a else none

  abbrev from_store : Result AuthConfig × W → Action W AuthConfig → Result AuthConfig × W
  from_store (r, w) otherwise = elim (usable r) [ some a ↦ (ok a, w) | none ↦ otherwise w ]

  abbrev without_helper : Config → String → Action W AuthConfig
  without_helper c hostname w =
      if str_eq c.credentials_store ""
      then from_stored (lookup hostname c.auth_configs) hostname w
      else from_store (credentials_from_helper sys c.credentials_store hostname w)
          (from_stored (lookup hostname c.auth_configs) hostname)

  abbrev with_helper : Option String → Config → String → Action W AuthConfig
  with_helper (some helper) c hostname w = credentials_from_helper sys helper hostname w
  with_helper none c hostname w = without_helper c hostname w

  unfoldable pub resolve_auth_config_for_hostname : Config → String → Action W AuthConfig
  unfolding process_stored_auth_config lookup
  resolve_auth_config_for_hostname c host w =
      let hostname = resolve_registry_host host in
      with_helper (lookup hostname c.credential_helpers) c hostname w
