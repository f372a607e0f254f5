-- ===== src/Config/Cache.antt =====
-- config/config.go: the cache of resolved credentials, as one goroutine sees it.
pub mod Laws
use docker_go_sdk.Common.{ℕ, String, Option, none, some, [], length}
use docker_go_sdk.Common.Dict.{Dict, lookup, insert}
use docker_go_sdk.Config.Credentials.{AuthConfig, System}
use docker_go_sdk.Config.Resolve.{Config, resolve_auth_config_for_hostname}
use docker_go_sdk.GoError.{Error, Result, ok, err}
use docker_go_sdk.GoError.Action.{Action}

-- The world and the entries of the cache. A configuration's cache is empty at first.
pub record Cached (W : Type 0) : Type 0 where
  pub world : W
  pub entries : Dict AuthConfig

-- `clearAuthCache`
unfoldable pub clear_auth_cache : {W : Type 0} → Cached W → Cached W
clear_auth_cache s = record s { entries = [] }

-- The size in `cacheStats`.
unfoldable pub cache_size : {W : Type 0} → Cached W → ℕ
cache_size s = length s.entries

module _ {W : Type 0} (sys : System W) (c : Config) where
  -- The result is stored if there is no error.
  abbrev pub store_result :
      Dict AuthConfig → String → Result AuthConfig × W → Result AuthConfig × Cached W
  store_result entries hostname (ok a, w) =
      (ok a, record { world = w; entries = insert hostname a entries })
  store_result entries hostname (err e, w) = (err e, record { world = w; entries = entries })

  abbrev pub on_miss : Option AuthConfig → String → Cached W → Result AuthConfig × Cached W
  on_miss (some a) hostname s = (ok a, s)
  on_miss none hostname s =
      store_result s.entries hostname (resolve_auth_config_for_hostname sys c hostname s.world)

  -- `(c *Config) AuthConfigForHostname`
  unfoldable pub auth_config_for_hostname : String → Action (Cached W) AuthConfig
  unfolding resolve_auth_config_for_hostname
  auth_config_for_hostname hostname s = on_miss (lookup hostname s.entries) hostname s
