-- ===== src/Config/Images/Laws.antt =====
-- Each registry's credentials name that registry.
use docker_go_sdk.Common.{String, ◌≡◌, Option, some, List, [], ◌∷◌, arith, eq_iff}
use docker_go_sdk.Common.Dict.{Dict, lookup, lookup-insert}
use docker_go_sdk.Config.Cache.{Cached}
use docker_go_sdk.Config.Credentials.{AuthConfig, System}
use docker_go_sdk.Config.Images.{
  auth_config_for_image, collect_one, collect, or_errors, auth_configs_for_images,
}
use docker_go_sdk.Config.Registry.{ReferenceParser}
use docker_go_sdk.Config.Resolve.{Config}
use docker_go_sdk.GoError.{Error, Result, ok, err}

abbrev NamesItsRegistry : Dict AuthConfig → Type 0
NamesItsRegistry result =
    (registry : String) (a : AuthConfig)
    → lookup registry result ≡ some a
    → a.server_address ≡ registry

module _ {W : Type 0} (parse : ReferenceParser) (sys : System W) (c : Config) where
  collect_one-NamesItsRegistry :
      (acc : Dict AuthConfig × List (Option Error))
      (found : (String × Result AuthConfig) × Cached W)
      → NamesItsRegistry acc.0
      → NamesItsRegistry (collect_one parse sys c acc found).0.0
  collect_one-NamesItsRegistry (result, errs) ((host, ok a), s) names = λ registry b found. ground (
    arith,
    lookup-insert host registry (record a { server_address = host }) result,
    eq_iff host registry,
    names registry b,
  )
  collect_one-NamesItsRegistry (result, errs) ((host, err e), s) names =
      λ registry b found. ground (arith, names registry b)

  collect-NamesItsRegistry :
      (images : List String) (acc : Dict AuthConfig × List (Option Error)) (s : Cached W)
      → NamesItsRegistry acc.0
      → NamesItsRegistry (collect parse sys c images (acc, s)).0.0
  unfolding collect
  collect-NamesItsRegistry [] acc s names = names
  collect-NamesItsRegistry (image ∷ images) acc s names =
      let turn = collect_one parse sys c acc (auth_config_for_image parse sys c image s) in
      collect-NamesItsRegistry images turn.0 turn.1
        (collect_one-NamesItsRegistry acc (auth_config_for_image parse sys c image s) names)

  or_errors_names :
      (acc : Dict AuthConfig × List (Option Error)) (s s' : Cached W) (result : Dict AuthConfig)
      → NamesItsRegistry acc.0
      → or_errors parse sys c (acc, s) ≡ (ok result, s')
      → NamesItsRegistry result
  or_errors_names (result', errs) s s' result names h =
      λ registry a found. ground (arith, names registry a)

  -- In a map that `AuthConfigsForImages` returns, the credentials under a registry have that
  -- registry as their server's address, whatever the helper or the configuration says.
  pub auth_configs_for_images-names :
      (images : List String) (s s' : Cached W) (result : Dict AuthConfig) (registry : String)
      (a : AuthConfig)
      → auth_configs_for_images parse sys c images s ≡ (ok result, s')
      → lookup registry result ≡ some a
      → a.server_address ≡ registry
  unfolding auth_configs_for_images lookup
  auth_configs_for_images-names images s s' result registry a h found =
      let final = collect parse sys c images (([], []), s) in
      or_errors_names final.0 final.1 s' result
        (collect-NamesItsRegistry images ([], []) s (λ registry a found. cc)) h registry a found
