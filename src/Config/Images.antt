-- ===== src/Config/Images.antt =====
-- config/config.go: the credentials for the registries of some images. The verb `%q` is written
-- with plain quotation marks.
pub mod Laws
use Prim.Native.String
use docker_go_sdk.Common.{
  String, Bool, true, false, Option, none, some, List, [], ◌∷◌, ◌++◌, if◌then◌else◌,
}
use docker_go_sdk.Common.Dict.{Dict, insert}
use docker_go_sdk.Config.Cache.{Cached, auth_config_for_hostname}
use docker_go_sdk.Config.Credentials.{AuthConfig, System, err_credentials_not_found}
use docker_go_sdk.Config.Registry.{ImageReference, ReferenceParser, parse_image_ref}
use docker_go_sdk.Config.Resolve.{Config}
use docker_go_sdk.GoError.{Error, wrap, Result, ok, err, error_is, join}
use docker_go_sdk.GoError.Action.{Action}

module _ {W : Type 0} (parse : ReferenceParser) (sys : System W) (c : Config) where
  abbrev with_server :
      String → Result AuthConfig × Cached W → (String × Result AuthConfig) × Cached W
  with_server registry (ok a, s) = ((registry, ok (record a { server_address = registry })), s)
  with_server registry (err e, s) = ((registry, err e), s)

  abbrev of_reference : Result ImageReference → Cached W → (String × Result AuthConfig) × Cached W
  of_reference (err e) s = (("", err (wrap "parse image ref: " e)), s)
  of_reference (ok ref) s = with_server ref.registry (auth_config_for_hostname sys c ref.registry s)

  -- `(c *Config) AuthConfigForImage`: the registry is returned with an error, too.
  unfoldable pub auth_config_for_image : String → Cached W → (String × Result AuthConfig) × Cached W
  unfolding parse_image_ref auth_config_for_hostname
  auth_config_for_image image s = of_reference (parse_image_ref parse image) s

  -- One turn of the loop: the map, the errors, and the state after it.
  abbrev pub collect_one :
      Dict AuthConfig × List (Option Error)
      → (String × Result AuthConfig) × Cached W
      → (Dict AuthConfig × List (Option Error)) × Cached W
  collect_one (result, errs) ((registry, err e), s) =
      if error_is e err_credentials_not_found then ((result, errs), s) else (
        (
          result,
          errs
              ++ some (wrap (String.◌++◌ "auth config for \"" (String.◌++◌ registry "\": ")) e)
                ∷ [],
        ),
        s,
      )
  collect_one (result, errs) ((registry, ok a), s) =
      ((insert registry (record a { server_address = registry }) result, errs), s)

  unfoldable pub collect :
      List String
      → (Dict AuthConfig × List (Option Error)) × Cached W
      → (Dict AuthConfig × List (Option Error)) × Cached W
  unfolding auth_config_for_image error_is insert
  collect [] (acc, s) = (acc, s)
  collect (image ∷ images) (acc, s) =
      collect images (collect_one acc (auth_config_for_image image s))

  abbrev pub or_errors :
      (Dict AuthConfig × List (Option Error)) × Cached W → Result (Dict AuthConfig) × Cached W
  or_errors ((result, errs), s) = elim (join errs) [ none ↦ (ok result, s) | some e ↦ (err e, s) ]

  -- `(c *Config) AuthConfigsForImages`
  unfoldable pub auth_configs_for_images : List String → Action (Cached W) (Dict AuthConfig)
  unfolding collect join
  auth_configs_for_images images s = or_errors (collect images (([], []), s))
