-- ===== src/Container/Create/Launch/Substitutors.antt =====
-- container/image_substitutors.go, and the loop over the substitutors in `Run`.
use docker_go_sdk.Common.{String, ◌||◌, not, List, [], ◌∷◌, str_eq, if◌then◌else◌}
use docker_go_sdk.Config.Registry.{
  docker_registry, ImageReference, ReferenceParser, parse_image_ref,
}
use docker_go_sdk.Container.Host.{ImageSubstitutor}
use docker_go_sdk.GoError.{wrap, Result, ok, err}

-- The parser of image references, and `url.JoinPath`.
pub record References : Type 0 where
  pub parser : ReferenceParser
  pub join_path : String → String → Result String

abbrev substitute_unless : References → String → String → Result ImageReference → Result String
substitute_unless refs hub image (err e) = err e
substitute_unless refs hub image (ok ref) =
    if str_eq hub "" || not (str_eq ref.registry docker_registry)
    then ok image
    else refs.join_path hub image

-- `CustomHubSubstitutor.Substitute`
unfoldable pub custom_hub_substitute : References → String → String → Result String
unfolding parse_image_ref
custom_hub_substitute refs hub image =
    substitute_unless refs hub image (parse_image_ref refs.parser image)

-- `prependHubRegistry.Substitute`
unfoldable pub prepend_hub_substitute : References → String → String → Result String
unfolding parse_image_ref
prepend_hub_substitute refs prefix image =
    substitute_unless refs prefix image (parse_image_ref refs.parser image)

-- The loop over the substitutors in `Run`.
unfoldable pub substitute_all : List ImageSubstitutor → String → Result String
substitute_all [] image = ok image
substitute_all (is ∷ rest) image = elim (is.substitute image) [
  | err e ↦ err (wrap "failed to substitute image: " e)
  | ok modified_tag ↦ substitute_all rest modified_tag
]
