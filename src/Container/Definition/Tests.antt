-- ===== src/Container/Definition/Tests.antt =====
-- Definitions that `Run` accepts and refuses, and the laws of definitions at them.
use docker_go_sdk.Common.{String, ◌≡◌, ◌≢◌, refl, some, List, [], ◌∷◌}
use docker_go_sdk.Common.Bytes.{codes}
use docker_go_sdk.Common.Dict.{Dict}
use docker_go_sdk.Container.Definition.{customize, Definition, new_definition, define}
use docker_go_sdk.Container.Definition.Mounts.{AreValid, binds_of, define-IsValid}
use docker_go_sdk.Container.Definition.Options.{
  with_image, with_network_name, with_bridge_network, with_name, with_host_config_modifier,
}
use docker_go_sdk.Container.Definition.Options.Networks.{AreAliased, with_network_name-AreAliased}
use docker_go_sdk.Container.Host.{HostConfig}
use docker_go_sdk.GoError.{ok, err, wrap, sentinel}
use docker_go_sdk.Lifecycle.{Hook}

abbrev PlainDefinition : Type 0
PlainDefinition = Definition Unit Unit Unit Unit

abbrev new_plain : PlainDefinition
new_plain = new_definition

abbrev two_binds : HostConfig → HostConfig
two_binds host = record host { binds = codes "/a:/data" ∷ codes "/b:/cache:ro" ∷ host.binds }

abbrev options : List (Hook PlainDefinition)
options = with_image "nginx" ∷ with_host_config_modifier two_binds ∷ []

abbrev defined : PlainDefinition
defined = record new_definition { image = "nginx"; host_config_modifier = some two_binds }

define_run : define options ≡ ok defined
unfolding define
define_run = refl

abbrev unnamed : List (Hook PlainDefinition)
unnamed = with_image "nginx" ∷ with_name "" ∷ []

unnamed_test :
    define unnamed ≡ err (wrap "customize: " (sentinel "container name mustn't be empty"))
unfolding define
unnamed_test = refl

define-IsValid_example : (defined.image ≢ "") × AreValid (binds_of defined) []
define-IsValid_example = define-IsValid options defined define_run refl

abbrev lower : Dict String
lower = ("A", "1") ∷ []

abbrev upper : Dict String
upper = ("A", "2") ∷ ("B", "3") ∷ []

networks_test : (with_network_name ("web" ∷ []) "backend" new_plain).1.networks ≡ "backend" ∷ []
unfolding with_network_name
networks_test = refl

with_network_name-AreAliased_example :
    AreAliased
      (with_network_name ("web" ∷ []) "backend" new_plain).1.network_aliases
      (with_network_name ("web" ∷ []) "backend" new_plain).1.networks
    × AreAliased
        (with_bridge_network new_plain).1.network_aliases
        (with_bridge_network new_plain).1.networks
with_network_name-AreAliased_example =
    with_network_name-AreAliased ("web" ∷ []) "backend" new_plain tt

abbrev start_options : List (Hook PlainDefinition)
start_options = with_image "nginx" ∷ []

image_only : customize start_options new_plain ≡ ok (record new_plain { image = "nginx" })
unfolding customize
image_only = refl
