-- ===== src/Container/Definition/Options.antt =====
-- container/options.go: the options that change the definition.
pub mod Laws
pub mod Networks
use docker_go_sdk.Common.{
  ℕ, ◌*◌, ◌^◌, String, Bool, true, false, Option, none, some, List, [], ◌∷◌, ◌++◌, str_eq,
  if◌then◌else◌,
}
use docker_go_sdk.Common.Bytes.{Bytes}
use docker_go_sdk.Common.Dict.{Dict, insert, copy}
use docker_go_sdk.Container.Definition.{Definition, Validation}
use docker_go_sdk.Container.Host.{HostConfig, EndpointSettings, ImageSubstitutor}
use docker_go_sdk.GoError.{Error, sentinel, new, wrap, Result, ok, err}
use docker_go_sdk.Lifecycle.{Hook}
use docker_go_sdk.Wait.{Strategy, Strategies, nil, null, cons}
use docker_go_sdk.Wait.All.{for_all, with_deadline}

-- `ErrContainerNameEmpty`
abbrev pub err_container_name_empty : String
err_container_name_empty = "container name mustn't be empty"

-- The second modifier behind the first, if there is one.
abbrev pub then_modify : {A : Type 0} → Option (A → A) → (A → A) → A → A
then_modify none modifier config = modifier config
then_modify (some original) modifier config = modifier (original config)

abbrev pub with_first : {L : Type 0} → Option (Strategy L) → Strategies L → Strategies L
with_first none strategies = strategies
with_first (some first) strategies = cons first strategies

abbrev pub sixty_seconds : ℕ
sixty_seconds = 60 * 10 ^ 9

-- The functions, if there is one and none is nil.
unfoldable pub all_given : List (Option Validation) → Option (List Validation)
all_given [] = some []
all_given (none ∷ fns) = none
all_given (some fn ∷ fns) = elim (all_given fns) [ none ↦ none | some given ↦ some (fn ∷ given) ]

module _ {H F L C : Type 0} where
  abbrev pub with_config_modifier : (C → C) → Hook (Definition H F L C)
  with_config_modifier modifier d = (none, record d { config_modifier = some modifier })

  abbrev pub with_additional_config_modifier : (C → C) → Hook (Definition H F L C)
  with_additional_config_modifier modifier d =
      (none, record d { config_modifier = some (then_modify d.config_modifier modifier) })

  unfoldable pub with_env : Dict String → Hook (Definition H F L C)
  unfolding copy
  with_env envs d = (none, record d { env = copy d.env envs })

  abbrev pub with_host_config_modifier : (HostConfig → HostConfig) → Hook (Definition H F L C)
  with_host_config_modifier modifier d = (none, record d { host_config_modifier = some modifier })

  abbrev pub with_additional_host_config_modifier :
      (HostConfig → HostConfig) → Hook (Definition H F L C)
  with_additional_host_config_modifier modifier d =
      (none, record d { host_config_modifier = some (then_modify d.host_config_modifier modifier) })

  abbrev pub with_endpoint_settings_modifier :
      (Dict EndpointSettings → Dict EndpointSettings) → Hook (Definition H F L C)
  with_endpoint_settings_modifier modifier d =
      (none, record d { endpoint_settings_modifier = some modifier })

  abbrev pub with_image_substitutors : List ImageSubstitutor → Hook (Definition H F L C)
  with_image_substitutors fn d = (none, record d { image_substitutors = fn })

  abbrev pub with_name : String → Hook (Definition H F L C)
  with_name container_name d =
      if str_eq container_name ""
      then (some (sentinel err_container_name_empty), d)
      else (none, record d { name = container_name })

  abbrev pub with_no_start : Hook (Definition H F L C)
  with_no_start d = (none, record d { started = false })

  abbrev pub with_image : String → Hook (Definition H F L C)
  with_image image d = (none, record d { image = image })

  -- The definition with the network and its aliases.
  unfoldable pub attach_network : List String → String → Definition H F L C → Definition H F L C
  unfolding insert
  attach_network aliases network_name d = record d {
    networks = d.networks ++ network_name ∷ [];
    network_aliases = insert network_name aliases d.network_aliases;
  }

  unfoldable pub with_network_name : List String → String → Hook (Definition H F L C)
  unfolding attach_network
  with_network_name aliases network_name d =
      if str_eq network_name "bridge"
      then (
        some (
            new
              "network-scoped aliases are supported only for containers in user defined networks"),
        d,
      )
      else (none, attach_network aliases network_name d)

  -- The argument is the name of the network.
  unfoldable pub with_network : List String → String → Hook (Definition H F L C)
  unfolding with_network_name
  with_network aliases network_name = with_network_name aliases network_name

  abbrev pub with_bridge_network : Hook (Definition H F L C)
  with_bridge_network d = (none, record d { networks = d.networks ++ "bridge" ∷ [] })

  -- The last argument but one is what the creation of the network returns, with its name.
  unfoldable pub with_new_network : List String → Result String → Hook (Definition H F L C)
  unfolding attach_network
  with_new_network aliases (err e) d = (some (wrap "new network: " e), d)
  with_new_network aliases (ok network_name) d = (none, attach_network aliases network_name d)

  abbrev pub with_wait_strategy_and_deadline : ℕ → Strategies L → Hook (Definition H F L C)
  with_wait_strategy_and_deadline deadline strategies d =
      (none, record d { waiting_for = some (with_deadline (for_all strategies) deadline) })

  abbrev pub with_additional_wait_strategy_and_deadline :
      ℕ → Strategies L → Hook (Definition H F L C)
  with_additional_wait_strategy_and_deadline deadline strategies d = (
    none,
    record d {
      waiting_for = some (with_deadline (for_all (with_first d.waiting_for strategies)) deadline);
    },
  )

  abbrev pub with_wait_strategy : Strategies L → Hook (Definition H F L C)
  with_wait_strategy strategies = with_wait_strategy_and_deadline sixty_seconds strategies

  abbrev pub with_additional_wait_strategy : Strategies L → Hook (Definition H F L C)
  with_additional_wait_strategy strategies =
      with_additional_wait_strategy_and_deadline sixty_seconds strategies

  abbrev pub with_always_pull : Hook (Definition H F L C)
  with_always_pull d = (none, record d { always_pull_image = true })

  abbrev pub with_image_platform : String → Hook (Definition H F L C)
  with_image_platform platform d = (none, record d { image_platform = platform })

  abbrev pub with_entrypoint : List String → Hook (Definition H F L C)
  with_entrypoint entrypoint d = (none, record d { entrypoint = entrypoint })

  abbrev pub with_entrypoint_args : List String → Hook (Definition H F L C)
  with_entrypoint_args args d = (none, record d { entrypoint = d.entrypoint ++ args })

  abbrev pub with_exposed_ports : List String → Hook (Definition H F L C)
  with_exposed_ports ports d = (none, record d { exposed_ports = d.exposed_ports ++ ports })

  abbrev pub with_cmd : List String → Hook (Definition H F L C)
  with_cmd cmd d = (none, record d { cmd = cmd })

  abbrev pub with_cmd_args : List String → Hook (Definition H F L C)
  with_cmd_args args d = (none, record d { cmd = d.cmd ++ args })

  unfoldable pub with_labels : Dict String → Hook (Definition H F L C)
  unfolding copy
  with_labels labels d = (none, record d { labels = copy d.labels labels })

  abbrev pub with_lifecycle_hooks : List H → Hook (Definition H F L C)
  with_lifecycle_hooks hooks d = (none, record d { lifecycle_hooks = hooks })

  abbrev pub with_additional_lifecycle_hooks : List H → Hook (Definition H F L C)
  with_additional_lifecycle_hooks hooks d =
      (none, record d { lifecycle_hooks = d.lifecycle_hooks ++ hooks })

  abbrev pub with_files : List F → Hook (Definition H F L C)
  with_files files d = (none, record d { files = d.files ++ files })

  abbrev set_validations : Option (List Validation) → Hook (Definition H F L C)
  set_validations none d = (some (new "validate function is nil"), d)
  set_validations (some given) d = (none, record d { validate_funcs = given })

  -- No argument at all is a nil slice.
  unfoldable pub with_validate_funcs : List (Option Validation) → Hook (Definition H F L C)
  unfolding all_given
  with_validate_funcs [] d = set_validations none d
  with_validate_funcs (fn ∷ fns) d = set_validations (all_given (fn ∷ fns)) d
